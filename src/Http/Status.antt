-- ===== src/Http/Status.antt =====
-- src/http/http_statuses.cc, include/rikitiki/http/http_statuses.h, and HttpStatus::StartString of
-- src/http/Enums.cc: the status type and its static members, all of them managed.
use rikitiki.Base.Decimal.{decimal}
use rikitiki.Base.{ℕ, Bool, true, List, [], ◌∷◌, ◌++◌, Bytes, codes}

pub record HttpStatus : Type 0 where
  pub status : ℕ
  pub name : Bytes
  pub managed : Bool

-- A static member.
abbrev static_member : ℕ → Bytes → HttpStatus
static_member code name = record { status = code; name = name; managed = true }

-- HttpStatus::StartString
unfoldable pub start_string : HttpStatus → Bytes
start_string s = decimal s.status ++ (codes " " ++ s.name)

abbrev pub continue : HttpStatus
continue = static_member 100 (codes "Continue")

abbrev pub switching_protocols : HttpStatus
switching_protocols = static_member 101 (codes "Switching Protocols")

abbrev pub processing : HttpStatus
processing = static_member 102 (codes "Processing")

abbrev pub ok : HttpStatus
ok = static_member 200 (codes "OK")

abbrev pub created : HttpStatus
created = static_member 201 (codes "Created")

abbrev pub accepted : HttpStatus
accepted = static_member 202 (codes "Accepted")

abbrev pub non_authoritative_information : HttpStatus
non_authoritative_information = static_member 203 (codes "Non-Authoritative Information")

abbrev pub no_content : HttpStatus
no_content = static_member 204 (codes "No Content")

abbrev pub reset_content : HttpStatus
reset_content = static_member 205 (codes "Reset Content")

abbrev pub partial_content : HttpStatus
partial_content = static_member 206 (codes "Partial Content")

abbrev pub multi_status : HttpStatus
multi_status = static_member 207 (codes "Multi-Status")

abbrev pub already_reported : HttpStatus
already_reported = static_member 208 (codes "Already Reported")

abbrev pub im_used : HttpStatus
im_used = static_member 226 (codes "IM Used")

abbrev pub multiple_choices : HttpStatus
multiple_choices = static_member 300 (codes "Multiple Choices")

abbrev pub moved_permanently : HttpStatus
moved_permanently = static_member 301 (codes "Moved Permanently")

abbrev pub found : HttpStatus
found = static_member 302 (codes "Found")

abbrev pub see_other : HttpStatus
see_other = static_member 303 (codes "See Other")

abbrev pub not_modified : HttpStatus
not_modified = static_member 304 (codes "Not Modified")

abbrev pub use_proxy : HttpStatus
use_proxy = static_member 305 (codes "Use Proxy")

abbrev pub switch_proxy : HttpStatus
switch_proxy = static_member 306 (codes "Switch Proxy")

abbrev pub temporary_redirect : HttpStatus
temporary_redirect = static_member 307 (codes "Temporary Redirect")

abbrev pub permanent_redirect : HttpStatus
permanent_redirect = static_member 308 (codes "Permanent Redirect")

abbrev pub bad_request : HttpStatus
bad_request = static_member 400 (codes "Bad Request")

abbrev pub unauthorized : HttpStatus
unauthorized = static_member 401 (codes "Unauthorized")

abbrev pub payment_required : HttpStatus
payment_required = static_member 402 (codes "Payment Required")

abbrev pub forbidden : HttpStatus
forbidden = static_member 403 (codes "Forbidden")

abbrev pub not_found : HttpStatus
not_found = static_member 404 (codes "Not Found")

abbrev pub method_not_allowed : HttpStatus
method_not_allowed = static_member 405 (codes "Method Not Allowed")

abbrev pub not_acceptable : HttpStatus
not_acceptable = static_member 406 (codes "Not Acceptable")

abbrev pub proxy_authentication_required : HttpStatus
proxy_authentication_required = static_member 407 (codes "Proxy Authentication Required")

abbrev pub request_timeout : HttpStatus
request_timeout = static_member 408 (codes "Request Timeout")

abbrev pub conflict : HttpStatus
conflict = static_member 409 (codes "Conflict")

abbrev pub gone : HttpStatus
gone = static_member 410 (codes "Gone")

abbrev pub length_required : HttpStatus
length_required = static_member 411 (codes "Length Required")

abbrev pub precondition_failed : HttpStatus
precondition_failed = static_member 412 (codes "Precondition Failed")

abbrev pub request_entity_too_large : HttpStatus
request_entity_too_large = static_member 413 (codes "Request Entity Too Large")

abbrev pub request_uri_too_long : HttpStatus
request_uri_too_long = static_member 414 (codes "Request-URI Too Long")

abbrev pub unsupported_media_type : HttpStatus
unsupported_media_type = static_member 415 (codes "Unsupported Media Type")

abbrev pub requested_range_not_satisfiable : HttpStatus
requested_range_not_satisfiable = static_member 416 (codes "Requested Range Not Satisfiable")

abbrev pub expectation_failed : HttpStatus
expectation_failed = static_member 417 (codes "Expectation Failed")

abbrev pub im_a_teapot : HttpStatus
im_a_teapot = static_member 418 (codes "I'm a teapot")

abbrev pub enhance_your_calm : HttpStatus
enhance_your_calm = static_member 420 (codes "Enhance Your Calm")

abbrev pub unprocessable_entity : HttpStatus
unprocessable_entity = static_member 422 (codes "Unprocessable Entity")

abbrev pub locked : HttpStatus
locked = static_member 423 (codes "Locked")

abbrev pub failed_dependency : HttpStatus
failed_dependency = static_member 424 (codes "Failed Dependency")

abbrev pub unordered_collection : HttpStatus
unordered_collection = static_member 425 (codes "Unordered Collection")

abbrev pub upgrade_required : HttpStatus
upgrade_required = static_member 426 (codes "Upgrade Required")

abbrev pub precondition_required : HttpStatus
precondition_required = static_member 428 (codes "Precondition Required")

abbrev pub too_many_requests : HttpStatus
too_many_requests = static_member 429 (codes "Too Many Requests")

abbrev pub request_header_fields_too_large : HttpStatus
request_header_fields_too_large = static_member 431 (codes "Request Header Fields Too Large")

abbrev pub no_response : HttpStatus
no_response = static_member 444 (codes "No Response")

abbrev pub retry_with : HttpStatus
retry_with = static_member 449 (codes "Retry With")

abbrev pub blocked_by_windows_parental_controls : HttpStatus
blocked_by_windows_parental_controls =
    static_member 450 (codes "Blocked by Windows Parental Controls")

abbrev pub client_closed_request : HttpStatus
client_closed_request = static_member 499 (codes "Client Closed Request")

abbrev pub internal_server_error : HttpStatus
internal_server_error = static_member 500 (codes "Internal Server Error")

abbrev pub not_implemented : HttpStatus
not_implemented = static_member 501 (codes "Not Implemented")

abbrev pub bad_gateway : HttpStatus
bad_gateway = static_member 502 (codes "Bad Gateway")

abbrev pub service_unavailable : HttpStatus
service_unavailable = static_member 503 (codes "Service Unavailable")

abbrev pub gateway_timeout : HttpStatus
gateway_timeout = static_member 504 (codes "Gateway Timeout")

abbrev pub http_version_not_supported : HttpStatus
http_version_not_supported = static_member 505 (codes "HTTP Version Not Supported")

abbrev pub variant_also_negotiates : HttpStatus
variant_also_negotiates = static_member 506 (codes "Variant Also Negotiates")

abbrev pub insufficient_storage : HttpStatus
insufficient_storage = static_member 507 (codes "Insufficient Storage")

abbrev pub bandwidth_limit_exceeded : HttpStatus
bandwidth_limit_exceeded = static_member 509 (codes "Bandwidth Limit Exceeded")

abbrev pub not_extended : HttpStatus
not_extended = static_member 510 (codes "Not Extended")

abbrev pub static_members : List HttpStatus
static_members =
    continue ∷ switching_protocols ∷ processing ∷ ok ∷ created ∷ accepted
    ∷ non_authoritative_information ∷ no_content ∷ reset_content ∷ partial_content ∷ multi_status
    ∷ already_reported ∷ im_used ∷ multiple_choices ∷ moved_permanently ∷ found ∷ see_other
    ∷ not_modified ∷ use_proxy ∷ switch_proxy ∷ temporary_redirect ∷ permanent_redirect
    ∷ bad_request ∷ unauthorized ∷ payment_required ∷ forbidden ∷ not_found ∷ method_not_allowed
    ∷ not_acceptable ∷ proxy_authentication_required ∷ request_timeout ∷ conflict ∷ gone
    ∷ length_required ∷ precondition_failed ∷ request_entity_too_large ∷ request_uri_too_long
    ∷ unsupported_media_type ∷ requested_range_not_satisfiable ∷ expectation_failed ∷ im_a_teapot
    ∷ enhance_your_calm ∷ unprocessable_entity ∷ locked ∷ failed_dependency ∷ unordered_collection
    ∷ upgrade_required ∷ precondition_required ∷ too_many_requests ∷ request_header_fields_too_large
    ∷ no_response ∷ retry_with ∷ blocked_by_windows_parental_controls ∷ client_closed_request
    ∷ internal_server_error ∷ not_implemented ∷ bad_gateway ∷ service_unavailable ∷ gateway_timeout
    ∷ http_version_not_supported ∷ variant_also_negotiates ∷ insufficient_storage
    ∷ bandwidth_limit_exceeded ∷ not_extended ∷ []

-- ===== src/Cef.antt =====
-- src/cef/server.cc, src/cef/connContext.cc and their headers: the binding to an embedded browser. What
-- the browser hands over, a CefRequest, is a record; its texts are converted already. A
-- CefCallback is a value of the parameter `C`, and a call of its Continue is kept in a list.
pub mod Body
pub mod Resource
pub mod Client
pub mod Exchange
pub mod Uri
use mathlib.Core.Option
use rikitiki.Base.{
  ℕ, ◌+◌, ◌-◌, Bool, true, false, not, List, [], ◌∷◌, ◌++◌, Option, none, some, if◌then◌else◌,
  Bytes, c_str, codes, length, take, drop, find, rfind_char, starts_with, leb, ◌==◌, ◌&&◌, ◌||◌,
}
use rikitiki.Base.StringMap.{StringMap, lookup, insert}
use rikitiki.Dispatch.{Context, Attempt, returned, threw, Handler, Found, no_handler, get_handler}
use rikitiki.Http.ContentType.{ContentType, to_string}
use rikitiki.Http.Header.{HeaderCollection}
use rikitiki.Http.Header.Query.{QueryStringCollection, from_query_string}
use rikitiki.Http.Incoming.{content_length}
use rikitiki.Http.Memory.{ResponseMemory, new_response, respond_payload}
use rikitiki.Http.Message.{content_type}
use rikitiki.Http.Outgoing.Output.{all_of}
use rikitiki.Http.Parsing.{MessageState, start_line, headers, body, finished}
use rikitiki.Http.RequestMethod.{RequestMethod, from_string}
use rikitiki.Http.Status.{HttpStatus}
use rikitiki.Url.{find_slash}

-- CefRequest, with the bytes of each element of its post data.
pub record CefRequest : Type 0 where
  pub method : Bytes
  pub url : Bytes
  pub header_map : List (Bytes × Bytes)
  pub post : Option (List Bytes)

-- cef::Request; `url` is empty until URI has been called.
pub record Request : Type 0 where
  pub request : CefRequest
  pub url : Bytes
  pub body : Bytes

abbrev posted : Option (List Bytes) → Bytes
posted none = []
posted (some elements) = all_of elements

-- Request::Request
unfoldable pub new_request : CefRequest → Request
new_request req = record { request = req; url = []; body = posted req.post }

-- _headers.insert(header): a name that is there keeps its value.
abbrev pub insert_new : Bytes × Bytes → HeaderCollection → HeaderCollection
insert_new (name, value) m = elim (lookup name m) [ none ↦ insert name value m | some v ↦ m ]

abbrev insert_all : List (Bytes × Bytes) → HeaderCollection → HeaderCollection
insert_all [] m = m
insert_all (h ∷ hs) m = insert_all hs (insert_new h m)

-- Request::FillHeaders
unfoldable pub fill_headers : Request → HeaderCollection → HeaderCollection
unfolding insert lookup
fill_headers r m = insert_all r.request.header_map m

-- Request::FillRequestMethod
unfoldable pub fill_request_method : Request → RequestMethod
unfolding from_string
fill_request_method r = from_string (c_str r.request.method)

-- Request::FillQueryString
unfoldable pub fill_query_string : Request → QueryStringCollection → QueryStringCollection
unfolding from_query_string
fill_query_string r qs = elim (rfind_char b'?' r.request.url) [
  | none ↦ qs
  | some q ↦ from_query_string (drop (q + 1) r.request.url) qs
]

-- `url.find(L"://") + 3`, which is 2 where there is none.
abbrev pub protocol_end : Option ℕ → ℕ
protocol_end none = 2
protocol_end (some i) = i + 3

-- From the slash to the last question mark, or to a NUL where there is none. `none` where the code
-- has no defined result: no slash, or one behind the question mark.
pub cut_at : Bytes → (slash qmark : Option ℕ) → Option Bytes
cut_at url none qmark = none
cut_at url (some s) none = some (c_str (drop s url))
cut_at url (some s) (some q) = if leb s q then some (take (q - s) (drop s url)) else none

abbrev pub resource : Bytes → Option Bytes
resource url =
    cut_at url (find_slash (protocol_end (find (codes "://") url)) url) (rfind_char b'?' url)

abbrev pub keep_url : Request → Option Bytes → Option (Bytes × Request)
keep_url r none = none
keep_url r (some url) = some (url, record r { url = url })

abbrev cached : Request → Bytes → Option (Bytes × Request)
cached r [] = keep_url r (resource r.request.url)
cached r (c ∷ cs) = some (c ∷ cs, r)

-- Request::URI, and the request with the URI kept.
unfoldable pub uri : Request → Option (Bytes × Request)
unfolding cut_at
uri r = cached r r.url

-- The order of MessageState's constants.
abbrev rank : MessageState → ℕ
rank MessageState.unknown = 0
rank start_line = 1
rank headers = 2
rank body = 3
rank finished = 4

-- cef::Response. The body of `memory` is what has been written and not been read; `continued` are the
-- callbacks whose Continue has been called, the last first.
pub record Response (C : Type 0) : Type 0 where
  pub memory : ResponseMemory
  pub headers_ready : Option C
  pub data_ready : Option C
  pub continued : List C

module _ {C : Type 0} where
  unfoldable pub empty_response : Option C → Response C
  empty_response callback = record {
    memory = new_response;
    headers_ready = callback;
    data_ready = none;
    continued = [];
  }

  abbrev pub continue_headers : Response C → Option C → Response C
  continue_headers r none = r
  continue_headers r (some c) = record r { headers_ready = none; continued = c ∷ r.continued }

  abbrev pub continue_data : Response C → Option C → Response C
  continue_data r none = r
  continue_data r (some c) = record r { data_ready = none; continued = c ∷ r.continued }

  -- Response::SetState, for what it does beside OMessage::SetState.
  unfoldable pub state_set : (old_state new_state : MessageState) → Response C → Response C
  state_set old_state new_state r =
      let told =
        if leb (rank old_state) 2 && leb 3 (rank new_state)
        then continue_headers r r.headers_ready
        else r in
      if rank new_state == 4 then continue_data told told.data_ready else told

  -- What Response does when OResponseMemory::WritePayloadData has gone through: the state is set before
  -- the data is written, and a reader that waits is told afterwards.
  pub payload_written : Response C → ResponseMemory → Response C
  unfolding state_set
  payload_written r memory =
      let told = state_set r.memory.out.stream_state memory.out.stream_state r in
      record (continue_data told told.data_ready) { memory = memory }

  -- Response::WritePayloadData; `none` where it throws.
  unfoldable pub write_payload : Bytes → Response C → Option (Response C)
  unfolding respond_payload payload_written
  write_payload d r = Option.map (payload_written r) (respond_payload d r.memory)

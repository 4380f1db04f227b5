-- ===== src/Cef/Client.antt =====
-- src/cef/server.cc, src/cef/RequestClient.h: a request that the program itself sends through the
-- browser, and its answer.
use rikitiki.Base.{false, List, [], ◌∷◌, ◌++◌, ◌%◌, ◌^◌, Option, none, some, Bytes}
use rikitiki.Cef.{CefRequest}
use rikitiki.Cef.Resource.{CefResponse}
use rikitiki.Http.Header.{HeaderCollection, add}
use rikitiki.Http.Message.{Message, put_text}
use rikitiki.Http.Response.{new_status}
use rikitiki.Http.RequestMethod.{RequestMethod, to_string}
use rikitiki.Http.Status.{HttpStatus}

-- The CefRequest that CefInternalServer::ProcessRequest makes of a request's method, URI and body. The
-- headers of the request are not handed on.
unfoldable pub sent : Bytes → RequestMethod → (uri body : Bytes) → CefRequest
unfolding to_string
sent hostname method uri body = record {
  method = to_string method;
  url = hostname ++ uri;
  header_map = [];
  post = some (body ∷ []);
}

-- RequestClient, with its response.
pub record RequestClient : Type 0 where
  pub status : HttpStatus
  pub message : Message
  pub promise : Option (HttpStatus × Message)

abbrev pub new_client : RequestClient
new_client = record {
  status = new_status;
  message = record { headers = []; body = [] };
  promise = none;
}

-- RequestClient::OnDownloadData
unfoldable pub on_download_data : Bytes → RequestClient → RequestClient
on_download_data d c = record c { message = put_text d c.message }

abbrev pub add_all : List (Bytes × Bytes) → HeaderCollection → HeaderCollection
add_all [] m = m
add_all ((name, value) ∷ hs) m = add_all hs (add name value m)

abbrev pub told : CefResponse → RequestClient → RequestClient
told response c = record c {
  status = record {
    status = response.status % 2 ^ 16;
    name = response.status_text;
    managed = false;
  };
  message = record c.message { headers = add_all response.header_map c.message.headers };
}

-- RequestClient::OnRequestComplete: a promise that has its value throws.
unfoldable pub on_request_complete : CefResponse → RequestClient → Option RequestClient
unfolding add
on_request_complete response c =
    let c' = told response c in
    elim c.promise [
      | none ↦ some (record c' { promise = some (c'.status, c'.message) })
      | some p ↦ none
    ]

-- ===== src/Mongoose.antt =====
-- src/mongoose/connContext.cc, src/mongoose/server.cc: the binding to the mongoose web server. What
-- mongoose hands over, an http_message and the number of an event, is a record and a data type;
-- mg_send is the output of the response's writer, mg_serve_http is reported.
pub mod Received
pub mod Events
pub mod Sockets
use rikitiki.Base.{
  ℕ, zero, suc, Bool, true, false, not, List, [], ◌∷◌, Option, none, some, if◌then◌else◌, Bytes,
  c_str, length, ltb,
}
use rikitiki.Context.{Returned, ok, err, clean_context}
use rikitiki.Context.Serve.{new_context}
use rikitiki.Dispatch.{Context, Handler, server_handle}
use rikitiki.Http.Header.{Utf, HeaderCollection, add}
use rikitiki.Http.Header.Query.{QueryStringCollection, from_query_string}
use rikitiki.Http.Outgoing.{Writer, set_status}
use rikitiki.Http.RequestMethod.{RequestMethod, from_string}

-- http_message: each mg_str as its bytes. The 40 places for headers are a list, whose end stands
-- for the places of length 0 behind it.
pub record HttpMessage : Type 0 where
  pub method : Bytes
  pub uri : Bytes
  pub query_string : Bytes
  pub headers : List (Bytes × Bytes)
  pub body : Bytes

-- MongooseRequest; nothing fills its cookies.
pub record MongooseRequest : Type 0 where
  pub uri : Bytes
  pub qs : QueryStringCollection
  pub headers : HeaderCollection
  pub body : Bytes
  pub post : QueryStringCollection
  pub message : HttpMessage

-- The loop over the headers.
unfoldable pub read_headers : ℕ → List (Bytes × Bytes) → HeaderCollection → HeaderCollection
unfolding add
read_headers zero hs m = m
read_headers (suc n) [] m = m
read_headers (suc n) (([], value) ∷ hs) m = m
read_headers (suc n) ((c ∷ cs, value) ∷ hs) m = read_headers n hs (add (c ∷ cs) value m)

-- QueryStringCollection::FromQueryString(const std::string&), where there is a text at all.
read_query : Utf → Bytes → QueryStringCollection
unfolding from_query_string
read_query utf [] = []
read_query utf (c ∷ cs) = from_query_string (utf.widen (c_str (c ∷ cs))) []

-- MongooseRequest::MongooseRequest
unfoldable pub new_request : Utf → HttpMessage → MongooseRequest
unfolding read_headers read_query
new_request utf message = record {
  uri = message.uri;
  qs = read_query utf message.query_string;
  headers = read_headers 40 message.headers [];
  body = message.body;
  post = read_query utf message.body;
  message = message;
}

-- MongooseRequest::RequestMethod
unfoldable pub request_method : MongooseRequest → RequestMethod
unfolding from_string
request_method r = from_string (c_str r.message.method)

-- MongooseRequest::SetRequestMethod fails its assertion.
abbrev pub set_request_method : RequestMethod → MongooseRequest → Option MongooseRequest
set_request_method m r = none

pub data Event : Type 0 where
  http_request websocket_handshake : HttpMessage → Event
  other_event : Event

-- What an event leads to: nothing, or what Handle returned, whether mg_serve_http was called then,
-- and how the context ended.
pub data Served : Type 0 where
  ignored : Served
  served : (handled serves_static : Bool) → Returned → Served

-- _handler. The context goes away at the end of its case.
module _ (utf : Utf) (handlers : List (Handler MongooseRequest Writer)) where
  unfoldable pub handle_event : Event → Served
  unfolding new_request server_handle set_status clean_context
  handle_event (http_request hm) =
      let (taken, ctx) = server_handle (λ w. new_request utf hm) set_status handlers new_context in
      served taken (not taken) (clean_context ctx)
  handle_event (websocket_handshake hm) =
      let (taken, ctx) = server_handle (λ w. new_request utf hm) set_status handlers new_context in
      served taken false (clean_context ctx)
  handle_event other_event = ignored

-- ===== src/Http/Memory.antt =====
-- src/http/outgoing/Request.cc, src/http/outgoing/Response.cc, src/http/outgoing/Message.cc: ORequestMemory
-- and OResponseMemory, outgoing messages that are kept in memory, with the state machine of OMessage
-- that they call. The only exception is InvalidStateException: a call that throws it is `none`.
pub mod Collected
use rikitiki.Base.{ℕ, List, [], ◌∷◌, Option, none, some, Bytes}
use rikitiki.Http.ContentType.{ContentType}
use rikitiki.Http.Encoding.{Encoding}
use rikitiki.Http.Header.{Header, Cookie, HeaderCollection, Utf}
use rikitiki.Http.Header.Query.{QueryStringCollection}
use rikitiki.Http.Message.{
  Message, put_header, put_cookie, put_text, set_content_type, cookie_header,
}
use rikitiki.Http.Parsing.{
  MessageState, start_line, headers, body, finished, BodyType, buffering, body_type_from, size_max,
}
use rikitiki.Http.RequestMethod.{RequestMethod}
use rikitiki.Http.RequestMethod
use rikitiki.Http.Status
use rikitiki.Http.Status.{HttpStatus}

infixl 5 ◌>>=◌
abbrev pub ◌>>=◌ {ℓ κ} : {A : Type ℓ} {B : Type κ} → Option A → (A → Option B) → Option B
none >>= f = none
some a >>= f = f a

-- The fields of OMessage.
pub record OMessage : Type 0 where
  pub stream_state : MessageState
  pub body_type : BodyType
  pub encoding : Encoding
  pub content_size : ℕ

abbrev pub new_omessage : OMessage
new_omessage = record {
  stream_state = start_line;
  body_type = BodyType.unknown;
  encoding = Encoding.unknown;
  content_size = size_max;
}

-- OMessage::WriteHeader, which keeps no header.
header_in : MessageState → OMessage → Option OMessage
header_in start_line o = some (record o { stream_state = headers })
header_in headers o = some o
header_in body o = none
header_in finished o = none
header_in MessageState.unknown o = none

unfoldable pub header_state : OMessage → Option OMessage
unfolding header_in
header_state o = header_in o.stream_state o

-- OMessage::WritePayloadData, which keeps no data. NONE counts as BUFFERING.
abbrev buffering_for : BodyType → BodyType
buffering_for BodyType.none = buffering
buffering_for t = t

open_body : OMessage → OMessage
unfolding body_type_from
open_body o = record o {
  stream_state = body;
  body_type = buffering_for (body_type_from o.content_size o.encoding);
}

payload_in : MessageState → OMessage → Option OMessage
unfolding open_body
payload_in start_line o = some (open_body o)
payload_in headers o = some (open_body o)
payload_in body o = some o
payload_in finished o = none
payload_in MessageState.unknown o = none

unfoldable pub payload_state : OMessage → Option OMessage
unfolding payload_in
payload_state o = payload_in o.stream_state o

-- ORequestMemory. Its cookies, query string and post, which the functions below leave alone, are
-- not in the record.
pub record RequestMemory : Type 0 where
  pub out : OMessage
  pub method : RequestMethod
  pub uri : Bytes
  pub message : Message

abbrev pub empty_message : Message
empty_message = record { headers = []; body = [] }

abbrev pub new_request : Bytes → RequestMemory
new_request uri = record {
  out = new_omessage;
  method = RequestMethod.get;
  uri = uri;
  message = empty_message;
}

-- ORequestMemory::SetRequestMethod
abbrev pub set_method : RequestMethod → RequestMemory → RequestMemory
set_method m r = record r { method = m }

-- ORequestMemory::WriteHeader
unfoldable pub write_header : Header → RequestMemory → Option RequestMemory
unfolding header_state put_header
write_header h r = do
  o ← header_state r.out
  some (record r { out = o; message = put_header h r.message })

-- ORequestMemory::WritePayloadData
unfoldable pub write_payload : Bytes → RequestMemory → Option RequestMemory
unfolding payload_state
write_payload d r = do
  o ← payload_state r.out
  some (record r { out = o; message = put_text d r.message })

-- ORequestMemory::WriteData
unfoldable pub write_data : Bytes → RequestMemory → Option RequestMemory
unfolding write_payload
write_data d r = write_payload d r

-- OResponseMemory
pub record ResponseMemory : Type 0 where
  pub out : OMessage
  pub status : HttpStatus
  pub message : Message

abbrev pub new_response : ResponseMemory
new_response = record { out = new_omessage; status = Status.ok; message = empty_message }

-- OResponseMemory::operator <<(const HttpStatus&)
abbrev pub put_status : HttpStatus → ResponseMemory → ResponseMemory
put_status s r = record r { status = s }

-- OResponseMemory::WriteHeader and operator <<(const Header&), which do not look at the state.
unfoldable pub respond_header : Header → ResponseMemory → ResponseMemory
unfolding put_header
respond_header h r = record r { message = put_header h r.message }

-- OResponseMemory::operator <<(const Cookie&)
unfoldable pub respond_cookie : Cookie → ResponseMemory → ResponseMemory
unfolding put_cookie
respond_cookie c r = record r { message = put_cookie c r.message }

-- OResponseMemory::operator <<(ContentType::t)
unfoldable pub respond_content_type : Utf → ContentType → ResponseMemory → ResponseMemory
unfolding set_content_type
respond_content_type utf t r = record r { message = set_content_type utf t r.message }

-- OResponseMemory::WritePayloadData
unfoldable pub respond_payload : Bytes → ResponseMemory → Option ResponseMemory
unfolding payload_state
respond_payload d r = do
  o ← payload_state r.out
  some (record r { out = o; message = put_text d r.message })

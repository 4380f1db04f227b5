-- ===== src/Http/Outgoing.antt =====
-- src/http/outgoing/Message.cc, src/http/outgoing/Response.cc and their headers: OMessageWriter and
-- OResponseWriter, which write a response through a state machine. WriteData, which the server's
-- connection implements, is kept as the bytes written so far; what it returns is not used.
pub mod Output
pub mod Reading
pub mod RoundTrip
use rikitiki.Base.Decimal.{decimal}
use rikitiki.Base.Hex.{hex}
use rikitiki.Base.{
  ℕ, Bool, true, false, not, ◌&&◌, List, [], ◌∷◌, ◌++◌, ◌==◌, if◌then◌else◌, Bytes, codes, length,
}
use rikitiki.Http.Encoding.{Encoding, is_chunked}
use rikitiki.Http.Header.{Header, Cookie}
use rikitiki.Http.Parsing.{
  MessageState, start_line, headers, body, finished, BodyType, known_size, chunked, buffering,
  body_type_from, size_max,
}
use rikitiki.Http.Status.{HttpStatus, start_string}
use rikitiki.Http.Status

pub record Writer : Type 0 where
  pub stream_state : MessageState
  pub body_type : BodyType
  pub encoding : Encoding
  pub content_size : ℕ
  pub status : HttpStatus
  pub buffer : Bytes
  pub output : Bytes

-- The fields' initial values.
abbrev pub new_writer : Writer
new_writer = record {
  stream_state = start_line;
  body_type = BodyType.unknown;
  encoding = Encoding.unknown;
  content_size = size_max;
  status = Status.ok;
  buffer = [];
  output = [];
}

-- What a call may throw: InvalidStateException, or the exception for a message cut short. A call that
-- throws ends the response; what it had written by then is not kept.
pub data Error : Type 0 where
  invalid_state abandoned : Error

pub data Result : Type 0 where
  ok : Writer → Result
  err : Error → Result

infixl 5 ◌>>=◌
abbrev pub ◌>>=◌ : Result → (Writer → Result) → Result
ok w >>= f = f w
err e >>= f = err e

-- OMessageWriter::WriteData
abbrev pub write_data : Bytes → Writer → Writer
write_data d w = record w { output = w.output ++ d }

-- OMessage::SetState; OnStateChange does nothing.
abbrev pub set_state : MessageState → Writer → Writer
set_state st w = record w { stream_state = st }

-- OResponseWriter::operator<<(const HttpStatus&)
unfoldable pub set_status : HttpStatus → Writer → Writer
set_status s w = record w { status = s }

-- OResponseWriter::WriteStartLine
unfoldable pub write_start_line : Writer → Writer
unfolding start_string
write_start_line w =
    write_data (start_string w.status ++ codes "\r\n") (write_data (codes "HTTP/1.1 ") w)

header_out : Header → Writer → Writer
header_out h w =
    write_data (codes "\r\n") (write_data h.second (write_data (codes ": ") (write_data h.first w)))

write_header_in : MessageState → Header → Writer → Result
unfolding header_out write_start_line
write_header_in start_line h w = ok (header_out h (set_state headers (write_start_line w)))
write_header_in headers h w = ok (header_out h w)
write_header_in body h w = err invalid_state
write_header_in finished h w = err invalid_state
write_header_in MessageState.unknown h w = err invalid_state

-- OMessageWriter::WriteHeader
unfoldable pub write_header : Header → Writer → Result
unfolding write_header_in
write_header h w = write_header_in w.stream_state h w

abbrev cookie_header : Cookie → Header
cookie_header c = record { first = codes "Set-Cookie"; second = c.first ++ (codes "=" ++ c.second) }

-- OMessage::operator<<(const Cookie&)
unfoldable pub write_cookie : Cookie → Writer → Result
unfolding write_header
write_cookie c w = write_header (cookie_header c) w

-- NONE counts as BUFFERING.
abbrev buffering_for : BodyType → BodyType
buffering_for BodyType.none = buffering
buffering_for t = t

open_body : Writer → Writer
unfolding body_type_from
open_body w =
    set_state body
      (record w { body_type = buffering_for (body_type_from w.content_size w.encoding) })

-- OMessage::WritePayloadData, without the data.
start_payload_in : MessageState → Writer → Result
unfolding open_body
start_payload_in start_line w = ok (open_body (set_state headers w))
start_payload_in headers w = ok (open_body w)
start_payload_in body w = ok w
start_payload_in finished w = err invalid_state
start_payload_in MessageState.unknown w = err invalid_state

unfoldable pub start_payload : Writer → Result
unfolding start_payload_in
start_payload w = start_payload_in w.stream_state w

abbrev is_start : MessageState → Bool
is_start start_line = true
is_start _ = false

-- `state <= MessageState::HEADERS`
abbrev in_head : MessageState → Bool
in_head MessageState.unknown = true
in_head start_line = true
in_head headers = true
in_head _ = false

abbrev is_buffering : BodyType → Bool
is_buffering buffering = true
is_buffering _ = false

payload_out : BodyType → Bytes → Writer → Result
payload_out buffering d w = ok (record w { buffer = w.buffer ++ d })
payload_out chunked d w =
    ok (write_data (codes "\r\n") (write_data d (write_data (hex (length d) ++ codes "\r\n") w)))
payload_out known_size d w = ok (write_data d w)
payload_out BodyType.unknown d w = err invalid_state
payload_out BodyType.none d w = err invalid_state

-- OMessageWriter::WritePayloadData
unfoldable pub write_payload : Bytes → Writer → Result
unfolding start_payload payload_out write_start_line hex
write_payload d w = do
  w' ← start_payload (if is_start w.stream_state then write_start_line w else w)
  let w'' =
      if in_head w.stream_state && not (is_buffering w'.body_type)
      then write_data (codes "\r\n") w'
      else w'
  payload_out w''.body_type d w''

abbrev pub length_header : Bytes → Header
length_header n = record { first = codes "Content-Length"; second = n }

done_body : BodyType → Writer → Result
unfolding write_header
done_body chunked w = ok (write_data (codes "0\r\n\r\n") w)
done_body buffering w = do
  w' ← write_header (length_header (decimal (length w.buffer))) (set_state headers w)
  ok (write_data w.buffer (write_data (codes "\r\n") w'))
done_body known_size w = err invalid_state
done_body BodyType.unknown w = err invalid_state
done_body BodyType.none w = ok w

done_headers : Writer → Result
unfolding write_header done_body
done_headers w =
    if w.content_size == size_max && not (is_chunked w.encoding)
    then (do w' ← write_header (length_header (codes "0")) w; ok (write_data (codes "\r\n") w'))
    else if is_chunked w.encoding
    then ok (write_data (codes "\r\n0\r\n\r\n") w)
    else if w.content_size == 0
    then done_body w.body_type (write_data (codes "\r\n") w)
    else err abandoned

done_in : MessageState → Writer → Result
unfolding done_headers done_body write_start_line
done_in start_line w = done_headers (set_state headers (write_start_line w))
done_in headers w = done_headers w
done_in body w = done_body w.body_type w
done_in finished w = ok w
done_in MessageState.unknown w = ok w

-- OMessageWriter::Done
unfoldable pub done : Writer → Result
unfolding done_in is_chunked decimal
done w = done_in w.stream_state w

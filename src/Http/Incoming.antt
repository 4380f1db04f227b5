-- ===== src/Http/Incoming.antt =====
-- src/http/incoming/Message.cc, include/rikitiki/http/incoming/Message.h: IMessage, the parser of
-- incoming messages, and MessageListener. SetStartline is virtual: what a start line sets is a
-- parameter `A`, with the function that sets it (`none` where that has no defined result). The
-- log lines are left out, and OnStateChange, which does nothing here.
pub mod Lines
pub mod Client
pub mod Steps
pub mod Chunks
use rikitiki.Base.Strtol.{strtol}
use rikitiki.Base.{
  ℕ, ◌+◌, ◌-◌, ◌%◌, ◌^◌, Bool, true, false, List, [], ◌∷◌, ◌++◌, Option, none, some, ◌==◌, leb, ltb,
  if◌then◌else◌, Bytes, codes, c_str, length, take, ◌||◌,
}
use rikitiki.Http.Encoding.{Encoding, is_chunked}
use rikitiki.Http.Header.{HeaderCollection, add, get_size, get_encoding}
use rikitiki.Http.Parsing.{
  MessageState, start_line, headers, body, finished, BodyType, known_size, chunked, BufferMode,
  body_type_from, size_max, is_finished,
}
use rikitiki.Http.Parsing.Reader.{Reader, Outcome, on_data}
use rikitiki.Http.Parsing.Scan.{is_newline, read_header_name, read_header_value}

-- The parser's state beside the reader's, and the message that it fills. `is_bad` is the badbit of the
-- body's stream: once it is set, nothing more is written.
pub record IMessage (A : Type 0) : Type 0 where
  pub stream_state : MessageState
  pub body_type : BodyType
  pub start : A
  pub header_map : HeaderCollection
  pub content : Bytes
  pub is_bad : Bool

-- Message::ContentLength and Message::TransferEncoding
abbrev pub content_length : HeaderCollection → ℕ
content_length h = get_size (codes "Content-Length") size_max h

abbrev pub transfer_encoding : HeaderCollection → Encoding
transfer_encoding h = get_encoding (codes "Transfer-Encoding") Encoding.unknown h

-- IMessage::OnBodyData, `Body().write(data, n)`: a negative count writes nothing and sets badbit, and one
-- past the data reads beyond it.
abbrev pub write : {A : Type 0} → Bytes → ℕ → IMessage A → Option (IMessage A)
write d n m =
    if m.is_bad
    then some m
    else if leb (2 ^ 63) n
    then some (record m { is_bad = true })
    else if leb n (length d)
    then some (record m { content = m.content ++ take n d })
    else none

-- The same for a count that is the data's length.
abbrev pub write_all : {A : Type 0} → Bytes → IMessage A → IMessage A
write_all d m = record m { content = if m.is_bad then m.content else m.content ++ d }

abbrev pub Step : Type 0 → Type 0
Step A = Option (Reader × IMessage A × Bool)

-- `return currentState.streamState == MessageState::FINISHED;`
abbrev pub answer : {A : Type 0} → Reader → IMessage A → Step A
answer r m = some (r, m, is_finished m.stream_state)

abbrev pub begins_line_break : Bytes → Bool
begins_line_break [] = false
begins_line_break (c ∷ cs) = c == b'\r' || c == b'\n'

module _ {A : Type 0} where
  -- case HEADERS, on the empty line
  pub headers_end : Reader → IMessage A → Step A
  headers_end r m =
      let size = content_length m.header_map in
      let encoding = transfer_encoding m.header_map in
      answer
        (record r {
          mode = if is_chunked encoding then BufferMode.newline else BufferMode.none;
          expected_size = size;
        })
        (record m {
          body_type = body_type_from size encoding;
          stream_state = if size == 0 then finished else body;
        })

  -- case HEADERS, on a header
  pub header_read : Reader → IMessage A → Bytes → Step A
  header_read r m d =
      let (name, rest) = read_header_name d in
      let (value, behind) = read_header_value rest in
      answer r (record m { header_map = add (c_str name) (c_str value) m.header_map })

  -- case BODY, CHUNKED
  pub chunk_read : Reader → IMessage A → Bytes → Step A
  chunk_read r m d =
      if r.expected_size == size_max
      then answer
          (record r {
            expected_size = ((strtol 16 (c_str d)).value + 2) % 2 ^ 64;
            mode = BufferMode.length;
          })
          m
      else elim (write d ((r.expected_size + 2 ^ 64 - 2) % 2 ^ 64) m) [
        | none ↦ none
        | some m' ↦
            answer (record r { mode = BufferMode.newline })
              (record m' {
                stream_state = if r.expected_size == 2 then finished else m.stream_state;
              })
      ]

  abbrev pub finish_at_zero : Reader → IMessage A → Step A
  finish_at_zero r m =
      answer r
        (record m { stream_state = if r.expected_size == 0 then finished else m.stream_state })

  -- case BODY, KNOWN_SIZE; more data than expected counts as all of it
  pub sized_read : Reader → IMessage A → Bytes → Step A
  sized_read r m [] = finish_at_zero r m
  sized_read r m (c ∷ cs) =
      finish_at_zero
        (record r {
          mode = BufferMode.none;
          expected_size =
              if leb (length (c ∷ cs)) r.expected_size
              then r.expected_size - length (c ∷ cs)
              else 0;
        })
        (write_all (c ∷ cs) m)

  pub body_read : BodyType → Reader → IMessage A → Bytes → Step A
  body_read chunked r m d = chunk_read r m d
  body_read known_size r m d = sized_read r m d
  body_read BodyType.buffering r m d = answer r (write_all d m)
  body_read BodyType.unknown r m d = answer r (write_all d m)
  body_read BodyType.none r m d = answer r m

module _ {A : Type 0} (set_startline : A → Bytes → Option A) where
  pub start_read : Reader → IMessage A → Bytes → Step A
  start_read r m d = elim (set_startline m.start (c_str d)) [
    | none ↦ none
    | some a ↦ some (r, record m { start = a; stream_state = headers }, false)
  ]

  pub state_read : MessageState → Reader → IMessage A → Bytes → Step A
  unfolding start_read headers_end header_read body_read chunk_read sized_read
  state_read start_line r m d = start_read r m d
  state_read headers r m d = if begins_line_break d then headers_end r m else header_read r m d
  state_read body r m d = body_read m.body_type r m d
  state_read finished r m d = none
  state_read MessageState.unknown r m d = answer r m

  -- IMessage::OnBufferedData. In the state FINISHED it throws.
  unfoldable pub on_buffered : Reader → IMessage A → Bytes → Step A
  unfolding state_read
  on_buffered r m d = state_read m.stream_state r m d

  -- IMessage::OnData
  unfoldable pub message_data : Reader → IMessage A → (d after : Bytes) → Outcome (IMessage A)
  unfolding on_data on_buffered
  message_data r m d after = on_data on_buffered r m d after

-- IMessage::UpdateBufferState, which nothing calls.
abbrev buffer_state : {A : Type 0} → BodyType → Reader → IMessage A → Reader × IMessage A
buffer_state known_size r m = (
  record r { mode = BufferMode.length; expected_size = content_length m.header_map },
  record m { body_type = known_size },
)
buffer_state chunked r m =
    (record r { mode = BufferMode.newline }, record m { body_type = chunked })
buffer_state BodyType.none r m =
    (r, record m { body_type = BodyType.none; stream_state = finished })
buffer_state t r m = (r, record m { body_type = t })

unfoldable pub update_buffer_state : {A : Type 0} → Reader → IMessage A → Reader × IMessage A
update_buffer_state r m = elim m.stream_state [
  | body ↦
      buffer_state (body_type_from (content_length m.header_map) (transfer_encoding m.header_map)) r
        m
  | _ ↦ (r, m)
]

-- A new message.
unfoldable pub new_message : {A : Type 0} → A → IMessage A
new_message a = record {
  stream_state = start_line;
  body_type = BodyType.unknown;
  start = a;
  header_map = [];
  content = [];
  is_bad = false;
}

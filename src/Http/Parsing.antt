-- ===== src/Http/Parsing.antt =====
-- include/rikitiki/http/parsing, src/http/parsing: the states that a message is read and written
-- through, and how its body is delimited.
pub mod Scan
pub mod Reader
use rikitiki.Base.{ℕ, ◌-◌, ◌^◌, Bool, true, false, ◌==◌, if◌then◌else◌}
use rikitiki.Http.Encoding.{Encoding, is_chunked}

pub data MessageState : Type 0 where
  unknown start_line headers body finished : MessageState

pub data BodyType : Type 0 where
  unknown none buffering known_size chunked : BodyType

-- BufferedReader::BufferModeT
pub data BufferMode : Type 0 where
  length newline none : BufferMode

-- (size_t)-1, which stands for "no length given".
abbrev pub size_max : ℕ
size_max = 2 ^ 64 - 1

-- BodyType::From
unfoldable pub body_type_from : ℕ → Encoding → BodyType
unfolding is_chunked
body_type_from content_size encoding =
    if content_size == size_max
    then (if is_chunked encoding then chunked else BodyType.none)
    else known_size

abbrev pub is_finished : MessageState → Bool
is_finished finished = true
is_finished _ = false

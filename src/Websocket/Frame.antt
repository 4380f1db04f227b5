-- ===== src/Websocket/Frame.antt =====
-- src/websocket/websocketContext.cc, include/rikitiki/websocket/websocketContext.h: frames received
-- and the messages that they make up. The bits of a byte are taken with / and %. A pointer is the
-- memory behind it; where the code reads beyond that, or an assertion fails, there is no result.
use rikitiki.Base.{
  ℕ, zero, suc, ◌+◌, ◌-◌, ◌*◌, ◌/◌, ◌%◌, ◌^◌, Bool, true, false, not, [], ◌∷◌, ◌++◌, Option, none,
  some, ◌==◌, leb, if◌then◌else◌, Bytes, length, take,
}

-- `byte & (1 << k)`, as 0 or 1.
abbrev pub bit : ℕ → ℕ → ℕ
bit k byte = (byte / 2 ^ k) % 2

pub record FrameInfo : Type 0 where
  pub opcode : ℕ
  pub size : ℕ
  pub is_masked : Bool
  pub is_finished : Bool
  pub mask : ℕ

-- FrameInfo::OpCode
abbrev pub op_code : FrameInfo → ℕ
op_code info = info.opcode % 256

pub record Frame : Type 0 where
  pub info : FrameInfo
  pub payload : Bytes

-- Frame::Init. The mask and its flag keep what they hold. The tests are `opcode & OpCode::Close`,
-- bit 3, and `opcode & 0xEF`, all bits but bit 4.
abbrev pub init : FrameInfo → (opcode : ℕ) → Bytes → (len : ℕ) → Frame
init info opcode buffer len = record {
  info = record info {
    size = len;
    is_finished = bit 3 opcode == 1;
    opcode = opcode % 256 - 16 * bit 4 opcode;
  };
  payload = buffer;
}

-- A number in the host's order, which is taken to be little endian, and the memory behind it.
abbrev pub host_number : ℕ → Bytes → Option (ℕ × Bytes)
host_number zero bs = some (0, bs)
host_number (suc k) [] = none
host_number (suc k) (b ∷ bs) = elim (host_number k bs) [
  | none ↦ none
  | some p ↦ some (b + 256 * p.0, p.1)
]

-- The length's first byte, which is compared with its mask bit on.
abbrev pub frame_length_of : ℕ → Bytes → Option (ℕ × Bytes)
frame_length_of b bs =
    if b == 126 then host_number 2 bs else if b == 127 then host_number 8 bs else some (b, bs)

abbrev pub frame_mask : Bool → ℕ → Bytes → Option (ℕ × Bytes)
frame_mask true old bs = host_number 4 bs
frame_mask false old bs = some (old, bs)

-- Frame::Frame(buffer, len), into memory that holds `info`. `buffer[0] && 0x80` holds for every
-- length but 0.
unfoldable pub read_frame : FrameInfo → Bytes → ℕ → Option Frame
read_frame info [] len = none
read_frame info (b ∷ []) len = none
read_frame info (opcode ∷ b ∷ bs) len = elim (frame_length_of b bs) [
  | none ↦ none
  | some (n, bs') ↦ elim (frame_mask (not (b == 0)) info.mask bs') [
    | none ↦ none
    | some (key, bs'') ↦
        if n == len
        then some (init (record info { is_masked = not (b == 0); mask = key }) opcode bs'' len)
        else none
  ]
]

pub record Message : Type 0 where
  pub code : ℕ
  pub content : Bytes
  pub frame_length : ℕ

-- Message::Ingest. On a 64-bit host the sum of sizes does not exceed what it is compared with.
unfoldable pub ingest : Frame → Message → Option Message
ingest frame m =
    if m.code == op_code frame.info
    then (if leb frame.info.size (length frame.payload)
        then some (record m {
          frame_length = (m.frame_length + 1) % 2 ^ 64;
          content = m.content ++ take frame.info.size frame.payload;
        })
        else none)
    else none

-- Message::Message
unfoldable pub new_message : Frame → Option Message
unfolding ingest
new_message frame =
    ingest frame (record { code = op_code frame.info; content = []; frame_length = 0 })

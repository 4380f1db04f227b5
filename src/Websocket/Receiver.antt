-- ===== src/Websocket/Receiver.antt =====
-- A receiver of what WebsocketContext::Write sends, src/websocket/websocketContext.cc, as RFC 6455, which the
-- header file refers to, describes it in sections 5.2, 5.4 and 5.5. Whether a text is UTF-8 is not
-- looked at.
use rikitiki.Base.{
  ◌&&◌, ℕ, zero, suc, ◌+◌, ◌*◌, ◌%◌, ◌^◌, ◌≤◌, Bool, true, false, [], ◌∷◌, ◌++◌, Option, none, some,
  ltb, leb, ◌==◌, if◌then◌else◌, Bytes, length, take, drop, ◌≡◌, ◌⊎◌,
}
use rikitiki.Websocket.OpCode.{OpCode, final}

-- A frame from a server, which does not mask.
pub record RfcFrame : Type 0 where
  pub fin : Bool
  pub opcode : ℕ
  pub payload : Bytes

abbrev pub read_number : ℕ → ℕ → Bytes → Option (ℕ × Bytes)
read_number zero n bs = some (n, bs)
read_number (suc k) n [] = none
read_number (suc k) n (b ∷ bs) = read_number k (n * 256 + b) bs

-- A length is written in as few bytes as it takes, and is below 2 ^ 63.
abbrev pub minimal : ℕ → Option (ℕ × Bytes) → Option (ℕ × Bytes)
minimal least none = none
minimal least (some (n, bs)) = if leb least n && ltb n (2 ^ 63) then some (n, bs) else none

abbrev pub read_length : Bytes → Option (ℕ × Bytes)
read_length [] = none
read_length (b ∷ bs) =
    if ltb b 126
    then some (b, bs)
    else if b == 126
    then minimal 126 (read_number 2 0 bs)
    else if b == 127
    then minimal (2 ^ 16) (read_number 8 0 bs)
    else none

abbrev pub cut_payload : ℕ → Option (ℕ × Bytes) → Option (RfcFrame × Bytes)
cut_payload b none = none
cut_payload b (some (n, bs)) =
    if leb n (length bs)
    then some (record { fin = leb 128 b; opcode = b % 128; payload = take n bs }, drop n bs)
    else none

abbrev pub read_frame : Bytes → Option (RfcFrame × Bytes)
read_frame [] = none
read_frame (b ∷ bs) = cut_payload b (read_length bs)

-- The bytes are the frames of one message with that code and that payload: the last alone is final,
-- and all but the first are continuations.
pub data IsFrames : ℕ → Bytes → Bytes → Type 0 where
  last :
      {opcode : ℕ} {payload wire : Bytes}
      → read_frame wire ≡ some (record { fin = true; opcode = opcode; payload = payload }, [])
      → IsFrames opcode payload wire
  more :
      {opcode : ℕ} {payload rest_payload wire rest : Bytes}
      → read_frame wire ≡ some (record { fin = false; opcode = opcode; payload = payload }, rest)
      → IsFrames 0 rest_payload rest
      → IsFrames opcode (payload ++ rest_payload) wire

-- Section 5.6: text and binary. The code is read with the three reserved bits above it, which are 0.
abbrev pub IsDataCode : ℕ → Type 0
IsDataCode opcode = (opcode ≡ 1) ⊎ (opcode ≡ 2)

-- Section 5.5: close, ping and pong have at most 125 bytes, and a close frame's begin with a status
-- of two.
pub data IsControl : ℕ → Bytes → Type 0 where
  close_payload :
      {payload : Bytes} → 2 ≤ length payload → length payload ≤ 125 → IsControl 8 payload
  ping_payload : {payload : Bytes} → length payload ≤ 125 → IsControl 9 payload
  pong_payload : {payload : Bytes} → length payload ≤ 125 → IsControl 10 payload

-- One message: data in any number of frames, or one control frame, which is not fragmented.
pub data IsMessage : ℕ → Bytes → Bytes → Type 0 where
  data_message :
      {opcode : ℕ} {payload wire : Bytes}
      → IsDataCode opcode
      → IsFrames opcode payload wire
      → IsMessage opcode payload wire
  control_message :
      {opcode : ℕ} {payload wire : Bytes}
      → IsControl opcode payload
      → read_frame wire ≡ some (record { fin = true; opcode = opcode; payload = payload }, [])
      → IsMessage opcode payload wire

-- What may be sent with a code.
abbrev pub IsSendable : OpCode → Bytes → Type 0
IsSendable OpCode.text payload = Unit
IsSendable OpCode.binary payload = Unit
IsSendable OpCode.close payload = (2 ≤ length payload) × (length payload ≤ 125)
IsSendable OpCode.ping payload = length payload ≤ 125
IsSendable OpCode.pong payload = length payload ≤ 125
IsSendable OpCode.continuation payload = ⊥
IsSendable final payload = ⊥

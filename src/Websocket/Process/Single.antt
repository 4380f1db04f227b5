-- ===== src/Websocket/Process/Single.antt =====
-- src/websocket/websocketProcess.cc: one frame, and the message under way.
use rikitiki.Base.{
  ℕ, ◌-◌, ◌*◌, ◌%◌, ◌⊎◌, ◌∙◌, [], ◌++◌, Bool, true, Option, none, some, leb, if◌then◌else◌, Bytes,
  ◌≡◌, refl, arith, length, take, ==_refl, Option-cases, inl, inr,
}
use rikitiki.Websocket.Frame.{FrameInfo, Message, bit, init, ingest, new_message}
use rikitiki.Websocket.Process.{
  Process, Delivery, new_process, on_receive_message, on_receive_frame,
}

-- The code that a frame keeps of its first byte.
abbrev pub kept_code : ℕ → ℕ
kept_code opcode = opcode % 256 - 16 * bit 4 opcode

kept_code-bit : (opcode : ℕ) → bit 3 (kept_code opcode) ≡ bit 3 opcode
kept_code-bit opcode = omega arith

pub kept_code_small : (opcode : ℕ) → kept_code opcode % 256 ≡ kept_code opcode
kept_code_small opcode = omega arith

-- The message under way, if any, has frames without bit 3, none of which is final.
abbrev pub IsOpen : Option Message → Type 0
IsOpen none = Unit
IsOpen (some m) = bit 3 m.code ≡ 0

-- The message that one frame makes up.
abbrev pub single : ℕ → Bytes → ℕ → Message
single opcode payload len = record {
  code = kept_code opcode;
  content = take len payload;
  frame_length = 1;
}

pub new_message-init :
    (info : FrameInfo) (opcode : ℕ) (payload : Bytes) (len : ℕ)
    → new_message (init info opcode payload len)
      ≡ (if leb len (length payload) then some (single opcode payload len) else none)
unfolding new_message ingest
new_message-init info opcode payload len =
    rw (==_refl (kept_code opcode % 256), kept_code_small opcode) refl

abbrev pub content_of : Option Message → Bytes
content_of none = []
content_of (some m) = m.content

module _ {S : Type 0} (on_receive : Delivery → S → S × Bool) where
  -- What one frame leads to where `o` is under way: the process afterwards, the state of the handler's
  -- class and what is returned.
  pub data IsOutcome (opcode : ℕ) (payload : Bytes) (len : ℕ) (s : S)
      : Option Message → Process → S → Bool → Type 0 where
    collected :
        {o : Option Message} (m : Message)
        → bit 3 opcode ≡ 0
        → bit 3 m.code ≡ 0
        → m.content ≡ content_of o ++ take len payload
        → IsOutcome opcode payload len s o (record { ongoing_message = some m }) s true
    handed_on :
        {s' : S} {b : Bool}
        → bit 3 opcode ≡ 1
        → (s', b) ≡ on_receive_message on_receive (single opcode payload len) s
        → IsOutcome opcode payload len s none (record { ongoing_message = none }) s' b

bit-cases : (k byte : ℕ) → (bit k byte ≡ 0) ⊎ (bit k byte ≡ 1)
bit-cases k byte = omega arith

-- A frame that is taken into a message leaves bit 3 clear and puts its payload behind the content.
ingest-content :
    (info : FrameInfo) (opcode : ℕ) (payload : Bytes) (len : ℕ) (m m' : Message)
    → bit 3 m.code ≡ 0
    → ingest (init info opcode payload len) m ≡ some m'
    → (bit 3 m'.code ≡ 0) × (bit 3 opcode ≡ 0) × (m'.content ≡ m.content ++ take len payload)
unfolding ingest
ingest-content info opcode payload len m m' ongoing e =
    ground (arith, kept_code_small opcode, kept_code-bit opcode)

module _ {S : Type 0} (on_receive : Delivery → S → S × Bool) where
  received_first :
      (info : FrameInfo) (opcode : ℕ) (payload : Bytes) (len : ℕ) (s : S) (p' : Process) (s' : S)
      (b : Bool)
      → on_receive_frame on_receive (init info opcode payload len) new_process s ≡ some (p', s', b)
      → IsOutcome on_receive opcode payload len s none p' s' b
  unfolding on_receive_frame
  received_first info opcode payload len s p' s' b e = elim (bit-cases 3 opcode) [
    | inl clear ↦
        let left : (p' ≡ record { ongoing_message = some (single opcode payload len) })
            × (s' ≡ s)
            × (b ≡ true) =
          ground (arith, new_message-init info opcode payload len) in
        rw (left.0, left.1, left.2)
          (collected (single opcode payload len) clear (kept_code-bit opcode ∙ clear) refl)
    | inr last ↦
        let left : (p' ≡ record { ongoing_message = none })
            × ((s', b) ≡ on_receive_message on_receive (single opcode payload len) s) =
          ground (arith, new_message-init info opcode payload len) in
        rw left.0 (handed_on last left.1)
  ]

  received_more :
      (info : FrameInfo) (opcode : ℕ) (payload : Bytes) (len : ℕ) (m : Message) (s : S)
      (p' : Process) (s' : S) (b : Bool)
      → bit 3 m.code ≡ 0
      → on_receive_frame on_receive
          (init info opcode payload len)
          (record { ongoing_message = some m })
          s
        ≡ some (p', s', b)
      → IsOutcome on_receive opcode payload len s (some m) p' s' b
  unfolding on_receive_frame
  received_more info opcode payload len m s p' s' b ongoing e =
      elim (Option-cases (ingest (init info opcode payload len) m)) [
        | inl refused ↦ absurd (ground (arith, refused))
        | inr (m', taken) ↦
            let (code, clear, content) =
              ingest-content info opcode payload len m m' ongoing taken in
            let left : (p' ≡ record { ongoing_message = some m' }) × (s' ≡ s) × (b ≡ true) =
              ground (arith, taken, clear) in
            rw (left.0, left.1, left.2) (collected m' clear code content)
      ]

  -- A frame that a process accepts, where no message is under way or one whose code has bit 3 clear, does
  -- one of two things. If its first byte has bit 3 clear, no message is handed on: its payload is put behind
  -- the content under way and the message stays under way, with bit 3 clear in its code. If its first
  -- byte has bit 3, which the code takes for the final bit, no message was under way, and OnReceiveMessage
  -- is called, once, on the message that this frame alone makes up; none is under way afterwards.
  pub on_receive_frame-IsOutcome :
      (info : FrameInfo) (opcode : ℕ) (payload : Bytes) (len : ℕ) (p p' : Process) (s s' : S)
      (b : Bool)
      → IsOpen p.ongoing_message
      → on_receive_frame on_receive (init info opcode payload len) p s ≡ some (p', s', b)
      → IsOutcome on_receive opcode payload len s p.ongoing_message p' s' b
  on_receive_frame-IsOutcome info opcode payload len p p' s s' b = by_message p.ongoing_message
    where
      by_message :
          (o : Option Message)
          → IsOpen o
          → on_receive_frame on_receive
              (init info opcode payload len)
              (record { ongoing_message = o })
              s
            ≡ some (p', s', b)
          → IsOutcome on_receive opcode payload len s o p' s' b
      by_message none ongoing e = received_first info opcode payload len s p' s' b e
      by_message (some m) ongoing e = received_more info opcode payload len m s p' s' b ongoing e

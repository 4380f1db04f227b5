-- ===== src/Websocket/Process/Collect.antt =====
-- src/websocket/websocketProcess.cc: frames of a text or binary message.
use rikitiki.Base.{
  ℕ, ◌+◌, ◌%◌, ◌^◌, ◌<◌, Bool, true, List, [], ◌∷◌, ◌++◌, some, Bytes, ◌≡◌, refl, ap, ◌∙◌, arith,
  length, take_all, ==_refl, append_assoc, append-nil, le→leb, map,
}
use rikitiki.Websocket.Frame.{FrameInfo, Frame, Message, bit, init, ingest}
use rikitiki.Websocket.Process.{Process, new_process, Delivery, on_receive_frame, on_receive_frames}
use rikitiki.Websocket.Process.Single.{kept_code, kept_code_small, new_message-init}

-- A whole frame with that first byte.
abbrev pub whole : FrameInfo → ℕ → Bytes → Frame
whole info opcode payload = init info opcode payload (length payload)

abbrev pub joined : List Bytes → Bytes
joined [] = []
joined (p ∷ ps) = p ++ joined ps

abbrev with_message : Message → Process
with_message m = record { ongoing_message = some m }

abbrev grown : Message → List Bytes → Message
grown m ps = record m {
  content = m.content ++ joined ps;
  frame_length = (m.frame_length + length ps) % 2 ^ 64;
}

grown_nil : (m : Message) → m.frame_length < 2 ^ 64 → m ≡ grown m []
grown_nil m small =
    let count : (m.frame_length + 0) % 2 ^ 64 ≡ m.frame_length = omega arith in
    rw (append-nil m.content, count) refl

grown_cons :
    (m : Message) (p : Bytes) (ps : List Bytes)
    → grown (record m { content = m.content ++ p; frame_length = (m.frame_length + 1) % 2 ^ 64 }) ps
      ≡ grown m (p ∷ ps)
grown_cons m p ps =
    let count : ((m.frame_length + 1) % 2 ^ 64 + length ps) % 2 ^ 64
        ≡ (m.frame_length + length (p ∷ ps)) % 2 ^ 64 =
      omega arith in
    rw (append_assoc m.content p (joined ps), count) refl

ingest-whole :
    (info : FrameInfo) (opcode : ℕ) (payload : Bytes) (m : Message)
    → m.code ≡ kept_code opcode
    → ingest (whole info opcode payload) m
      ≡ some (record m {
        content = m.content ++ payload;
        frame_length = (m.frame_length + 1) % 2 ^ 64;
      })
unfolding ingest
ingest-whole info opcode payload m same =
    rw
      (
        same,
        kept_code_small opcode,
        ==_refl (kept_code opcode),
        le→leb (length payload) (length payload) (omega arith),
        take_all payload,
      )
      refl

module _ {S : Type 0} (on_receive : Delivery → S → S × Bool) where
  receive_whole :
      (info : FrameInfo) (opcode : ℕ) (payload : Bytes) (m : Message) (s : S)
      → bit 3 opcode ≡ 0
      → m.code ≡ kept_code opcode
      → on_receive_frame on_receive (whole info opcode payload) (with_message m) s
        ≡ some (
          with_message (record m {
            content = m.content ++ payload;
            frame_length = (m.frame_length + 1) % 2 ^ 64;
          }),
          s,
          true,
        )
  unfolding on_receive_frame
  receive_whole info opcode payload m s clear same =
      ground (arith, ingest-whole info opcode payload m same)

  receive_new :
      (info : FrameInfo) (opcode : ℕ) (payload : Bytes) (s : S)
      → bit 3 opcode ≡ 0
      → on_receive_frame on_receive (whole info opcode payload) new_process s
        ≡ some (
          with_message (record { code = kept_code opcode; content = payload; frame_length = 1 }),
          s,
          true,
        )
  unfolding on_receive_frame
  receive_new info opcode payload s clear = ground (
    arith,
    new_message-init info opcode payload (length payload),
    le→leb (length payload) (length payload) (omega arith),
    take_all payload,
  )

  receive_all :
      (info : FrameInfo) (opcode : ℕ) (ps : List Bytes) (m : Message) (s : S)
      → bit 3 opcode ≡ 0
      → m.code ≡ kept_code opcode
      → m.frame_length < 2 ^ 64
      → on_receive_frames on_receive (map (whole info opcode) ps) (with_message m) s
        ≡ some (with_message (grown m ps), s, true)
  unfolding on_receive_frames
  receive_all info opcode [] m s clear same small =
      ap (λ t. some (with_message t, s, true)) (grown_nil m small)
  receive_all info opcode (p ∷ ps) m s clear same small =
      rw (on_receive_frames, receive_whole info opcode p m s clear same)
        (receive_all info opcode ps _ s clear same (omega arith)
          ∙ ap (λ t. some (with_message t, s, true)) (grown_cons m p ps))

  -- Frames whose first byte has bit 3 clear, as text and binary frames have it, final or not, are
  -- collected in order by a new process into a message that is not handed on: the handler is not
  -- called, and the message under way holds all payloads. The frames have the same first byte.
  pub on_receive_frames-collects :
      (info : FrameInfo) (opcode : ℕ) (p : Bytes) (ps : List Bytes) (s : S)
      → bit 3 opcode ≡ 0
      → on_receive_frames on_receive (map (whole info opcode) (p ∷ ps)) new_process s
        ≡ some (
          record {
            ongoing_message = some (record {
              code = kept_code opcode;
              content = joined (p ∷ ps);
              frame_length = length (p ∷ ps) % 2 ^ 64;
            });
          },
          s,
          true,
        )
  unfolding on_receive_frames
  on_receive_frames-collects info opcode p ps s clear =
      let count : (1 + length ps) % 2 ^ 64 ≡ length (p ∷ ps) % 2 ^ 64 = omega arith in
      rw (on_receive_frames, receive_new info opcode p s clear)
        (receive_all info opcode ps
            (record { code = kept_code opcode; content = p; frame_length = 1 }) s clear refl
            (omega arith)
          ∙ rw count refl)

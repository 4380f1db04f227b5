-- ===== src/Websocket/Rfc.antt =====
-- src/websocket/websocketContext.cc: what a receiver reads from the frames that Write sends.
use Prim.Native.Nat.{bit_or}
use rikitiki.Base.{
  ℕ, zero, suc, ◌+◌, ◌%◌, ◌^◌, ◌-◌, ◌<◌, ◌≤◌, Bool, true, false, [], ◌∷◌, ◌++◌, some, leb, Bytes,
  length, take, drop, ◌≡◌, ◌≢◌, refl, sym, ap, ◌∙◌, arith, lt→leb-false, append-nil, subst,
  take-length, drop-length, length-append, le→leb, append_assoc, length-drop, length-take,
  take-append-drop, ◌⊎◌, inl, inr,
}
use rikitiki.Websocket.OpCode.{OpCode, code, final, continuation}
use rikitiki.Websocket.Write.{max_frame, network_order, size_bytes, control, write_loop, write}
use rikitiki.Websocket.Receiver.{
  read_number, read_length, read_frame, IsFrames, last, more, IsDataCode, IsControl, close_payload,
  ping_payload, pong_payload, IsMessage, data_message, control_message, IsSendable,
}

read_number_small :
    (n : ℕ) (bs : Bytes) → n < 2 ^ 16 → read_number 2 0 (network_order 2 n ++ bs) ≡ some (n, bs)
read_number_small n bs small = ap (λ t. some (t, bs)) (omega arith)

read_number_large :
    (n : ℕ) (bs : Bytes) → n < 2 ^ 64 → read_number 8 0 (network_order 8 n ++ bs) ≡ some (n, bs)
read_number_large n bs small = ap (λ t. some (t, bs)) (omega arith)

read_length-size_bytes :
    (n : ℕ) (bs : Bytes) → n < 2 ^ 63 → read_length (size_bytes n ++ bs) ≡ some (n, bs)
read_length-size_bytes n bs small =
    ground (arith, read_number_small n bs, read_number_large n bs (omega (arith, small)))

read_frame-bytes :
    (b : ℕ) (p rest : Bytes)
    → length p < 2 ^ 63
    → read_frame (b ∷ (size_bytes (length p) ++ (p ++ rest)))
      ≡ some (record { fin = leb 128 b; opcode = b % 128; payload = p }, rest)
read_frame-bytes b p rest small =
    rw
      (
        read_length-size_bytes (length p) (p ++ rest) small,
        le→leb (length p) (length (p ++ rest)) (omega (arith, length-append p rest)),
        take-length p rest,
        drop-length p rest,
      )
      refl

-- A connection that takes all bytes.
abbrev pub accept : Bytes → Bytes → Bytes × Bool
accept out bytes = (out ++ bytes, true)

abbrev frame_bytes : ℕ → Bytes → Bytes
frame_bytes b p = b ∷ (size_bytes (length p) ++ p)

write_round :
    (close : Bytes → Bytes) (fuel first : ℕ) (c : ℕ) (cs out : Bytes)
    → write_loop accept close (suc fuel) first (c ∷ cs) out
      ≡ write_loop accept close fuel 0 (drop max_frame (c ∷ cs)) (
          out
          ++ frame_bytes
              (bit_or first (code (control (drop max_frame (c ∷ cs)))))
              (take max_frame (c ∷ cs)))
unfolding write_loop
write_round close fuel first c cs out =
    ap (write_loop accept close fuel 0 (drop max_frame (c ∷ cs))) (append_assoc out _ _)

final_byte : (op : OpCode) → op ≢ final → (bit_or (code op) 128 ≡ code op + 128) × (code op < 128)
final_byte final ne = absurd (ne refl)
final_byte OpCode.continuation ne = (refl, omega arith)
final_byte OpCode.text ne = (refl, omega arith)
final_byte OpCode.binary ne = (refl, omega arith)
final_byte OpCode.close ne = (refl, omega arith)
final_byte OpCode.ping ne = (refl, omega arith)
final_byte OpCode.pong ne = (refl, omega arith)

more_byte : (op : OpCode) → bit_or (code op) 0 ≡ code op
more_byte final = refl
more_byte OpCode.continuation = refl
more_byte OpCode.text = refl
more_byte OpCode.binary = refl
more_byte OpCode.close = refl
more_byte OpCode.ping = refl
more_byte OpCode.pong = refl

List-cases : (xs : Bytes) → (xs ≡ []) ⊎ ((x : ℕ) × (ys : Bytes) × (xs ≡ x ∷ ys))
List-cases [] = inl refl
List-cases (x ∷ xs) = inr (x, xs, refl)

abbrev Written : (Bytes → Bytes) → ℕ → OpCode → Bytes → Bytes → Type 0
Written close fuel op buffer out =
    (wire : Bytes) × (write_loop accept close fuel (code op) buffer out ≡ some (out ++ wire))
    × IsFrames (code op) buffer wire

read_last :
    (op : OpCode) (p : Bytes)
    → op ≢ final
    → length p < 2 ^ 63
    → read_frame (frame_bytes (code op + 128) p)
      ≡ some (record { fin = true; opcode = code op; payload = p }, [])
read_last op p ne small =
    let (_, low) = final_byte op ne in
    let code_left : (code op + 128) % 128 ≡ code op = omega (arith, low) in
    (rw (append-nil p) at (read_frame-bytes (code op + 128) p [] small))
    ∙ rw (le→leb 128 (code op + 128) (omega arith), code_left) refl

read_more :
    (op : OpCode) (p rest : Bytes)
    → op ≢ final
    → length p < 2 ^ 63
    → read_frame (frame_bytes (code op) p ++ rest)
      ≡ some (record { fin = false; opcode = code op; payload = p }, rest)
read_more op p rest ne small =
    let (_, low) = final_byte op ne in
    let code_left : code op % 128 ≡ code op = omega (arith, low) in
    ap (λ t. read_frame (code op ∷ t)) (append_assoc (size_bytes (length p)) p rest)
    ∙ read_frame-bytes (code op) p rest small
    ∙ rw (lt→leb-false 128 (code op) low, code_left) refl

take_small : (xs : Bytes) → length (take max_frame xs) < 2 ^ 63
take_small xs = omega (arith, length-take max_frame xs)

-- The last round sends one final frame.
write_single :
    (close : Bytes → Bytes) (fuel : ℕ) (op : OpCode) (c : ℕ) (cs out : Bytes)
    → op ≢ final
    → drop max_frame (c ∷ cs) ≡ []
    → 1 ≤ fuel
    → (wire : Bytes) × (write_loop accept close (suc fuel) (code op) (c ∷ cs) out
        ≡ some (out ++ wire))
      × (read_frame wire ≡ some (record { fin = true; opcode = code op; payload = c ∷ cs }, []))
write_single close zero op c cs out ne all_sent enough = absurd (omega arith)
write_single close (suc fuel) op c cs out ne all_sent enough =
    let send = take max_frame (c ∷ cs) in
    let whole : send ≡ c ∷ cs =
      sym (append-nil send)
      ∙ ap (λ t. send ++ t) (sym all_sent)
      ∙ take-append-drop max_frame (c ∷ cs) in
    (
      frame_bytes (code op + 128) send,
      write_round close (suc fuel) (code op) c cs out
          ∙ rw (all_sent, (final_byte op ne).0) (unfold write_loop in refl),
      read_last op send ne (take_small (c ∷ cs))
          ∙ ap (λ t. some (record { fin = true; opcode = code op; payload = t }, [])) whole,
    )

write_last :
    (close : Bytes → Bytes) (fuel : ℕ) (op : OpCode) (c : ℕ) (cs out : Bytes)
    → op ≢ final
    → drop max_frame (c ∷ cs) ≡ []
    → 1 ≤ fuel
    → Written close (suc fuel) op (c ∷ cs) out
write_last close fuel op c cs out ne all_sent enough =
    let (wire, written, read) = write_single close fuel op c cs out ne all_sent enough in
    (wire, written, last read)

write_more :
    (close : Bytes → Bytes) (fuel : ℕ) (op : OpCode) (c : ℕ) (cs : Bytes) (x : ℕ) (xs out : Bytes)
    → op ≢ final
    → drop max_frame (c ∷ cs) ≡ x ∷ xs
    → Written close fuel continuation
        (x ∷ xs)
        (out ++ frame_bytes (code op) (take max_frame (c ∷ cs)))
    → Written close (suc fuel) op (c ∷ cs) out
write_more close fuel op c cs x xs out ne left (wire, written, message) =
    let send = take max_frame (c ∷ cs) in
    let first = frame_bytes (code op) send in
    let whole : send ++ (x ∷ xs) ≡ c ∷ cs =
      ap (λ t. send ++ t) (sym left) ∙ take-append-drop max_frame (c ∷ cs) in
    (
      first ++ wire,
      write_round close fuel (code op) c cs out
          ∙ rw (left, more_byte op) (written ∙ ap some (append_assoc out first wire)),
      subst (λ t. IsFrames (code op) t (first ++ wire)) whole
          (more (read_more op send wire ne (take_small (c ∷ cs))) message),
    )

write_loop-IsFrames :
    (close : Bytes → Bytes) (fuel : ℕ) (op : OpCode) (buffer out : Bytes)
    → op ≢ final
    → buffer ≢ []
    → length buffer < fuel
    → Written close fuel op buffer out
write_loop-IsFrames close fuel op [] out ne data_ enough = absurd (data_ refl)
write_loop-IsFrames close zero op (c ∷ cs) out ne data_ enough = absurd (omega arith)
write_loop-IsFrames close (suc fuel) op (c ∷ cs) out ne data_ enough =
    elim (List-cases (drop max_frame (c ∷ cs))) [
      | inl all_sent ↦ write_last close fuel op c cs out ne all_sent (omega arith)
      | inr (x, xs, left) ↦
          let rest_length : length (x ∷ xs) ≡ length (c ∷ cs) - max_frame =
            ap length (sym left) ∙ length-drop max_frame (c ∷ cs) in
          let first = frame_bytes (code op) (take max_frame (c ∷ cs)) in
          write_more close fuel op c cs x xs out ne left (
            write_loop-IsFrames close fuel continuation (x ∷ xs) (out ++ first) (λ e. cc e)
              (λ e. cc e) (omega (arith, rest_length)))
    ]

drop_all : (n : ℕ) (xs : Bytes) → length xs ≤ n → drop n xs ≡ []
drop_all zero [] h = refl
drop_all (suc n) [] h = refl
drop_all zero (x ∷ xs) h = absurd (omega arith)
drop_all (suc n) (x ∷ xs) h = drop_all n xs (omega arith)

abbrev Sent : (Bytes → Bytes) → OpCode → Bytes → Bytes → Type 0
Sent close op buffer out =
    (wire : Bytes) × (write accept close buffer op out ≡ some (out ++ wire))
    × IsMessage (code op) buffer wire

send_data :
    (close : Bytes → Bytes) (op : OpCode) (buffer out : Bytes)
    → op ≢ final
    → IsDataCode (code op)
    → buffer ≢ []
    → Sent close op buffer out
unfolding write
send_data close op buffer out ne kind data_ =
    let (wire, written, frames) =
      write_loop-IsFrames close (suc (length buffer)) op buffer out ne data_ (omega arith) in
    (wire, written, data_message kind frames)

send_control :
    (close : Bytes → Bytes) (op : OpCode) (buffer out : Bytes)
    → op ≢ final
    → IsControl (code op) buffer
    → length buffer ≤ 125
    → buffer ≢ []
    → Sent close op buffer out
unfolding write
send_control close op [] out ne kind short data_ = absurd (data_ refl)
send_control close op (c ∷ cs) out ne kind short data_ =
    let all_sent = drop_all max_frame (c ∷ cs) (omega arith) in
    let (wire, written, read) =
      write_single close (length (c ∷ cs)) op c cs out ne all_sent (omega arith) in
    (wire, written, control_message kind read)

-- On a connection that takes all bytes, Write sends a payload that is not empty as one message that a
-- receiver following sections 5.2, 5.4 and 5.5 of RFC 6455 reads back, with the message's code and its
-- whole payload: for text and binary as frames of which the first has the code, the others are
-- continuations and the last alone is final; for ping, pong and close, whose payload is at most 125
-- bytes and for close at least two, as one final frame.
pub write-IsMessage :
    (close : Bytes → Bytes) (op : OpCode) (buffer out : Bytes)
    → IsSendable op buffer
    → buffer ≢ []
    → (wire : Bytes) × (write accept close buffer op out ≡ some (out ++ wire))
      × IsMessage (code op) buffer wire
write-IsMessage close OpCode.text buffer out h data_ =
    send_data close OpCode.text buffer out (λ e. cc e) (inl refl) data_
write-IsMessage close OpCode.binary buffer out h data_ =
    send_data close OpCode.binary buffer out (λ e. cc e) (inr refl) data_
write-IsMessage close OpCode.close buffer out (least, short) data_ =
    send_control close OpCode.close buffer out (λ e. cc e) (close_payload least short) short data_
write-IsMessage close OpCode.ping buffer out short data_ =
    send_control close OpCode.ping buffer out (λ e. cc e) (ping_payload short) short data_
write-IsMessage close OpCode.pong buffer out short data_ =
    send_control close OpCode.pong buffer out (λ e. cc e) (pong_payload short) short data_
write-IsMessage close OpCode.continuation buffer out h data_ = absurd h
write-IsMessage close final buffer out h data_ = absurd h

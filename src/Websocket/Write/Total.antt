-- ===== src/Websocket/Write/Total.antt =====
-- src/websocket/websocketContext.cc: the rounds of the loop of WebsocketContext::Write.
use Prim.Native.Nat.{bit_or}
use rikitiki.Base.{
  ℕ, zero, suc, ◌<◌, Bool, true, false, [], ◌∷◌, Option, some, Bytes, length, take, drop, ◌≡◌, refl,
  arith, length-drop,
}
use rikitiki.Websocket.OpCode.{OpCode, code}
use rikitiki.Websocket.Write.{max_frame, size_bytes, control, write_loop, write}

abbrev pub Ends {ℓ} : {S : Type ℓ} → Option S → Type ℓ
Ends {S = S} o = (s : S) × (o ≡ some s)

after_header :
    {S : Type 0} (sent : Bool) (closed closed' : S) (next : Option S) (sent' : Bool)
    → Ends next
    → Ends (elim sent [
      | false ↦ some closed
      | true ↦ elim sent' [ false ↦ some closed' | true ↦ next ]
    ])
after_header false closed closed' next sent' done = (closed, refl)
after_header true closed closed' next false done = (closed', refl)
after_header true closed closed' next true done = done

module _ {S : Type 0} (raw_write : S → Bytes → S × Bool) (close : S → S) where
  write_loop-Ends :
      (fuel first : ℕ) (buffer : Bytes) (s : S)
      → length buffer < fuel
      → Ends (write_loop raw_write close fuel first buffer s)
  unfolding write_loop
  write_loop-Ends zero first buffer s enough = absurd (omega arith)
  write_loop-Ends (suc fuel) first [] s enough = (s, refl)
  write_loop-Ends (suc fuel) first (c ∷ cs) s enough =
      let send = take max_frame (c ∷ cs) in
      let rest = drop max_frame (c ∷ cs) in
      let first_write =
        raw_write s (bit_or first (code (control rest)) ∷ size_bytes (length send)) in
      let second_write = raw_write first_write.0 send in
      after_header first_write.1 (close first_write.0) (close second_write.0)
        (write_loop raw_write close fuel 0 rest second_write.0) second_write.1
        (write_loop-Ends fuel 0 rest second_write.0 (omega (arith, length-drop max_frame (c ∷ cs))))

  -- Write comes to an end on every connection, whatever raw_write answers: the socket has taken the
  -- buffer or is closed.
  pub write-Ends :
      (buffer : Bytes) (opcode : OpCode) (s : S) → Ends (write raw_write close buffer opcode s)
  unfolding write
  write-Ends buffer opcode s =
      write_loop-Ends (suc (length buffer)) (code opcode) buffer s (omega arith)

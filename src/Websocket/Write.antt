-- ===== src/Websocket/Write.antt =====
-- src/websocket/websocketContext.cc: WebsocketContext::Write. raw_write and the server's Close belong
-- to the connection: they are parameters, with the connection's state `S`. raw_write tells whether
-- its result was positive.
pub mod Total
use Prim.Native.Nat.{bit_or}
use rikitiki.Base.{
  ℕ, zero, suc, ◌/◌, ◌%◌, ◌^◌, ◌-◌, Bool, true, false, List, [], ◌∷◌, ◌++◌, Option, none, some, ltb,
  if◌then◌else◌, Bytes, length, take, drop,
}
use rikitiki.Websocket.OpCode.{OpCode, code, continuation, final}

-- MAX_FRAME
abbrev pub max_frame : ℕ
max_frame = 2 ^ 32 - 1

-- htons and htonll: the bytes of a number in network order.
abbrev pub network_order : ℕ → ℕ → Bytes
network_order zero n = []
network_order (suc k) n = (n / 256 ^ k) % 256 ∷ network_order k n

-- The header's bytes behind the first.
abbrev pub size_bytes : ℕ → Bytes
size_bytes n =
    if ltb n 126
    then n ∷ []
    else if ltb n (2 ^ 16)
    then 126 ∷ network_order 2 n
    else 127 ∷ network_order 8 n

abbrev pub control : Bytes → OpCode
control [] = final
control (c ∷ cs) = continuation

module _ {S : Type 0} (raw_write : S → Bytes → S × Bool) (close : S → S) where
  -- The loop of Write, with the header's first byte. `none` is the end of the fuel.
  unfoldable pub write_loop : ℕ → ℕ → Bytes → S → Option S
  write_loop zero first buffer s = none
  write_loop (suc fuel) first [] s = some s
  write_loop (suc fuel) first (c ∷ cs) s =
      let send = take max_frame (c ∷ cs) in
      let rest = drop max_frame (c ∷ cs) in
      let (s', header_sent) =
        raw_write s (bit_or first (code (control rest)) ∷ size_bytes (length send)) in
      let (s'', data_sent) = raw_write s' send in
      elim header_sent [
        | false ↦ some (close s')
        | true ↦ elim data_sent [ false ↦ some (close s'') | true ↦ write_loop fuel 0 rest s'' ]
      ]

  -- WebsocketContext::Write. A round sends at least one byte.
  unfoldable pub write : Bytes → OpCode → S → Option S
  unfolding write_loop
  write buffer opcode s = write_loop (suc (length buffer)) (code opcode) buffer s

-- ===== src/Http/Parsing/Reader.antt =====
-- src/http/Response.cc, include/rikitiki/http/parsing/BufferedReader.h: BufferedReader, which cuts
-- the incoming bytes into lines or blocks and hands them to the virtual OnBufferedData. The class
-- that implements it is a parameter: its state `S`, and a handler that may change the reader's
-- mode and expected size, and that may throw (`none`).
pub mod Fuel
pub mod Cut
pub mod Round
pub mod Split
pub mod Line
use mathlib.Core.Option
use rikitiki.Base.{
  ℕ, zero, suc, ◌+◌, ◌-◌, ◌%◌, ◌^◌, Bool, true, false, List, [], ◌∷◌, ◌++◌, Option, none, some,
  ◌==◌, leb, if◌then◌else◌, Bytes, length, take, drop,
}
use rikitiki.Http.Parsing.{BufferMode, size_max}
use rikitiki.Http.Parsing.Scan.{is_newline}

pub record Reader : Type 0 where
  pub mode : BufferMode
  pub expected_size : ℕ
  pub buffer : Bytes

-- The constructor.
unfoldable pub new_reader : Reader
new_reader = record { mode = BufferMode.newline; expected_size = size_max; buffer = [] }

-- What a call of OnData comes to.
pub data Outcome (S : Type 0) : Type 0 where
  returned : Bool → Reader → S → Outcome S
  threw : Outcome S
  out_of_fuel : Outcome S

-- strpbrk(data, "\r\n") looks up to the NUL of the text. The result counts the bytes up to and
-- with the line break: one byte, or two where another line break character follows.
abbrev pub break_size : Bytes → ℕ
break_size [] = 1
break_size (c ∷ cs) = if is_newline c then 2 else 1

unfoldable pub find_newline : Bytes → Option ℕ
find_newline [] = none
find_newline (c ∷ cs) =
    let more = Option.map suc (find_newline cs) in
    if c == 0 then none else if is_newline c then some (break_size cs) else more

-- cant_process
abbrev pub keep : {S : Type 0} → Reader → S → Bytes → Outcome S
keep r s data_ = returned false (record r { buffer = r.buffer ++ data_ }) s

-- What follows the call of OnBufferedData on the filled buffer.
abbrev pub deliver :
    {S : Type 0} → Option (Reader × S × Bool) → (Reader → S → Outcome S) → Outcome S
deliver none next = threw
deliver (some (r, s, true)) next = returned true (record r { buffer = [] }) s
deliver (some (r, s, false)) next = next (record r { buffer = [] }) s

-- case NONE
abbrev pub pass : {S : Type 0} → Option (Reader × S × Bool) → Outcome S
pass none = threw
pass (some (r, s, b)) = returned b r s

-- `expectedSize - buffer.size()` in size_t.
abbrev pub missing : Reader → ℕ
missing r = (r.expected_size + 2 ^ 64 - length r.buffer) % 2 ^ 64

module _ {S : Type 0} (on_buffered : Reader → S → Bytes → Option (Reader × S × Bool)) where
  -- case LENGTH, with the rest of the loop as `next`.
  pub length_case : Reader → S → Bytes → (Reader → S → Bytes → Outcome S) → Outcome S
  length_case r s data_ next =
      let filled = r.buffer ++ take (missing r) data_ in
      let done =
        deliver (on_buffered (record r { buffer = filled }) s filled)
          (λ r' s'. next r' s' (drop (missing r) data_)) in
      if leb (missing r) (length data_) then done else keep r s data_

  -- case NEWLINE, which goes on to case LENGTH. `after` is the memory behind the data, up to a NUL.
  pub newline_case :
      Reader → S → (data_ after : Bytes) → (Reader → S → Bytes → Outcome S) → Outcome S
  newline_case r s data_ after next = elim (find_newline (data_ ++ after)) [
    | none ↦ keep r s data_
    | some n ↦ length_case (record r { expected_size = length r.buffer + n }) s data_ next
  ]

  pub mode_case :
      BufferMode → Reader → S → (data_ after : Bytes) → (Reader → S → Bytes → Outcome S) → Outcome S
  unfolding newline_case length_case
  mode_case BufferMode.none r s data_ after next = pass (on_buffered r s data_)
  mode_case BufferMode.newline r s data_ after next = newline_case r s data_ after next
  mode_case BufferMode.length r s data_ after next = length_case r s data_ next

  -- The loop of OnData.
  pub on_data_loop : ℕ → Reader → S → (data_ after : Bytes) → Outcome S
  unfolding mode_case
  on_data_loop zero r s data_ after = out_of_fuel
  on_data_loop (suc fuel) r s [] after = keep r s []
  on_data_loop (suc fuel) r s (c ∷ cs) after =
      mode_case r.mode r s (c ∷ cs) after (λ r' s' rest. on_data_loop fuel r' s' rest after)

  -- BufferedReader::OnData. A round takes at least one byte, unless a block of length 0 was asked for.
  unfoldable pub on_data : Reader → S → (data_ after : Bytes) → Outcome S
  unfolding on_data_loop
  on_data r s data_ after = on_data_loop (suc (length data_)) r s data_ after

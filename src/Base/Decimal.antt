-- ===== src/Base/Decimal.antt =====
-- `ss << n` and `ss >> n` for a size_t, in the C locale: the decimal of a number, and reading it back.
use Prim.Native.Nat.{ℕ, zero, suc, ◌+◌, ◌-◌, ◌*◌, ◌/◌, ◌%◌, ◌^◌, ◌<◌}
use mathlib.Core.Path.{◌≡◌, refl, ◌∙◌}
use mathlib.Core.Logic.{inl, inr, ◌≢◌}
use mathlib.Core.Bool.{Bool, true, ◌&&◌}
use mathlib.Core.List.{[], ◌∷◌, ◌++◌, concat-ne-nil}
use native.Mathlib.Omega.{arith}
use rikitiki.Base.Tests.{leb, ◌==◌, if◌then◌else◌, Bool-cases, lt→leb-false}
use rikitiki.Base.Lists.{All, All-append}
use rikitiki.Base.Text.{Bytes, codes, isspace, skip_spaces}

abbrev pub is_digit : ℕ → Bool
is_digit c = leb 48 c && leb c 57

decimal_fuel : ℕ → ℕ → Bytes
decimal_fuel zero n = []
decimal_fuel (suc fuel) n =
    let more = decimal_fuel fuel (n / 10) ++ ((48 + n % 10) ∷ []) in
    if leb n 9 then (48 + n) ∷ [] else more

-- `ss << n`. A quotient by ten is smaller than its number, so `n + 1` rounds are enough.
unfoldable pub decimal : ℕ → Bytes
unfolding decimal_fuel
decimal n = decimal_fuel (suc n) n

-- The value of the digits in front, added to those read before.
abbrev pub read_digits : ℕ → Bytes → ℕ
read_digits acc [] = acc
read_digits acc (c ∷ cs) =
    let more = read_digits (acc * 10 + (c - 48)) cs in if is_digit c then more else acc

-- `ss >> n`: `old` is the value of `n` before. Only blanks leave it as it is; other text that is
-- no number sets it to 0; a number that does not fit sets it to the largest one. A minus sign
-- negates modulo 2 ^ 64.
read_unsigned : Bytes → ℕ
read_unsigned s = let n = read_digits 0 s in if leb (2 ^ 64) n then 2 ^ 64 - 1 else n

read_signed : Bytes → ℕ
unfolding read_unsigned
read_signed [] = 0
read_signed (c ∷ cs) =
    if c == b'-'
    then (if leb (2 ^ 64) (read_digits 0 cs)
        then 2 ^ 64 - 1
        else (2 ^ 64 - read_digits 0 cs) % 2 ^ 64)
    else if c == b'+'
    then read_unsigned cs
    else read_unsigned (c ∷ cs)

read_trimmed : ℕ → Bytes → ℕ
unfolding read_signed
read_trimmed old [] = old
read_trimmed old (c ∷ cs) = read_signed (c ∷ cs)

unfoldable pub read_size : ℕ → Bytes → ℕ
unfolding read_trimmed
read_size old s = read_trimmed old (skip_spaces s)

abbrev IsDigits : Bytes → Type 0
IsDigits = All (λ c. is_digit c ≡ true)

decimal_fuel-IsDigits : (fuel n : ℕ) → IsDigits (decimal_fuel fuel n)
unfolding decimal_fuel
decimal_fuel-IsDigits zero n = tt
decimal_fuel-IsDigits (suc fuel) n = elim (Bool-cases (leb n 9)) [
  | inl small ↦ rw small (ground arith, tt)
  | inr large ↦ rw large (
      All-append _ (decimal_fuel fuel (n / 10)) _ (decimal_fuel-IsDigits fuel (n / 10))
        (ground arith, tt))
]

pub decimal-IsDigits : (n : ℕ) → All (λ c. is_digit c ≡ true) (decimal n)
unfolding decimal
decimal-IsDigits n = decimal_fuel-IsDigits (suc n) n

read_digits-append :
    (acc : ℕ) (xs ys : Bytes)
    → IsDigits xs
    → read_digits acc (xs ++ ys) ≡ read_digits (read_digits acc xs) ys
read_digits-append acc [] ys h = refl
read_digits-append acc (c ∷ xs) ys (d, h) = rw d (read_digits-append (acc * 10 + (c - 48)) xs ys h)

read_digits-decimal_fuel : (fuel n : ℕ) → n < fuel → read_digits 0 (decimal_fuel fuel n) ≡ n
unfolding decimal_fuel
read_digits-decimal_fuel zero n h = elim h [ ]
read_digits-decimal_fuel (suc fuel) n h = elim (Bool-cases (leb n 9)) [
  | inl small ↦ rw small (ground arith)
  | inr large ↦ rw large (
      read_digits-append 0 (decimal_fuel fuel (n / 10)) _ (decimal_fuel-IsDigits fuel (n / 10))
      ∙ rw (read_digits-decimal_fuel fuel (n / 10) (ground arith)) (ground arith))
]

-- What a stream prints for a number it reads back, whatever text that is no digit follows.
pub read_digits-decimal : (n : ℕ) → read_digits 0 (decimal n) ≡ n
unfolding decimal
read_digits-decimal n = read_digits-decimal_fuel (suc n) n (omega arith)

pub decimal-ne-nil : (n : ℕ) → decimal n ≢ []
unfolding decimal decimal_fuel
decimal-ne-nil n = elim (Bool-cases (leb n 9)) [
  | inl small ↦ rw small (λ e. cc e)
  | inr large ↦ rw large (concat-ne-nil _ _)
]

read_size_digits : (old : ℕ) (s : Bytes) → IsDigits s → s ≢ [] → read_size old s ≡ read_unsigned s
unfolding read_size isspace
read_size_digits old [] h ne = absurd (ne refl)
read_size_digits old (c ∷ cs) h ne = ground (arith, h.0)

pub read_size-decimal : (old n : ℕ) → n < 2 ^ 64 → read_size old (decimal n) ≡ n
unfolding read_unsigned
read_size-decimal old n h =
    read_size_digits old (decimal n) (decimal-IsDigits n) (decimal-ne-nil n)
    ∙ rw (read_digits-decimal n, lt→leb-false (2 ^ 64) n h)

read_size_examples :
    (read_size 7 (codes "  42 x") ≡ 42)
    × (read_size 7 (codes " ") ≡ 7)
    × (read_size 7 (codes "x") ≡ 0)
    × (read_size 7 (codes "-1") ≡ 2 ^ 64 - 1)
unfolding read_size isspace
read_size_examples = (refl, refl, refl, refl)

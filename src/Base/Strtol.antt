-- ===== src/Base/Strtol.antt =====
-- strtol(s, &end, base) for the bases 10 and 16: blanks, a sign, the prefix 0x in base 16, digits.
-- The value is the 64-bit pattern of the long, held at its limits; with no digit it is 0 and
-- nothing is consumed.
pub mod Two
use Prim.Native.Nat.{ℕ, ◌+◌, ◌-◌, ◌*◌, ◌%◌, ◌^◌, ◌<◌}
use mathlib.Core.Path.{◌≡◌, refl}
use mathlib.Core.Bool.{Bool, true, false, ◌&&◌, ◌||◌}
use mathlib.Core.List.{[], ◌∷◌, ◌++◌}
use native.Mathlib.Omega.{arith}
use mathlib.Core.Logic.{◌≢◌}
use mathlib.Core.Path.{ap, ◌∙◌}
use rikitiki.Base.Tests.{leb, ltb, ◌==◌, if◌then◌else◌, lt→leb-false, lt→ltb}
use rikitiki.Base.Lists.{All}
use rikitiki.Base.Decimal.{
  is_digit, read_digits, decimal, decimal-IsDigits, decimal-ne-nil, read_digits-decimal,
}
use rikitiki.Base.Text.{Bytes, codes, isspace, skip_spaces}

pub record Parsed : Type 0 where
  pub value : ℕ
  pub rest : Bytes

-- The value of a digit or letter, 36 for any other byte.
abbrev pub digit_value : ℕ → ℕ
digit_value c =
    if leb 48 c && leb c 57
    then c - 48
    else if leb 65 c && leb c 90
    then c - 55
    else if leb 97 c && leb c 122
    then c - 87
    else 36

abbrev pub scan_digits : ℕ → ℕ → Bytes → Parsed
scan_digits base acc [] = record { value = acc; rest = [] }
scan_digits base acc (c ∷ cs) =
    let more = scan_digits base (acc * base + digit_value c) cs in
    if ltb (digit_value c) base then more else record { value = acc; rest = c ∷ cs }

-- The pattern of a long that is held at LONG_MAX and LONG_MIN.
abbrev pub clamp_long : Bool → ℕ → ℕ
clamp_long false n = if leb (2 ^ 63) n then 2 ^ 63 - 1 else n
clamp_long true n = if leb (2 ^ 63) n then 2 ^ 63 else (2 ^ 64 - n) % 2 ^ 64

pub starts_digit : ℕ → Bytes → Bool
starts_digit base [] = false
starts_digit base (c ∷ cs) = ltb (digit_value c) base

pub after_prefix : ℕ → Bytes → Bytes
after_prefix base (z ∷ x ∷ cs) =
    if base == 16 && z == b'0' && (x == b'x' || x == b'X') && starts_digit 16 cs
    then cs
    else z ∷ x ∷ cs
after_prefix base s = s

pub scan_number : Bytes → ℕ → Bool → Bytes → Parsed
scan_number all base negative s =
    if starts_digit base s
    then (let p = scan_digits base 0 (after_prefix base s) in
        record { value = clamp_long negative p.value; rest = p.rest })
    else record { value = 0; rest = all }

pub scan_sign : Bytes → ℕ → Bytes → Parsed
scan_sign all base [] = record { value = 0; rest = all }
scan_sign all base (c ∷ cs) =
    if c == b'-'
    then scan_number all base true cs
    else if c == b'+'
    then scan_number all base false cs
    else scan_number all base false (c ∷ cs)

unfoldable pub strtol : ℕ → Bytes → Parsed
unfolding scan_sign scan_number after_prefix starts_digit isspace
strtol base s = scan_sign s base (skip_spaces s)

abbrev parsed : ℕ → Bytes → Parsed
parsed n s = record { value = n; rest = s }

strtol_examples :
    (strtol 10 (codes " 200 OK") ≡ parsed 200 (codes " OK"))
    × (strtol 16 (codes "1f;x") ≡ parsed 31 (codes ";x"))
    × (strtol 16 (codes "0x2Ag") ≡ parsed 42 (codes "g"))
    × (strtol 10 (codes "x") ≡ parsed 0 (codes "x"))
    × (strtol 10 (codes "-1") ≡ parsed (2 ^ 64 - 1) [])
unfolding strtol
strtol_examples = (refl, refl, refl, refl, refl)

-- Text that ends a decimal number.
abbrev pub ends_number : Bytes → Bool
ends_number [] = true
ends_number (c ∷ cs) = if ltb (digit_value c) 10 then false else true

scan_digits-digits :
    (acc : ℕ) (xs rest : Bytes)
    → All (λ c. is_digit c ≡ true) xs
    → ends_number rest ≡ true
    → scan_digits 10 acc (xs ++ rest) ≡ record { value = read_digits acc xs; rest = rest }
scan_digits-digits acc [] [] h e = refl
scan_digits-digits acc [] (c ∷ rest) h e = ground arith
scan_digits-digits acc (c ∷ xs) rest (d, h) e =
    ground (arith, scan_digits-digits (acc * 10 + (c - 48)) xs rest h e)

after_prefix_ten : (s : Bytes) → after_prefix 10 s ≡ s
unfolding after_prefix
after_prefix_ten [] = refl
after_prefix_ten (z ∷ []) = refl
after_prefix_ten (z ∷ x ∷ cs) = refl

scan_number_digit :
    (all : Bytes) (c : ℕ) (cs : Bytes)
    → is_digit c ≡ true
    → scan_number all 10 false (c ∷ cs) ≡ record {
      value = clamp_long false (scan_digits 10 0 (c ∷ cs)).value;
      rest = (scan_digits 10 0 (c ∷ cs)).rest;
    }
scan_number_digit all c cs d =
    let head : starts_digit 10 (c ∷ cs) ≡ true = (unfold starts_digit in ground arith) in
    let body : scan_number all 10 false (c ∷ cs) ≡ record {
      value = clamp_long false (scan_digits 10 0 (after_prefix 10 (c ∷ cs))).value;
      rest = (scan_digits 10 0 (after_prefix 10 (c ∷ cs))).rest;
    } =
      unfold scan_number in rw head in
    body ∙ rw (after_prefix_ten (c ∷ cs))

scan_sign_digit :
    (all : Bytes) (c : ℕ) (cs : Bytes)
    → is_digit c ≡ true
    → scan_sign all 10 (c ∷ cs) ≡ scan_number all 10 false (c ∷ cs)
unfolding scan_sign
scan_sign_digit all c cs d = ground arith

strtol_digit :
    (c : ℕ) (cs : Bytes)
    → is_digit c ≡ true
    → strtol 10 (c ∷ cs) ≡ scan_number (c ∷ cs) 10 false (c ∷ cs)
strtol_digit c cs d =
    let here : skip_spaces (c ∷ cs) ≡ c ∷ cs = (unfold isspace in ground arith) in
    let start : strtol 10 (c ∷ cs) ≡ scan_sign (c ∷ cs) 10 (c ∷ cs) =
      unfold strtol in ap (λ s. scan_sign (c ∷ cs) 10 s) here in
    start ∙ scan_sign_digit (c ∷ cs) c cs d

strtol_digits :
    (xs rest : Bytes)
    → All (λ c. is_digit c ≡ true) xs
    → xs ≢ []
    → ends_number rest ≡ true
    → strtol 10 (xs ++ rest) ≡ record { value = clamp_long false (read_digits 0 xs); rest = rest }
strtol_digits [] rest h ne e = absurd (ne refl)
strtol_digits (c ∷ xs) rest h ne e =
    strtol_digit c (xs ++ rest) h.0
    ∙ scan_number_digit (c ∷ (xs ++ rest)) c (xs ++ rest) h.0
    ∙ ap (λ (p : Parsed). record { value = clamp_long false p.value; rest = p.rest })
        (scan_digits-digits 0 (c ∷ xs) rest h e)

-- strtol reads back the decimal of a number that a long holds, and stops behind it.
pub strtol-decimal :
    (n : ℕ) (rest : Bytes)
    → n < 2 ^ 63
    → ends_number rest ≡ true
    → strtol 10 (decimal n ++ rest) ≡ record { value = n; rest = rest }
strtol-decimal n rest small e =
    strtol_digits (decimal n) rest (decimal-IsDigits n) (decimal-ne-nil n) e
    ∙ rw (read_digits-decimal n, lt→leb-false (2 ^ 63) n small)

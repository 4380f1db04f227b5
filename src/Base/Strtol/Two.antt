-- ===== src/Base/Strtol/Two.antt =====
-- strtol on two hexadecimal digits.
use Prim.Native.Nat.{ℕ, ◌+◌, ◌-◌, ◌*◌, ◌^◌, ◌<◌}
use mathlib.Core.Path.{◌≡◌}
use mathlib.Core.Bool.{true, false}
use mathlib.Core.List.{[], ◌∷◌}
use native.Mathlib.Omega.{arith}
use mathlib.Core.Path.{ap, ◌∙◌}
use rikitiki.Base.Tests.{ltb, if◌then◌else◌, lt→leb-false, lt→ltb}
use rikitiki.Base.Text.{Bytes, isspace, skip_spaces}
use rikitiki.Base.Strtol.{
  Parsed, digit_value, scan_digits, clamp_long, starts_digit, after_prefix, scan_number, scan_sign,
  strtol,
}

digit_above : (c : ℕ) → digit_value c < 16 → 47 < c
digit_above c h = ground arith

skip_spaces_above : (c : ℕ) (s : Bytes) → 47 < c → skip_spaces (c ∷ s) ≡ c ∷ s
skip_spaces_above c s h = unfold isspace in ground arith

scan_sign_above :
    (all : Bytes) (c : ℕ) (s : Bytes)
    → 47 < c
    → scan_sign all 16 (c ∷ s) ≡ scan_number all 16 false (c ∷ s)
unfolding scan_sign
scan_sign_above all c s h = ground arith

strtol_hex :
    (c : ℕ) (s : Bytes)
    → digit_value c < 16
    → strtol 16 (c ∷ s) ≡ scan_number (c ∷ s) 16 false (c ∷ s)
strtol_hex c s h =
    let above = digit_above c h in
    let start : strtol 16 (c ∷ s) ≡ scan_sign (c ∷ s) 16 (c ∷ s) =
      unfold strtol in ap (λ t. scan_sign (c ∷ s) 16 t) (skip_spaces_above c s above) in
    start ∙ scan_sign_above (c ∷ s) c s above

-- With no digit behind it, 0x is no prefix.
after_prefix_two : (a b : ℕ) → after_prefix 16 (a ∷ b ∷ []) ≡ a ∷ b ∷ []
unfolding after_prefix starts_digit
after_prefix_two a b = ground arith

scan_digits_two :
    (a b : ℕ)
    → digit_value a < 16
    → digit_value b < 16
    → scan_digits 16 0 (a ∷ b ∷ [])
      ≡ record { value = digit_value a * 16 + digit_value b; rest = [] }
scan_digits_two a b ha hb =
    let first : ltb (digit_value a) 16 ≡ true = lt→ltb (digit_value a) 16 ha in
    let second : ltb (digit_value b) 16 ≡ true = lt→ltb (digit_value b) 16 hb in
    ap
      (λ t.
        if t
        then scan_digits 16 (0 * 16 + digit_value a) (b ∷ [])
        else record { value = 0; rest = a ∷ b ∷ [] })
      first
    ∙ ap
        (λ t.
          if t
          then record { value = (0 * 16 + digit_value a) * 16 + digit_value b; rest = [] }
          else record { value = 0 * 16 + digit_value a; rest = b ∷ [] })
        second
    ∙ ap (λ n. record { value = n; rest = [] }) (omega arith)

scan_number_two :
    (all : Bytes) (a b : ℕ)
    → digit_value a < 16
    → digit_value b < 16
    → scan_number all 16 false (a ∷ b ∷ [])
      ≡ record { value = digit_value a * 16 + digit_value b; rest = [] }
scan_number_two all a b ha hb =
    let head : starts_digit 16 (a ∷ b ∷ []) ≡ true =
      (unfold starts_digit in lt→ltb (digit_value a) 16 ha) in
    let digits = ap (scan_digits 16 0) (after_prefix_two a b) ∙ scan_digits_two a b ha hb in
    let small : digit_value a * 16 + digit_value b < 2 ^ 63 = omega arith in
    let body : scan_number all 16 false (a ∷ b ∷ []) ≡ record {
      value = clamp_long false (scan_digits 16 0 (after_prefix 16 (a ∷ b ∷ []))).value;
      rest = (scan_digits 16 0 (after_prefix 16 (a ∷ b ∷ []))).rest;
    } =
      unfold scan_number in rw head in
    body
    ∙ ap (λ (p : Parsed). record { value = clamp_long false p.value; rest = p.rest }) digits
    ∙ ap
        (λ t. record {
          value = if t then 2 ^ 63 - 1 else digit_value a * 16 + digit_value b;
          rest = [];
        })
        (lt→leb-false (2 ^ 63) (digit_value a * 16 + digit_value b) small)

-- Two hexadecimal digits.
pub strtol-two :
    (a b : ℕ)
    → digit_value a < 16
    → digit_value b < 16
    → strtol 16 (a ∷ b ∷ []) ≡ record { value = digit_value a * 16 + digit_value b; rest = [] }
strtol-two a b ha hb = strtol_hex a (b ∷ []) ha ∙ scan_number_two (a ∷ b ∷ []) a b ha hb

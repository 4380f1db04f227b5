-- ===== src/Contents/Escape.antt =====
-- src/connContext.cc: unescapeString and the encoding of forms, application/x-www-form-urlencoded.
use rikitiki.Base.Strtol.{digit_value}
use rikitiki.Base.Strtol.Two.{strtol-two}
use rikitiki.Base.{
  ℕ, ◌+◌, ◌*◌, ◌/◌, ◌%◌, ◌<◌, Bool, ◌&&◌, ◌||◌, [], ◌∷◌, ◌++◌, ◌==◌, leb, ltb, if◌then◌else◌, Bytes,
  ◌≡◌, ◌≢◌, refl, ap, ◌∙◌, arith, All, ne→==, Bool-cases, inl, inr,
}
use rikitiki.Contents.{unescape_text, plus_to_space}

abbrev pub hex_digit : ℕ → ℕ
hex_digit d = if ltb d 10 then 48 + d else 55 + d

-- Letters, digits and * - . _ stand for themselves.
abbrev pub is_plain : ℕ → Bool
is_plain c =
    (leb 48 c && leb c 57)
    || (leb 65 c && leb c 90)
    || (leb 97 c && leb c 122)
    || c == b'*'
    || c == b'-'
    || c == b'.'
    || c == b'_'

abbrev pub escaped : ℕ → Bytes
escaped c =
    if is_plain c
    then c ∷ []
    else if c == 32
    then b'+' ∷ []
    else b'%' ∷ hex_digit (c / 16) ∷ hex_digit (c % 16) ∷ []

abbrev pub escape : Bytes → Bytes
escape [] = []
escape (c ∷ cs) = escaped c ++ escape cs

unescape_plain : (c : ℕ) (s : Bytes) → c ≢ b'%' → unescape_text (c ∷ s) ≡ c ∷ unescape_text s
unfolding unescape_text
unescape_plain c [] ne = refl
unescape_plain c (a ∷ []) ne = refl
unescape_plain c (a ∷ b ∷ s) ne = rw (ne→== c 37 ne) refl

hex_digit-value :
    (d : ℕ) → d < 16 → (digit_value (hex_digit d) ≡ d) × (hex_digit d ≢ 0) × (hex_digit d ≢ b'+')
hex_digit-value d h = (ground arith, ground arith, ground arith)

unescape_hex :
    (c : ℕ) (s : Bytes)
    → c < 256
    → unescape_text (b'%' ∷ hex_digit (c / 16) ∷ hex_digit (c % 16) ∷ s) ≡ c ∷ unescape_text s
unfolding unescape_text
unescape_hex c s h =
    let (high, high_text, _) = hex_digit-value (c / 16) (omega arith) in
    let (low, low_text, _) = hex_digit-value (c % 16) (omega arith) in
    let whole : (c / 16 * 16 + c % 16) % 256 ≡ c = omega arith in
    let read =
      strtol-two (hex_digit (c / 16)) (hex_digit (c % 16)) (rw high (omega arith))
        (rw low (omega arith)) in
    rw
      (
        ne→== (hex_digit (c / 16)) 0 high_text,
        ne→== (hex_digit (c % 16)) 0 low_text,
        read,
        high,
        low,
        whole,
      )
      refl

-- One byte's encoding, with its `+` turned into a blank.
unescape_byte :
    (c : ℕ) (s : Bytes)
    → c < 256
    → unescape_text (plus_to_space (escaped c) ++ s) ≡ c ∷ unescape_text s
unescape_byte c s h = elim (Bool-cases (is_plain c)) [
  | inl plain ↦
      let ordinary : (c ≢ 43) × (c ≢ 37) = (ground arith, ground arith) in
      rw (plain, ne→== c 43 ordinary.0) (unescape_plain c s ordinary.1)
  | inr other ↦ elim (Bool-cases (c == 32)) [
    | inl space ↦
        let same : 32 ≡ c = ground (arith, space) in
        rw (other, space) (unescape_plain 32 s (omega arith) ∙ ap (λ t. t ∷ unescape_text s) same)
    | inr coded ↦
        let (_, _, high) = hex_digit-value (c / 16) (omega arith) in
        let (_, _, low) = hex_digit-value (c % 16) (omega arith) in
        rw (other, coded, ne→== (hex_digit (c / 16)) 43 high, ne→== (hex_digit (c % 16)) 43 low)
          (unescape_hex c s h)
  ]
]

pub plus_to_space-append :
    (a b : Bytes) → plus_to_space (a ++ b) ≡ plus_to_space a ++ plus_to_space b
plus_to_space-append [] b = refl
plus_to_space-append (c ∷ a) b = ap (◌∷◌ (if c == b'+' then b' ' else c)) (plus_to_space-append a b)

-- Unescaping the form encoding of a text, its `+` already turned into blanks, gives the text back,
-- whatever its bytes are.
pub unescape_text-escape :
    (s : Bytes) → All (λ c. c < 256) s → unescape_text (plus_to_space (escape s)) ≡ s
unescape_text-escape [] h = unfold unescape_text in refl
unescape_text-escape (c ∷ s) (small, h) =
    ap unescape_text (plus_to_space-append (escaped c) (escape s))
    ∙ unescape_byte c (plus_to_space (escape s)) small
    ∙ ap (◌∷◌ c) (unescape_text-escape s h)

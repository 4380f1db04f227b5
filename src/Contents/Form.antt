-- ===== src/Contents/Form.antt =====
-- src/connContext.cc: mapContents on the contents of a form.
use mathlib.Core.List.{foldl}
use rikitiki.Base.{
  ℕ, ◌/◌, ◌%◌, ◌<◌, true, false, ◌||◌, List, [], ◌∷◌, ◌++◌, some, ◌==◌, if◌then◌else◌, Bytes, ◌≡◌,
  ◌≢◌, refl, sym, ap, ◌∙◌, arith, All, All-append, ne→==, Bool-cases, inl, inr, append_assoc,
  append-nil,
}
use rikitiki.Contents.{
  PostCollection, insert, unescape_text, unescape_string, Mapping, map_step, map_loop,
  ends_ampersand, plus_to_space, map_contents,
}
use rikitiki.Contents.Escape.{
  escape, escaped, is_plain, hex_digit, unescape_text-escape, plus_to_space-append,
}

-- The contents of a form in the encoding application/x-www-form-urlencoded: names and values escaped, each
-- pair with its `&`, and without the last one.
abbrev pub ended : List (Bytes × Bytes) → Bytes
ended [] = []
ended ((k, v) ∷ ps) = escape k ++ (b'=' ∷ (escape v ++ (b'&' ∷ ended ps)))

abbrev pub more_fields : List (Bytes × Bytes) → Bytes
more_fields [] = []
more_fields ((k, v) ∷ ps) = b'&' ∷ (escape k ++ (b'=' ∷ (escape v ++ more_fields ps)))

abbrev pub form_of : List (Bytes × Bytes) → Bytes
form_of [] = []
form_of ((k, v) ∷ ps) = escape k ++ (b'=' ∷ (escape v ++ more_fields ps))

-- A name in which nothing is written with a percent sign.
abbrev pub IsName : Bytes → Type 0
IsName = All (λ c. (is_plain c || c == 32) ≡ true)

abbrev pub IsField : Bytes × Bytes → Type 0
IsField (k, v) = IsName k × All (λ c. c < 256) v × (v ≢ [])

abbrev IsText : Bytes → Type 0
IsText = All (λ c. (c ≢ b'=') × (c ≢ b'&'))

loop_step :
    (m m' : Mapping) (c : ℕ) (rest : Bytes)
    → map_step m c ≡ some m'
    → map_loop m (c ∷ rest) ≡ map_loop m' rest
unfolding map_loop
loop_step m m' c rest h = rw (map_loop, h) refl

step_text :
    (m : Mapping) (c : ℕ)
    → c ≢ b'='
    → c ≢ b'&'
    → map_step m c ≡ some (record m { segment = m.segment ++ c ∷ [] })
unfolding map_step
step_text m c eq amp = rw (ne→== c 61 eq, ne→== c 38 amp) refl

step_value :
    (m : Mapping) (v : Bytes)
    → unescape_string m.segment ≡ some v
    → map_step m b'&' ≡ some (record m { segment = []; post = insert (m.name, v) m.post })
unfolding map_step
step_value m v h = rw h refl

loop_text :
    (m : Mapping) (x rest : Bytes)
    → IsText x
    → map_loop m (x ++ rest) ≡ map_loop (record m { segment = m.segment ++ x }) rest
loop_text m [] rest h =
    ap (λ t. map_loop (record m { segment = t }) rest) (sym (append-nil m.segment))
loop_text m (c ∷ x) rest ((eq, amp), h) =
    loop_step m _ c (x ++ rest) (step_text m c eq amp)
    ∙ loop_text (record m { segment = m.segment ++ c ∷ [] }) x rest h
    ∙ ap (λ t. map_loop (record m { segment = t }) rest) (append_assoc m.segment (c ∷ []) x)

hex_digit-IsText : (d : ℕ) → d < 16 → (hex_digit d ≢ 61) × (hex_digit d ≢ 38)
hex_digit-IsText d h = (ground arith, ground arith)

plus_IsText :
    (d : ℕ)
    → d ≢ 61
    → d ≢ 38
    → ((if d == 43 then 32 else d) ≢ 61) × ((if d == 43 then 32 else d) ≢ 38)
plus_IsText d eq amp = (ground arith, ground arith)

plus-escaped : (c : ℕ) → c < 256 → IsText (plus_to_space (escaped c))
plus-escaped c h = elim (Bool-cases (is_plain c)) [
  | inl plain ↦ rw plain ((ground arith, ground arith), tt)
  | inr other ↦ elim (Bool-cases (c == 32)) [
    | inl space ↦ rw (other, space) (omega arith)
    | inr coded ↦
        let high = hex_digit-IsText (c / 16) (omega arith) in
        let low = hex_digit-IsText (c % 16) (omega arith) in
        rw (other, coded)
          (
            (omega arith, omega arith),
            (plus_IsText _ high.0 high.1, (plus_IsText _ low.0 low.1, tt)),
          )
  ]
]

plus-escape : (v : Bytes) → All (λ c. c < 256) v → IsText (plus_to_space (escape v))
plus-escape [] h = tt
plus-escape (c ∷ v) (small, h) =
    rw (plus_to_space-append (escaped c) (escape v))
      (All-append _ (plus_to_space (escaped c)) _ (plus-escaped c small) (plus-escape v h))

unescape_string-text :
    (v : Bytes) (x : Bytes) → unescape_text x ≡ v → v ≢ [] → unescape_string x ≡ some v
unfolding unescape_string
unescape_string-text v [] h ne = absurd (ne (sym h ∙ (unfold unescape_text in refl)))
unescape_string-text v (c ∷ x) h ne = ap some h

plus_byte : (c : ℕ) → (is_plain c || c == 32) ≡ true → plus_to_space (escaped c) ≡ c ∷ []
plus_byte c h = elim (Bool-cases (is_plain c)) [
  | inl plain ↦ rw (plain, ne→== c 43 (ground arith)) refl
  | inr other ↦
      let blank : (c == 32) ≡ true = ground (arith, h, other) in
      let same : 32 ≡ c = ground (arith, blank) in rw (other, blank) (ap (λ t. t ∷ []) same)
]

name_byte : (c : ℕ) → (is_plain c || c == 32) ≡ true → (c ≢ b'=') × (c ≢ b'&')
name_byte c h = (ground arith, ground arith)

plus_name : (k : Bytes) → IsName k → (plus_to_space (escape k) ≡ k) × IsText k
plus_name [] h = (refl, tt)
plus_name (c ∷ k) (byte, h) =
    let (same, text) = plus_name k h in
    (
      plus_to_space-append (escaped c) (escape k) ∙ rw (plus_byte c byte, same) refl,
      (name_byte c byte, text),
    )

-- One pair from its start to its `&`.
loop_field :
    (k v rest n : Bytes) (post : PostCollection)
    → IsField (k, v)
    → map_loop
        (record { segment = []; name = n; post = post })
        (plus_to_space (escape k ++ (b'=' ∷ (escape v ++ (b'&' ∷ rest)))))
      ≡ map_loop (record { segment = []; name = k; post = insert (k, v) post }) (plus_to_space rest)
loop_field k v rest n post (name, value, ne) =
    let (same, name_text) = plus_name k name in
    let coded = plus_to_space (escape v) in
    let behind = b'&' ∷ plus_to_space rest in
    let start : Mapping = record { segment = []; name = n; post = post } in
    let named : Mapping = record { segment = []; name = k; post = post } in
    let decoded = unescape_string-text v coded (unescape_text-escape v value) ne in
    ap (map_loop start) (
      plus_to_space-append (escape k) (b'=' ∷ (escape v ++ (b'&' ∷ rest)))
      ∙ ap (λ t. t ++ plus_to_space (b'=' ∷ (escape v ++ (b'&' ∷ rest)))) same
      ∙ ap (λ t. k ++ (b'=' ∷ t)) (plus_to_space-append (escape v) (b'&' ∷ rest)))
    ∙ loop_text start k (b'=' ∷ (coded ++ behind)) name_text
    ∙ loop_step (record start { segment = k }) named b'=' (coded ++ behind)
        (unfold map_step in refl)
    ∙ loop_text named coded behind (plus-escape v value)
    ∙ loop_step (record named { segment = coded }) _ b'&' (plus_to_space rest)
        (step_value (record named { segment = coded }) v decoded)

loop_fields :
    (ps : List (Bytes × Bytes)) (n : Bytes) (post : PostCollection)
    → All IsField ps
    → map_loop (record { segment = []; name = n; post = post }) (plus_to_space (ended ps))
      ≡ some (foldl (λ m p. insert p m) post ps)
loop_fields [] n post h = unfold map_loop in refl
loop_fields ((k, v) ∷ ps) n post (field, h) =
    loop_field k v (ended ps) n post field ∙ loop_fields ps k (insert (k, v) post) h

ends_ampersand-append :
    (a b : Bytes) (c : ℕ) → ends_ampersand (a ++ (c ∷ b)) ≡ ends_ampersand (c ∷ b)
ends_ampersand-append [] b c = refl
ends_ampersand-append (x ∷ []) b c = refl
ends_ampersand-append (x ∷ y ∷ a) b c = ends_ampersand-append (y ∷ a) b c

ended_field :
    (k v : Bytes) (ps : List (Bytes × Bytes))
    → more_fields ps ++ b'&' ∷ [] ≡ b'&' ∷ ended ps
    → (k ++ (b'=' ∷ (escape v ++ more_fields ps))) ++ b'&' ∷ []
      ≡ k ++ (b'=' ∷ (escape v ++ (b'&' ∷ ended ps)))
ended_field k v ps h =
    append_assoc k (b'=' ∷ (escape v ++ more_fields ps)) (b'&' ∷ [])
    ∙ ap (λ t. k ++ (b'=' ∷ t))
        (append_assoc (escape v) (more_fields ps) (b'&' ∷ []) ∙ ap (λ t. escape v ++ t) h)

more_ended : (ps : List (Bytes × Bytes)) → more_fields ps ++ b'&' ∷ [] ≡ b'&' ∷ ended ps
more_ended [] = refl
more_ended ((k, v) ∷ ps) = ap (◌∷◌ b'&') (ended_field (escape k) v ps (more_ended ps))

ends_ampersand-text : (s : Bytes) → IsText (plus_to_space s) → ends_ampersand s ≡ false
ends_ampersand-text [] h = refl
ends_ampersand-text (c ∷ []) (h, k) = ground arith
ends_ampersand-text (c ∷ d ∷ s) (h, k) = ends_ampersand-text (d ∷ s) k

ends_equals : (s : Bytes) → IsText (plus_to_space s) → ends_ampersand (b'=' ∷ s) ≡ false
ends_equals [] h = refl
ends_equals (c ∷ s) h = ends_ampersand-text (c ∷ s) h

append_equals : (a b : Bytes) → (a ++ (b'=' ∷ b)) ≢ []
append_equals [] b = λ e. cc e
append_equals (c ∷ a) b = λ e. cc e

map_contents_text :
    (s t : Bytes) (post : PostCollection)
    → s ≢ []
    → ends_ampersand s ≡ false
    → s ++ b'&' ∷ [] ≡ t
    → map_contents s post
      ≡ map_loop (record { segment = []; name = []; post = post }) (plus_to_space t)
unfolding map_contents
map_contents_text [] t post ne h e = absurd (ne refl)
map_contents_text (c ∷ s) t post ne h e =
    ap
      (λ b.
        map_loop (record { segment = []; name = []; post = post })
          (plus_to_space (if b then c ∷ s else (c ∷ s) ++ b'&' ∷ [])))
      h
    ∙ ap (λ x. map_loop (record { segment = []; name = []; post = post }) (plus_to_space x)) e

ends_ampersand-field :
    (a v : Bytes) (ps : List (Bytes × Bytes))
    → All (λ c. c < 256) v
    → All IsField ps
    → ends_ampersand (a ++ (b'=' ∷ (escape v ++ more_fields ps))) ≡ false
ends_ampersand-field a v [] h fields =
    ends_ampersand-append a (escape v ++ []) b'='
    ∙ ap (λ t. ends_ampersand (b'=' ∷ t)) (append-nil (escape v))
    ∙ ends_equals (escape v) (plus-escape v h)
ends_ampersand-field a v ((k, w) ∷ ps) h ((name, value, ne), fields) =
    ends_ampersand-append a (escape v ++ more_fields ((k, w) ∷ ps)) b'='
    ∙ ap (λ t. ends_ampersand (b'=' ∷ t))
        (sym (append_assoc (escape v) (b'&' ∷ escape k) (b'=' ∷ (escape w ++ more_fields ps))))
    ∙ ends_ampersand-field (b'=' ∷ (escape v ++ (b'&' ∷ escape k))) w ps value fields

-- The contents of a form, its names and values in the encoding application/x-www-form-urlencoded, are
-- mapped to the names and values, each inserted in turn. There is at least one pair; a value is bytes, at
-- least one, and a name, which the code does not unescape, is letters, digits, blanks and * - . _ only.
pub map_contents-form_of :
    (p : Bytes × Bytes) (ps : List (Bytes × Bytes)) (post : PostCollection)
    → All IsField (p ∷ ps)
    → map_contents (form_of (p ∷ ps)) post ≡ some (foldl (λ m p. insert p m) post (p ∷ ps))
map_contents-form_of (k, v) ps post ((name, value, ne), fields) =
    map_contents_text (form_of ((k, v) ∷ ps)) (ended ((k, v) ∷ ps)) post
      (append_equals (escape k) (escape v ++ more_fields ps))
      (ends_ampersand-field (escape k) v ps value fields)
      (ended_field (escape k) v ps (more_ended ps))
    ∙ loop_fields ((k, v) ∷ ps) [] post ((name, value, ne), fields)

-- ===== src/Http/ContentType/Names.antt =====
-- src/http/content_types.cc: FromString on the names of content types.
use rikitiki.Base.StringMap.{StringMap, lookup, insert, get_or, lookup-insert, get_or_found}
use rikitiki.Base.{
  List, [], ◌∷◌, some, ◌≡◌, ◌≢◌, refl, ap, ◌∙◌, Bytes, equal, false, Bool-cases, inl, inr,
  equal_iff,
}
use rikitiki.Http.ContentType.{
  ContentType, default, max, to_string, fill, filled, members, from_string,
}

abbrev pub IsMember : ContentType → Type 0
IsMember t = (t ≢ default) × (t ≢ max)

lookup-fill : (t : ContentType) → IsMember t → lookup (to_string t) (fill members []) ≡ some t
unfolding lookup fill insert equal
lookup-fill default h = absurd (h.0 refl)
lookup-fill max h = absurd (h.1 refl)
lookup-fill _ h = refl

named : (t : ContentType) → IsMember t → equal (to_string t) [] ≡ false
unfolding to_string equal
named default h = absurd (h.0 refl)
named max h = absurd (h.1 refl)
named _ h = refl

-- Every member's name leads to it.
IsFilled : StringMap ContentType → Type 0
IsFilled types = (t : ContentType) → IsMember t → lookup (to_string t) types ≡ some t

-- The map is still empty, or it has been filled.
IsTypes : StringMap ContentType → Type 0
IsTypes [] = Unit
IsTypes (e ∷ types) = IsFilled (e ∷ types)

filled-IsFilled : (types : StringMap ContentType) → IsTypes types → IsFilled (filled types)
unfolding IsTypes IsFilled filled
filled-IsFilled [] h = lookup-fill
filled-IsFilled (e ∷ types) h = h

IsFilled-IsTypes : (types : StringMap ContentType) → IsFilled types → IsTypes types
unfolding IsTypes
IsFilled-IsTypes [] h = tt
IsFilled-IsTypes (e ∷ types) h = h

-- Looking a name up, which adds it, changes no other name's type.
lookup-found :
    (j k : Bytes) (t d : ContentType) (types : StringMap ContentType)
    → lookup j types ≡ some t
    → lookup j (insert k (get_or k d types) types) ≡ some t
lookup-found j k t d types h =
    lookup-insert j k (get_or k d types) types ∙ elim (Bool-cases (equal j k)) [
      | inl same ↦
          let e : j ≡ k = (equal_iff j k).0 same in
          rw (same, ← e) (ap some (get_or_found j d types h))
      | inr differs ↦ rw differs h
    ]

from_string-IsTypes :
    (s : Bytes) (types : StringMap ContentType) → IsTypes types → IsTypes (from_string s types).1
unfolding from_string IsFilled
from_string-IsTypes s types h = elim (Bool-cases (equal s [])) [
  | inl empty ↦ rw empty h
  | inr named ↦ rw named (
      IsFilled-IsTypes _ (λ t member.
        lookup-found (to_string t) s t _ (filled types) (filled-IsFilled types h t member)))
]

-- The map after FromString was called on each of the names, the last one first.
pub types_after : List Bytes → StringMap ContentType
types_after [] = []
types_after (s ∷ ss) = (from_string s (types_after ss)).1

types_after-IsTypes : (ss : List Bytes) → IsTypes (types_after ss)
unfolding types_after IsTypes
types_after-IsTypes [] = tt
types_after-IsTypes (s ∷ ss) = from_string-IsTypes s (types_after ss) (types_after-IsTypes ss)

-- Whatever names have been read before, known or not, the name of every type but DEFAULT and MAX is
-- read as that type.
pub from_string-types_after :
    (t : ContentType) (ss : List Bytes)
    → IsMember t
    → (from_string (to_string t) (types_after ss)).0 ≡ t
unfolding from_string IsFilled
from_string-types_after t ss member =
    let h = filled-IsFilled (types_after ss) (types_after-IsTypes ss) t member in
    rw (named t member) (get_or_found (to_string t) _ (filled (types_after ss)) h)

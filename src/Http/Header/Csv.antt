-- ===== src/Http/Header/Csv.antt =====
-- src/http/Header.cc, include/rikitiki/http/Header.h: GetList on values that Add has joined.
use rikitiki.Base.StringMap.{lookup, get_or, get_or_missing, get_or_found}
use rikitiki.Base.{
  ℕ, Bool, true, false, List, [], ◌∷◌, ◌++◌, Option, none, some, ◌≡◌, ◌≢◌, refl, sym, ap, ◌∙◌, ◌==◌,
  inl, inr, Bytes, codes, c_str, equal_refl, All, append-nil, append_assoc, Bool-cases, ne→==,
}
use rikitiki.Http.Header.{
  HeaderCollection, add, joined, lookup-add, get_list, get_list_from, all_blank, trim_end, field_of,
}

-- Adding the values of a list, one after the other.
abbrev pub add_all : Bytes → List Bytes → HeaderCollection → HeaderCollection
add_all name [] m = m
add_all name (v ∷ vs) m = add_all name vs (add name v m)

-- What stands behind the first value.
abbrev pub tail_text : List Bytes → Bytes
tail_text [] = []
tail_text (v ∷ vs) = codes ", " ++ (v ++ tail_text vs)

pub append_ne : (xs ys : Bytes) → xs ≢ [] → (xs ++ ys) ≢ []
append_ne [] ys ne = absurd (ne refl)
append_ne (x ∷ xs) ys ne = λ e. cc e

pub lookup-add_self :
    (name v : Bytes) (m : HeaderCollection)
    → lookup name (add name v m) ≡ some (joined (get_or name [] m) v)
lookup-add_self name v m = lookup-add name name v m ∙ rw (equal_refl name)

pub joined_text : (old v : Bytes) → old ≢ [] → joined old v ≡ old ++ (codes ", " ++ v)
joined_text [] v ne = absurd (ne refl)
joined_text (c ∷ cs) v ne = refl

lookup-add_all :
    (name old : Bytes) (vs : List Bytes) (m : HeaderCollection)
    → lookup name m ≡ some old
    → old ≢ []
    → lookup name (add_all name vs m) ≡ some (old ++ tail_text vs)
lookup-add_all name old [] m h ne = rw append-nil h
lookup-add_all name old (v ∷ vs) m h ne =
    let e : lookup name (add name v m) ≡ some (old ++ (codes ", " ++ v)) =
      lookup-add_self name v m ∙ ap some (rw (get_or_found name [] m h) (joined_text old v ne)) in
    lookup-add_all name (old ++ (codes ", " ++ v)) vs (add name v m) e
      (append_ne old (codes ", " ++ v) ne)
    ∙ ap some (append_assoc old (codes ", " ++ v) (tail_text vs))

lookup-add_all_fresh :
    (name v : Bytes) (vs : List Bytes) (m : HeaderCollection)
    → lookup name m ≡ none
    → v ≢ []
    → lookup name (add_all name (v ∷ vs) m) ≡ some (v ++ tail_text vs)
lookup-add_all_fresh name v vs m h ne =
    lookup-add_all name v vs (add name v m)
      (lookup-add_self name v m ∙ ap some (rw (get_or_missing name [] m h))) ne

-- Text of an entry: no comma and no NUL.
abbrev pub IsPlain : Bytes → Type 0
IsPlain = All (λ c. (c ≢ b',') × (c ≢ 0))

-- An entry that a list can hold: not empty, plain, and with no blank at either end.
abbrev pub first_blank : Bytes → Bool
first_blank [] = true
first_blank (c ∷ cs) = c == 32

abbrev pub IsEntry : Bytes → Type 0
IsEntry v = IsPlain v × (first_blank v ≡ false) × (trim_end v ≡ v) × (v ≢ [])

from_plain :
    (prev : Option ℕ) (v field rest : Bytes)
    → IsPlain v
    → get_list_from false prev field (v ++ rest) ≡ get_list_from false prev (field ++ v) rest
unfolding get_list_from
from_plain prev [] field rest h = rw append-nil
from_plain prev (c ∷ v) field rest ((comma, nul), h) =
    rw (ne→== c 44 comma) (from_plain prev v (field ++ c ∷ []) rest h ∙ rw append_assoc)

-- A whole entry is read from its start, blanks before it being skipped.
from_entry :
    (skipping : Bool) (prev : Option ℕ) (v rest : Bytes)
    → IsEntry v
    → get_list_from skipping prev [] (v ++ rest) ≡ get_list_from false prev v rest
unfolding get_list_from
from_entry skipping prev [] rest h = absurd (h.3 refl)
from_entry true prev (c ∷ v) rest h =
    rw (h.1, ne→== c 44 h.0.0.0) (from_plain prev v (c ∷ []) rest h.0.1)
from_entry false prev (c ∷ v) rest h =
    rw (ne→== c 44 h.0.0.0) (from_plain prev v (c ∷ []) rest h.0.1)

trim_blank : (v : Bytes) → all_blank v ≡ true → trim_end v ≡ []
trim_blank [] h = refl
trim_blank (c ∷ v) h = rw h

entry-not-blank : (v : Bytes) → IsEntry v → all_blank v ≡ false
entry-not-blank v h = elim (Bool-cases (all_blank v)) [
  | inl blank ↦ absurd (h.3 (sym h.2 ∙ trim_blank v blank))
  | inr text ↦ text
]

field_of-entry : (prev : Option ℕ) (v : Bytes) → IsEntry v → field_of prev v ≡ some v
unfolding field_of
field_of-entry prev v h = rw (entry-not-blank v h) (ap some h.2)

pub from_list :
    (skipping : Bool) (prev : Option ℕ) (v : Bytes) (vs : List Bytes)
    → IsEntry v
    → All IsEntry vs
    → get_list_from skipping prev [] (v ++ tail_text vs) ≡ some (v ∷ vs)
unfolding get_list_from
from_list skipping prev v [] h hs = from_entry skipping prev v [] h ∙ refl
from_list skipping prev v (w ∷ vs) h (k, hs) =
    from_entry skipping prev v (tail_text (w ∷ vs)) h
    ∙ rw (field_of-entry prev v h, from_list true (some 32) w vs k hs) refl

-- Text without a NUL is seen whole.
pub c_str_plain : (v rest : Bytes) → IsPlain v → c_str (v ++ rest) ≡ v ++ c_str rest
c_str_plain [] rest h = refl
c_str_plain (c ∷ v) rest ((comma, nul), h) = rw (ne→== c 0 nul, c_str_plain v rest h)

pub c_str-tail_text : (vs : List Bytes) → All IsEntry vs → c_str (tail_text vs) ≡ tail_text vs
c_str-tail_text [] h = refl
c_str-tail_text (v ∷ vs) (k, h) =
    ap (λ t. 44 ∷ 32 ∷ t) (c_str_plain v (tail_text vs) k.0 ∙ rw (c_str-tail_text vs h))

-- A value that is a whole list's text is read as that list.
pub get_list_text :
    (name v : Bytes) (vs : List Bytes) (m : HeaderCollection)
    → lookup name m ≡ some (v ++ tail_text vs)
    → IsEntry v
    → All IsEntry vs
    → get_list name m ≡ some (v ∷ vs)
unfolding get_list
get_list_text name v vs m found h hs =
    rw (found, get_list)
      (rw (c_str_plain v (tail_text vs) h.0, c_str-tail_text vs hs)
        (from_list false none v vs h hs))

-- For a name that the collection does not hold, adding a list of entries one by one and then
-- asking for the list gives the entries back, in order. An entry is not empty, holds no comma and
-- no NUL, and has no blank at either end.
pub get_list-add_all :
    (name v : Bytes) (vs : List Bytes) (m : HeaderCollection)
    → lookup name m ≡ none
    → IsEntry v
    → All IsEntry vs
    → get_list name (add_all name (v ∷ vs) m) ≡ some (v ∷ vs)
get_list-add_all name v vs m fresh h hs =
    get_list_text name v vs (add_all name (v ∷ vs) m) (lookup-add_all_fresh name v vs m fresh h.3) h
      hs

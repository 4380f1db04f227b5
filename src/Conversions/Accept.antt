-- ===== src/Conversions/Accept.antt =====
-- src/connContext.cc: the Accept header of type_conversion_error as the other side reads it.
use rikitiki.Base.StringMap.{lookup, get_or_missing}
use rikitiki.Base.{
  Bool, true, false, List, [], ◌∷◌, ◌++◌, none, some, ◌≡◌, ◌≢◌, refl, sym, ap, ◌∙◌, arith, Bytes,
  codes, map, All, ◌&&◌, subst, Bool-cases, inl, inr, append-nil, append_assoc,
}
use rikitiki.Http.Header.{HeaderCollection, add, get_list}
use rikitiki.Http.Header.Csv.{
  IsEntry, tail_text, joined_text, append_ne, get_list_text, lookup-add_self,
}
use rikitiki.Http.ContentType.{ContentType, to_string, from_string}
use rikitiki.Http.ContentType.Names.{IsMember, types_after, from_string-types_after}
use rikitiki.Conversions.{indices, Handlers, new_conversions, accept_text, accept_header}
use rikitiki.Conversions.Table.{converted, is_declared, select, converted-new_conversions}

name-IsEntry : (t : ContentType) → IsMember t → IsEntry (to_string t)
unfolding to_string
name-IsEntry ContentType.default h = absurd (h.0 refl)
name-IsEntry ContentType.max h = absurd (h.1 refl)
name-IsEntry _ h = (omega arith, refl, refl, λ e. cc e)

is_member : ContentType → Bool
is_member ContentType.default = false
is_member ContentType.max = false
is_member _ = true

is_member-IsMember : (t : ContentType) → is_member t ≡ true → IsMember t
unfolding is_member
is_member-IsMember ContentType.default h = cc
is_member-IsMember ContentType.max h = cc
is_member-IsMember _ h = (λ e. cc e, λ e. cc e)

every_member : List ContentType → Bool
unfolding is_member
every_member [] = true
every_member (t ∷ ts) = is_member t && every_member ts

every_member-All : (ts : List ContentType) → every_member ts ≡ true → All IsMember ts
unfolding every_member
every_member-All [] h = tt
every_member-All (t ∷ ts) h = elim (Bool-cases (is_member t)) [
  | inl member ↦ (is_member-IsMember t member, every_member-All ts (ground (arith, h, member)))
  | inr other ↦ ground (arith, h, other)
]

indices-IsMember : All IsMember indices
unfolding every_member
indices-IsMember = every_member-All indices refl

module _ {H : Type 0} where
  converted-IsMember :
      (hs : Handlers H) (ts : List ContentType) → All IsMember ts → All IsMember (converted hs ts)
  converted-IsMember hs [] h = tt
  converted-IsMember [] (t ∷ ts) h = tt
  converted-IsMember (none ∷ hs) (t ∷ ts) h = converted-IsMember hs ts h.1
  converted-IsMember (some f ∷ hs) (t ∷ ts) h = (h.0, converted-IsMember hs ts h.1)

  accept_text_more :
      (ts : List ContentType) (hs : Handlers H) (old : Bytes)
      → old ≢ []
      → accept_text ts hs old ≡ old ++ tail_text (map to_string (converted hs ts))
  unfolding accept_text
  accept_text_more [] hs old ne = sym (append-nil old)
  accept_text_more (t ∷ ts) [] old ne = sym (append-nil old)
  accept_text_more (t ∷ ts) (none ∷ hs) old ne = accept_text_more ts hs old ne
  accept_text_more (t ∷ ts) (some f ∷ hs) old ne = rw (joined_text old (to_string t) ne) (
      accept_text_more ts hs (old ++ (codes ", " ++ to_string t)) (append_ne old _ ne)
      ∙ append_assoc old (codes ", " ++ to_string t) _)

  accept_text_first :
      (ts : List ContentType) (hs : Handlers H) (first : ContentType) (rest : List ContentType)
      → All IsMember ts
      → converted hs ts ≡ first ∷ rest
      → accept_text ts hs [] ≡ to_string first ++ tail_text (map to_string rest)
  unfolding accept_text
  accept_text_first [] hs first rest h e = cc
  accept_text_first (t ∷ ts) [] first rest h e = cc
  accept_text_first (t ∷ ts) (none ∷ hs) first rest h e = accept_text_first ts hs first rest h.1 e
  accept_text_first (t ∷ ts) (some f ∷ hs) first rest h e =
      let same : t ≡ first = cc in
      let others : converted hs ts ≡ rest = cc in
      accept_text_more ts hs (to_string t) (name-IsEntry t h.0).3 ∙ rw (same, others)

names-IsEntry : (ts : List ContentType) → All IsMember ts → All IsEntry (map to_string ts)
names-IsEntry [] h = tt
names-IsEntry (t ∷ ts) h = (name-IsEntry t h.0, names-IsEntry ts h.1)

-- The types that a list of names is read as, where `ss` have been read before.
abbrev pub types_of : List Bytes → List Bytes → List ContentType
types_of ss names = map (λ s. (from_string s (types_after ss)).0) names

types_of-names :
    (ss : List Bytes) (ts : List ContentType)
    → All IsMember ts
    → types_of ss (map to_string ts) ≡ ts
types_of-names ss [] h = refl
types_of-names ss (t ∷ ts) h = rw (from_string-types_after t ss h.0, types_of-names ss ts h.1)

-- The Accept header that type_conversion_error sends, added by the receiver to a collection without
-- one, is read as the list of names of the content types that some class has, in the order of the
-- enumeration, and FromString gives these types back from the names, whatever names it has read
-- before; where at least one type has a class, and the table could be made.
pub get_list-accept_header :
    {H : Type 0} (classes : List (List ContentType × H)) (hs : Handlers H) (first : ContentType)
    (rest : List ContentType) (m : HeaderCollection) (ss : List Bytes)
    → new_conversions classes ≡ some hs
    → select (is_declared classes) indices ≡ first ∷ rest
    → lookup (codes "Accept") m ≡ none
    → (get_list (codes "Accept") (add (codes "Accept") (accept_header hs).second m)
        ≡ some (map to_string (first ∷ rest)))
      × (types_of ss (map to_string (first ∷ rest)) ≡ first ∷ rest)
get_list-accept_header classes hs first rest m ss made declared fresh =
    let listed : converted hs indices ≡ first ∷ rest =
      converted-new_conversions classes hs made ∙ declared in
    let members : All IsMember (first ∷ rest) =
      subst (All IsMember) listed (converted-IsMember hs indices indices-IsMember) in
    let text : accept_text indices hs [] ≡ to_string first ++ tail_text (map to_string rest) =
      accept_text_first indices hs first rest indices-IsMember listed in
    let added : lookup (codes "Accept") (add (codes "Accept") (accept_header hs).second m)
        ≡ some (to_string first ++ tail_text (map to_string rest)) =
      lookup-add_self (codes "Accept") (accept_text indices hs []) m
      ∙ ap some (rw (get_or_missing (codes "Accept") [] m fresh) text) in
    (
      get_list_text (codes "Accept") (to_string first) (map to_string rest) _ added
          (name-IsEntry first members.0) (names-IsEntry rest members.1),
      types_of-names ss (first ∷ rest) members,
    )

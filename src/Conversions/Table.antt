-- ===== src/Conversions/Table.antt =====
-- include/rikitiki/content_handler.h: the table that the classes make.
use rikitiki.Base.{
  ℕ, Bool, true, false, ◌||◌, List, [], ◌∷◌, Option, none, some, ◌≡◌, refl, sym, ap, ◌∙◌, arith,
  ◌==◌, if◌then◌else◌, map, set, fun_ext, inl, inr, Option-cases,
}
use rikitiki.Http.ContentType.{ContentType}
use rikitiki.Conversions.{slot, indices, Handlers, add_types, add_classes, new_conversions}

abbrev same_slot : Option ℕ → Option ℕ → Bool
same_slot none o = false
same_slot (some i) none = false
same_slot (some i) (some j) = i == j

same_type : ContentType → ContentType → Bool
unfolding slot
same_type t u = same_slot (slot t) (slot u)

abbrev is_some {ℓ} : {A : Type ℓ} → Option A → Bool
is_some none = false
is_some (some a) = true

abbrev or_zero : Option ℕ → ℕ
or_zero none = 0
or_zero (some i) = i

abbrev pub converted {ℓ} : {H : Type ℓ} → List (Option H) → List ContentType → List ContentType
converted hs [] = []
converted [] (t ∷ ts) = []
converted (none ∷ hs) (t ∷ ts) = converted hs ts
converted (some f ∷ hs) (t ∷ ts) = t ∷ converted hs ts

-- Whether a class has the content type.
pub has_type : ContentType → List ContentType → Bool
unfolding same_type
has_type t [] = false
has_type t (u ∷ us) = same_type u t || has_type t us

unfoldable pub is_declared {ℓ} : {H : Type ℓ} → List (List ContentType × H) → ContentType → Bool
unfolding has_type
is_declared [] t = false
is_declared ((ts, f) ∷ classes) t = has_type t ts || is_declared classes t

abbrev pub select : (ContentType → Bool) → List ContentType → List ContentType
select p [] = []
select p (t ∷ ts) = if p t then t ∷ select p ts else select p ts

or_false : (b : Bool) → (b || false) ≡ b
or_false true = refl
or_false false = refl

abbrev Table : Type 0 → Type 0
Table H = ContentType → Option H

module _ {H : Type 0} where
  write : ContentType → H → Table H → Table H
  write t f g u = if same_type t u then some f else g u

  write_types : H → List ContentType → Table H → Table H
  write_types f [] g = g
  write_types f (t ∷ ts) g = write_types f ts (write t f g)

  write_classes : List (List ContentType × H) → Table H → Table H
  write_classes [] g = g
  write_classes ((ts, f) ∷ classes) g = write_classes classes (write_types f ts g)

  -- Writing one entry of a table that is given by a function of the type.
  set-table :
      (t : ContentType) (i : ℕ) (g : Table H) (f : H)
      → slot t ≡ some i
      → set (map g indices) (or_zero (slot t)) (some f) ≡ map (write t f g) indices
  unfolding same_type slot write
  set-table ContentType.default i g f h = cc
  set-table ContentType.all i g f h = cc
  set-table ContentType.max i g f h = cc
  set-table _ i g f h = refl

  add_types-table :
      (f : H) (ts : List ContentType) (g : Table H) (hs : Handlers H)
      → add_types f ts (map g indices) ≡ some hs
      → hs ≡ map (write_types f ts g) indices
  unfolding add_types write_types
  add_types-table f [] g hs e = cc
  add_types-table f (t ∷ ts) g hs e = elim (Option-cases (slot t)) [
    | inl missing ↦
        let fails : add_types f (t ∷ ts) (map g indices) ≡ none = rw (missing, add_types) refl in
        cc fails
    | inr (i, there) ↦
        let goes_on : add_types f (t ∷ ts) (map g indices)
            ≡ add_types f ts (set (map g indices) i (some f)) =
          rw (there, add_types) refl in
        let written : set (map g indices) i (some f) ≡ map (write t f g) indices =
          ap (λ j. set (map g indices) j (some f)) (sym (ap or_zero there))
          ∙ set-table t i g f there in
        add_types-table f ts (write t f g) hs (sym (goes_on ∙ ap (add_types f ts) written) ∙ e)
  ]

  add_classes-table :
      (classes : List (List ContentType × H)) (g : Table H) (hs : Handlers H)
      → add_classes classes (map g indices) ≡ some hs
      → hs ≡ map (write_classes classes g) indices
  unfolding add_classes write_classes
  add_classes-table [] g hs e = cc
  add_classes-table ((ts, f) ∷ classes) g hs e =
      elim (Option-cases (add_types f ts (map g indices))) [
        | inl missing ↦
            let fails : add_classes ((ts, f) ∷ classes) (map g indices) ≡ none =
              rw (missing, add_classes) refl in
            cc fails
        | inr (hs', there) ↦
            let goes_on : add_classes ((ts, f) ∷ classes) (map g indices)
                ≡ add_classes classes hs' =
              rw (there, add_classes) refl in
            let written : hs' ≡ map (write_types f ts g) indices =
              add_types-table f ts g hs' there in
            add_classes-table classes (write_types f ts g) hs
              (sym (goes_on ∙ ap (add_classes classes) written) ∙ e)
      ]

  is_some-write_types :
      (f : H) (ts : List ContentType) (g : Table H) (t : ContentType)
      → is_some (write_types f ts g t) ≡ (has_type t ts || is_some (g t))
  unfolding write_types has_type write
  is_some-write_types f [] g t = refl
  is_some-write_types f (u ∷ us) g t = is_some-write_types f us (write u f g) t ∙ ground (arith)

  is_some-write_classes :
      (classes : List (List ContentType × H)) (g : Table H) (t : ContentType)
      → is_some (write_classes classes g t) ≡ (is_declared classes t || is_some (g t))
  unfolding write_classes is_declared
  is_some-write_classes [] g t = refl
  is_some-write_classes ((ts, f) ∷ classes) g t =
      is_some-write_classes classes (write_types f ts g) t
      ∙ ground (arith, is_some-write_types f ts g t)

  converted-map :
      (g : Table H) (ts : List ContentType)
      → converted (map g ts) ts ≡ select (λ t. is_some (g t)) ts
  converted-map g [] = refl
  converted-map g (t ∷ ts) = elim (Option-cases (g t)) [
    | inl missing ↦ rw missing (converted-map g ts)
    | inr (f, there) ↦ rw there (ap (◌∷◌ t) (converted-map g ts))
  ]

  pub converted-new_conversions :
      (classes : List (List ContentType × H)) (hs : Handlers H)
      → new_conversions classes ≡ some hs
      → converted hs indices ≡ select (is_declared classes) indices
  unfolding new_conversions
  converted-new_conversions classes hs e =
      let table : hs ≡ map (write_classes classes (λ t. none)) indices =
        add_classes-table classes (λ t. none) hs e in
      let declared : (t : ContentType)
          → is_some (write_classes classes (λ u. none) t) ≡ is_declared classes t =
        λ t. is_some-write_classes classes (λ u. none) t ∙ or_false (is_declared classes t) in
      rw table (converted-map (write_classes classes (λ u. none)) indices)
      ∙ ap (λ p. select p indices) (fun_ext declared)

-- ===== src/Base/StringMap.antt =====
-- std::map with text keys: an association list kept in the order of the keys, which is the order
-- of iteration. A lookup is a scan, and a write replaces or inserts in place.
use mathlib.Core.Path.{◌≡◌, refl}
use mathlib.Core.Bool.{Bool, true, false, ◌&&◌, ◌||◌}
use mathlib.Core.Option.{Option, none, some}
use mathlib.Core.List.{List, [], ◌∷◌}
use native.Mathlib.Omega.{arith}
use mathlib.Core.Logic.{inl, inr}
use rikitiki.Base.Tests.{ltb, ◌==◌, if◌then◌else◌, Bool-cases}
use rikitiki.Base.Text.{Bytes, equal, equal_iff, equal_refl}

-- The order of std::string.
abbrev pub less : Bytes → Bytes → Bool
less [] [] = false
less [] (y ∷ b) = true
less (x ∷ a) [] = false
less (x ∷ a) (y ∷ b) = ltb x y || (x == y && less a b)

abbrev pub StringMap {ℓ} : Type ℓ → Type ℓ
StringMap V = List (Bytes × V)

module _ {ℓ} {V : Type ℓ} where
  -- m.find(k)
  unfoldable pub lookup : Bytes → StringMap V → Option V
  lookup k [] = none
  lookup k ((j, v) ∷ m) = if equal k j then some v else lookup k m

  -- m[k] = v
  unfoldable pub insert : Bytes → V → StringMap V → StringMap V
  insert k v [] = (k, v) ∷ []
  insert k v ((j, w) ∷ m) =
      if equal k j
      then (j, v) ∷ m
      else if less k j
      then (k, v) ∷ (j, w) ∷ m
      else (j, w) ∷ insert k v m

  pub lookup-insert :
      (j k : Bytes) (v : V) (m : StringMap V)
      → lookup j (insert k v m) ≡ (if equal j k then some v else lookup j m)
  unfolding lookup insert
  lookup-insert j k v [] = refl
  lookup-insert j k v ((i, w) ∷ m) =
      ground (arith, equal_iff j k, equal_iff k i, equal_iff j i, lookup-insert j k v m)

  pub lookup-insert_self : (k : Bytes) (v : V) (m : StringMap V) → lookup k (insert k v m) ≡ some v
  lookup-insert_self k v m = simp (lookup-insert, equal_refl)

  -- The value that `m[k]` refers to, where a missing key is first given the value `d`.
  unfoldable pub get_or : Bytes → V → StringMap V → V
  get_or k d m = elim (lookup k m) [ none ↦ d | some v ↦ v ]

  pub get_or_missing : (k : Bytes) (d : V) (m : StringMap V) → lookup k m ≡ none → get_or k d m ≡ d
  unfolding get_or
  get_or_missing k d m h = rw (h, get_or)

  pub get_or_found :
      (k : Bytes) (d : V) (m : StringMap V) {v : V} → lookup k m ≡ some v → get_or k d m ≡ v
  unfolding get_or
  get_or_found k d m h = rw (h, get_or)

  -- Of two writes to one key the later one stays.
  pub insert-insert :
      (k : Bytes) (v w : V) (m : StringMap V) → insert k w (insert k v m) ≡ insert k w m
  unfolding insert
  insert-insert k v w [] = rw (equal_refl k)
  insert-insert k v w ((j, u) ∷ m) = elim (Bool-cases (equal k j)) [
    | inl same ↦ rw same (rw same)
    | inr other ↦ rw other (elim (Bool-cases (less k j)) [
      | inl before ↦ rw before (rw (equal_refl k))
      | inr after ↦ rw after (rw (other, after, insert-insert k v w m))
    ])
  ]

  pub get_or-insert_self : (k : Bytes) (d v : V) (m : StringMap V) → get_or k d (insert k v m) ≡ v
  get_or-insert_self k d v m = get_or_found k d (insert k v m) (lookup-insert_self k v m)

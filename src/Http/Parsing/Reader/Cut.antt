-- ===== src/Http/Parsing/Reader/Cut.antt =====
-- src/http/Response.cc: line breaks in a text that is cut in two.
use native.Mathlib.Nat.{suc-add, zero-add}
use rikitiki.Base.{
  ℕ, zero, suc, ◌+◌, ◌≤◌, Bool, false, ◌&&◌, [], ◌∷◌, ◌++◌, none, some, ◌≡◌, refl, ap, inl, inr,
  arith, Bytes, length, take, drop, HasNoNul, Option-cases,
}
use rikitiki.Http.Parsing.Scan.{is_newline}
use rikitiki.Http.Parsing.Reader.{find_newline}

-- Whether the text ends, or begins, with a line break character.
abbrev pub ends_newline : Bytes → Bool
ends_newline [] = false
ends_newline (c ∷ []) = is_newline c
ends_newline (c ∷ d ∷ ds) = ends_newline (d ∷ ds)

abbrev pub begins_newline : Bytes → Bool
begins_newline [] = false
begins_newline (c ∷ cs) = is_newline c

-- The cut between the two texts does not fall between two line break characters.
abbrev pub IsCut : Bytes → Bytes → Type 0
IsCut a b = (ends_newline a && begins_newline b) ≡ false

pub find_newline-append_none :
    (a b : Bytes)
    → HasNoNul a
    → find_newline a ≡ none
    → find_newline b ≡ none
    → find_newline (a ++ b) ≡ none
unfolding find_newline
find_newline-append_none [] b h e k = k
find_newline-append_none (c ∷ a) b (nul, h) e k = ground (arith, find_newline-append_none a b h)

pub find_newline-append_later :
    (a b : Bytes) (n : ℕ)
    → HasNoNul a
    → find_newline a ≡ none
    → find_newline b ≡ some n
    → find_newline (a ++ b) ≡ some (length a + n)
unfolding find_newline
find_newline-append_later [] b n h e k = rw zero-add k
find_newline-append_later (c ∷ a) b n (nul, h) e k =
    ground (arith, find_newline-append_later a b n h, suc-add (length a) n)

pub find_newline-append_some :
    (a b : Bytes) (n : ℕ)
    → HasNoNul a
    → IsCut a b
    → find_newline a ≡ some n
    → find_newline (a ++ b) ≡ some n
unfolding find_newline
find_newline-append_some [] b n h cut e = cc
find_newline-append_some (c ∷ []) [] n (nul, h) cut e = ground arith
find_newline-append_some (c ∷ []) (x ∷ b) n (nul, h) cut e = ground arith
find_newline-append_some (c ∷ d ∷ a) b n (nul, h) cut e =
    let behind = find_newline-append_some (d ∷ a) b in
    elim (Option-cases (find_newline (d ∷ a))) [
      | inl no_break ↦ ground (arith, no_break)
      | inr (m, found) ↦ ground (arith, found, behind m h cut found)
    ]

IsCut-nil : (n : ℕ) (b : Bytes) → IsCut (drop n []) b
IsCut-nil zero b = refl
IsCut-nil (suc n) b = refl

pub IsCut-drop : (n : ℕ) (a b : Bytes) → IsCut a b → IsCut (drop n a) b
IsCut-drop zero a b h = h
IsCut-drop (suc n) [] b h = h
IsCut-drop (suc n) (c ∷ []) b h = IsCut-nil n b
IsCut-drop (suc n) (c ∷ d ∷ a) b h = IsCut-drop n (d ∷ a) b h

pub HasNoNul-drop : (n : ℕ) (a : Bytes) → HasNoNul a → HasNoNul (drop n a)
HasNoNul-drop zero a h = h
HasNoNul-drop (suc n) [] h = tt
HasNoNul-drop (suc n) (c ∷ a) h = HasNoNul-drop n a h.1

pub take-append : (n : ℕ) (a b : Bytes) → n ≤ length a → take n (a ++ b) ≡ take n a
take-append zero a b h = refl
take-append (suc n) [] b h = absurd (omega arith)
take-append (suc n) (c ∷ a) b h = ap (◌∷◌ c) (take-append n a b (omega arith))

pub drop-append : (n : ℕ) (a b : Bytes) → n ≤ length a → drop n (a ++ b) ≡ drop n a ++ b
drop-append zero a b h = refl
drop-append (suc n) [] b h = absurd (omega arith)
drop-append (suc n) (c ∷ a) b h = drop-append n a b (omega arith)

pub take-add : (a b : Bytes) (n : ℕ) → take (length a + n) (a ++ b) ≡ a ++ take n b
take-add [] b n = rw zero-add
take-add (c ∷ a) b n = rw suc-add (ap (◌∷◌ c) (take-add a b n))

pub drop-add : (a b : Bytes) (n : ℕ) → drop (length a + n) (a ++ b) ≡ drop n b
drop-add [] b n = rw zero-add
drop-add (c ∷ a) b n = rw suc-add (drop-add a b n)

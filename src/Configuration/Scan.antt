-- ===== src/Configuration/Scan.antt =====
-- src/configuration/configuration.cc: where find_open_decl and find_close stop.
use rikitiki.Base.{
  ℕ, zero, suc, ◌+◌, ◌<◌, ◌≤◌, Bool, true, false, [], ◌∷◌, Option, none, some, ◌≡◌, ap, arith, ◌==◌,
  ◌&&◌, Bytes, get_elem?, length, drop, length-drop, subst, Bool-cases, inl, inr, ==_iff,
}
use rikitiki.Configuration.{find_open_from, find_open_decl, find_close_from, find_close}

-- A dollar sign stands before place `n` of a text; `dollar` tells of the byte before the text.
abbrev Before : Bool → Bytes → ℕ → Type 0
Before dollar s zero = dollar ≡ true
Before dollar s (suc n) = get_elem? s n ≡ some b'$'

-- An opening parenthesis behind a dollar sign.
abbrev pub OpensAt : Bool → Bytes → ℕ → Type 0
OpensAt dollar s n = (get_elem? s n ≡ some b'(') × Before dollar s n

opens_later :
    (dollar : Bool) (c : ℕ) (s : Bytes) (n : ℕ)
    → OpensAt dollar (c ∷ s) (suc n)
    → OpensAt (c == b'$') s n
opens_later dollar c s zero (here, before) = (here, ground (arith, before))
opens_later dollar c s (suc n) h = h

opens_sooner :
    (dollar : Bool) (c : ℕ) (s : Bytes) (n : ℕ)
    → OpensAt (c == b'$') s n
    → OpensAt dollar (c ∷ s) (suc n)
opens_sooner dollar c s zero (here, before) = (here, ap some ((==_iff c b'$').0 before))
opens_sooner dollar c s (suc n) h = h

-- What a scan from place `i` finds: the first opening, or that there is none.
abbrev pub IsFirst : Bool → ℕ → Bytes → Option ℕ → Type 0
IsFirst dollar i s none = (n : ℕ) → ¬ OpensAt dollar s n
IsFirst dollar i s (some k) =
    (n : ℕ) × (k ≡ i + n) × OpensAt dollar s n × ((j : ℕ) → j < n → ¬ OpensAt dollar s j)

not_here :
    (dollar : Bool) (c : ℕ) (s : Bytes) → (c == b'(' && dollar) ≡ false → ¬ OpensAt dollar (c ∷ s) 0
not_here dollar c s h (here, before) = ground (arith, here, before, h)

IsFirst-suc :
    (dollar : Bool) (i c : ℕ) (s : Bytes) (found : Option ℕ)
    → (c == b'(' && dollar) ≡ false
    → IsFirst (c == b'$') (suc i) s found
    → IsFirst dollar i (c ∷ s) found
IsFirst-suc dollar i c s none h first = later
  where
    later : (n : ℕ) → ¬ OpensAt dollar (c ∷ s) n
    later zero = not_here dollar c s h
    later (suc n) = λ o. first n (opens_later dollar c s n o)
IsFirst-suc dollar i c s (some k) h (n, e, opens, before) =
    (suc n, omega (arith, e), opens_sooner dollar c s n opens, earlier)
  where
    earlier : (j : ℕ) → j < suc n → ¬ OpensAt dollar (c ∷ s) j
    earlier zero lt = not_here dollar c s h
    earlier (suc j) lt = λ o. before j (omega (arith, lt)) (opens_later dollar c s j o)

opens_here :
    (dollar : Bool) (c : ℕ) (s : Bytes) → (c == b'(' && dollar) ≡ true → OpensAt dollar (c ∷ s) 0
opens_here dollar c s h = (ground (arith, h), ground (arith, h))

find_open_from-IsFirst :
    (dollar : Bool) (i : ℕ) (s : Bytes) → IsFirst dollar i s (find_open_from dollar i s)
unfolding find_open_from
find_open_from-IsFirst dollar i [] = λ n o. cc (o.0)
find_open_from-IsFirst dollar i (c ∷ s) = elim (Bool-cases (c == b'(' && dollar)) [
  | inl here ↦
      rw here (0, omega arith, opens_here dollar c s here, λ j lt. absurd (omega (arith, lt)))
  | inr later ↦
      rw later (IsFirst-suc dollar i c s _ later (find_open_from-IsFirst (c == b'$') (suc i) s))
]

-- find_open_decl, which looks at the text from `start` on, gives the first place there that holds an
-- opening parenthesis right behind a dollar sign, both at or behind `start`, and none where there
-- is no such place.
pub find_open_decl-IsFirst :
    (path : Bytes) (start : ℕ) → IsFirst false start (drop start path) (find_open_decl path start)
unfolding find_open_decl
find_open_decl-IsFirst path start = find_open_from-IsFirst false start (drop start path)

get_elem?-lt : (s : Bytes) (n c : ℕ) → get_elem? s n ≡ some c → n < length s
get_elem?-lt [] n c h = cc
get_elem?-lt (x ∷ s) zero c h = omega arith
get_elem?-lt (x ∷ s) (suc n) c h = omega (arith, get_elem?-lt s n c h)

-- The bounds that the loop of expand_variables needs.
pub find_open_decl-bounds :
    (path : Bytes) (start k : ℕ)
    → find_open_decl path start ≡ some k
    → (start < k) × (k < length path)
find_open_decl-bounds path start k e =
    opened (subst (IsFirst false start (drop start path)) e (find_open_decl-IsFirst path start))
  where
    opened : IsFirst false start (drop start path) (some k) → (start < k) × (k < length path)
    opened (zero, place, opens, _) = absurd (cc (opens.1))
    opened (suc n, place, opens, _) =
        omega (
          arith,
          place,
          get_elem?-lt (drop start path) (suc n) b'(' opens.0,
          length-drop start path,
        )

find_close_from-bounds :
    (i : ℕ) (s : Bytes) (k : ℕ) → find_close_from i s ≡ some k → (i ≤ k) × (k < i + length s)
unfolding find_close_from
find_close_from-bounds i [] k e = cc
find_close_from-bounds i (c ∷ s) k e = elim (Bool-cases (c == b')')) [
  | inl here ↦ ground (arith, here, e)
  | inr later ↦ ground (arith, later, find_close_from-bounds (suc i) s k)
]

pub find_close-bounds :
    (path : Bytes) (start k : ℕ)
    → start < length path
    → find_close path (some start) ≡ some k
    → (start ≤ k) × (k < length path)
unfolding find_close
find_close-bounds path start k lt e =
    omega (arith, lt, find_close_from-bounds start (drop start path) k e, length-drop start path)

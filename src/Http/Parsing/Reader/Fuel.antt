-- ===== src/Http/Parsing/Reader/Fuel.antt =====
-- src/http/Response.cc: the rounds of the loop of BufferedReader::OnData, and the classes that it
-- drives which never ask for a block of a given length.
use native.Mathlib.Nat.{suc-add}
use rikitiki.Base.{
  ℕ, zero, suc, ◌+◌, ◌^◌, ◌≤◌, ◌<◌, Bool, true, false, [], ◌∷◌, ◌++◌, Option, none, some, ◌≡◌, ◌≢◌,
  refl, subst, inl, inr, arith, leb, if◌then◌else◌, Bytes, length, take, drop, length-drop,
  Option-cases, append-nil, le→leb,
}
use rikitiki.Http.Parsing.{BufferMode, size_max}
use rikitiki.Http.Parsing.Reader.{
  Reader, Outcome, returned, threw, out_of_fuel, find_newline, keep, deliver, pass, missing,
  length_case, newline_case, mode_case, on_data_loop, on_data,
}

abbrev pub IsDone : {S : Type 0} → Outcome S → Type 0
IsDone (returned b r s) = Unit
IsDone threw = Unit
IsDone out_of_fuel = ⊥

-- A line break found in the text ends within it, and takes at least one byte.
pub find_newline_bounds : (d : Bytes) (n : ℕ) → find_newline d ≡ some n → (1 ≤ n) × (n ≤ length d)
unfolding find_newline
find_newline_bounds [] n h = cc
find_newline_bounds (c ∷ []) n h = ground arith
find_newline_bounds (c ∷ d ∷ ds) n h = elim (Option-cases (find_newline (d ∷ ds))) [
  | inl none_behind ↦ ground arith
  | inr (m, found) ↦ let ih = find_newline_bounds (d ∷ ds) m found in ground (arith, found, ih)
]

-- `n` bytes behind the buffer are missing when a line ends there.
pub missing_line :
    (r : Reader) (n : ℕ)
    → n < 2 ^ 64
    → missing (record r { expected_size = length r.buffer + n }) ≡ n
missing_line r n h = omega arith

module _ {S : Type 0} (on_buffered : Reader → S → Bytes → Option (Reader × S × Bool)) where
  abbrev Refines : (f g : Reader → S → Bytes → Outcome S) → Type 0
  Refines f g = (r : Reader) (s : S) (d : Bytes) → IsDone (f r s d) → g r s d ≡ f r s d

  pub deliver-Refines :
      (o : Option (Reader × S × Bool)) (f g : Reader → S → Outcome S)
      → ((r : Reader) (s : S) → IsDone (f r s) → g r s ≡ f r s)
      → IsDone (deliver o f)
      → deliver o g ≡ deliver o f
  deliver-Refines none f g h done = refl
  deliver-Refines (some (r, s, true)) f g h done = refl
  deliver-Refines (some (r, s, false)) f g h done = h (record r { buffer = [] }) s done

  if-Refines :
      (b : Bool) (x y z : Outcome S)
      → (IsDone x → y ≡ x)
      → IsDone (if b then x else z)
      → (if b then y else z) ≡ (if b then x else z)
  if-Refines true x y z h done = h done
  if-Refines false x y z h done = refl

  pub length_case-Refines :
      (r : Reader) (s : S) (d : Bytes) (f g : Reader → S → Bytes → Outcome S)
      → Refines f g
      → IsDone (length_case on_buffered r s d f)
      → length_case on_buffered r s d g ≡ length_case on_buffered r s d f
  unfolding length_case
  length_case-Refines r s d f g h done =
      if-Refines (leb (missing r) (length d)) _ _ _
        (deliver-Refines _ _ _ (λ r' s'. h r' s' (drop (missing r) d))) done

  pub newline_case_none :
      (r : Reader) (s : S) (d : Bytes) (next : Reader → S → Bytes → Outcome S)
      → find_newline d ≡ none
      → newline_case on_buffered r s d [] next ≡ keep r s d
  unfolding newline_case
  newline_case_none r s d next e = rw (append-nil d, e, newline_case)

  pub newline_case-some :
      (r : Reader) (s : S) (d : Bytes) (next : Reader → S → Bytes → Outcome S) (n : ℕ)
      → find_newline d ≡ some n
      → n < 2 ^ 64
      → newline_case on_buffered r s d [] next
        ≡ deliver
            (on_buffered
              (record r { expected_size = length r.buffer + n; buffer = r.buffer ++ take n d })
              s
              (r.buffer ++ take n d))
            (λ r' s'. next r' s' (drop n d))
  unfolding newline_case length_case
  newline_case-some r s d next n e small =
      let (one, within) = find_newline_bounds d n e in
      rw (append-nil d, e, newline_case) (rw (missing_line r n small, le→leb n (length d) within))

  newline_case-Refines :
      (r : Reader) (s : S) (d : Bytes) (f g : Reader → S → Bytes → Outcome S)
      → Refines f g
      → IsDone (newline_case on_buffered r s d [] f)
      → newline_case on_buffered r s d [] g ≡ newline_case on_buffered r s d [] f
  unfolding newline_case
  newline_case-Refines r s d f g h =
      elim (find_newline (d ++ []))
        as (λ o.
          IsDone (elim o [
            | none ↦ keep r s d
            | some n ↦
                length_case on_buffered (record r { expected_size = length r.buffer + n }) s d f
          ])
          → ◌≡◌ {A = Outcome S}
              (elim o [
                | none ↦ keep r s d
                | some n ↦
                    length_case on_buffered (record r { expected_size = length r.buffer + n }) s d g
              ])
              (elim o [
                | none ↦ keep r s d
                | some n ↦
                    length_case on_buffered (record r { expected_size = length r.buffer + n }) s d f
              ])) [ none ↦ λ done. refl | some n ↦ length_case-Refines _ s d f g h ]

  mode_case-Refines :
      (m : BufferMode) (r : Reader) (s : S) (d : Bytes) (f g : Reader → S → Bytes → Outcome S)
      → Refines f g
      → IsDone (mode_case on_buffered m r s d [] f)
      → mode_case on_buffered m r s d [] g ≡ mode_case on_buffered m r s d [] f
  mode_case-Refines BufferMode.none r s d f g h done = unfold mode_case in refl
  mode_case-Refines BufferMode.newline r s d f g h done =
      unfold mode_case in newline_case-Refines r s d f g h done
  mode_case-Refines BufferMode.length r s d f g h done =
      unfold mode_case in length_case-Refines r s d f g h done

  pub on_data_loop-add :
      (f g : ℕ) (r : Reader) (s : S) (d : Bytes)
      → IsDone (on_data_loop on_buffered f r s d [])
      → on_data_loop on_buffered (f + g) r s d [] ≡ on_data_loop on_buffered f r s d []
  unfolding on_data_loop
  on_data_loop-add zero g r s d done = absurd done
  on_data_loop-add (suc f) g r s [] done = rw suc-add
  on_data_loop-add (suc f) g r s (c ∷ cs) done =
      rw suc-add
        (mode_case-Refines r.mode r s (c ∷ cs) _ _ (λ r' s' d. on_data_loop-add f g r' s' d) done)

-- What a class that reads lines promises: in the states of `Inv` it never asks for a block of a
-- given length, as long as a line that it is handed is shorter than size_max.
pub record LineClient {S : Type 0} (on_buffered : Reader → S → Bytes → Option (Reader × S × Bool))
    : Type 1 where
  pub Inv : BufferMode → S → Type 0
  pub never_length : (s : S) → ¬ Inv BufferMode.length s
  pub keeps :
      (r : Reader) (s : S) (d : Bytes) {r' : Reader} {s' : S}
      → Inv r.mode s
      → (r.mode ≡ BufferMode.newline → r.expected_size ≢ size_max)
      → on_buffered r s d ≡ some (r', s', false)
      → Inv r'.mode s'

deliver-IsDone :
    {S : Type 0} (o : Option (Reader × S × Bool)) (f : Reader → S → Outcome S)
    → ((r : Reader) (s : S) → o ≡ some (r, s, false) → IsDone (f (record r { buffer = [] }) s))
    → IsDone (deliver o f)
deliver-IsDone none f h = tt
deliver-IsDone (some (r, s, true)) f h = tt
deliver-IsDone (some (r, s, false)) f h = h r s refl

pass-IsDone : {S : Type 0} (o : Option (Reader × S × Bool)) → IsDone (pass o)
pass-IsDone none = tt
pass-IsDone (some (r, s, b)) = tt

module _ {S : Type 0} (on_buffered : Reader → S → Bytes → Option (Reader × S × Bool))
    (client : LineClient on_buffered) where
  open client use {Inv, never_length, keeps}

  -- One round on a line, when the later rounds are done.
  newline_case-IsDone :
      (r : Reader) (s : S) (d : Bytes) (next : Reader → S → Bytes → Outcome S)
      → Inv r.mode s
      → length r.buffer + length d < size_max
      → ((r' : Reader) (s' : S) (n : ℕ)
          → 1 ≤ n
          → n ≤ length d
          → r'.buffer ≡ []
          → Inv r'.mode s'
          → IsDone (next r' s' (drop n d)))
      → IsDone (newline_case on_buffered r s d [] next)
  newline_case-IsDone r s d next inv small h = elim (Option-cases (find_newline d)) [
    | inl no_break ↦ rw (newline_case_none on_buffered r s d next no_break) tt
    | inr (n, found) ↦
        let (one, within) = find_newline_bounds d n found in
        rw (newline_case-some on_buffered r s d next n found (omega arith)) (
          deliver-IsDone _ _ (λ r' s' e.
            h (record r' { buffer = [] }) s' n one within refl
              (keeps _ s _ inv (λ _. omega arith) e)))
  ]

  mode_case-IsDone :
      (m : BufferMode) (r : Reader) (s : S) (d : Bytes) (next : Reader → S → Bytes → Outcome S)
      → r.mode ≡ m
      → Inv r.mode s
      → length r.buffer + length d < size_max
      → ((r' : Reader) (s' : S) (n : ℕ)
          → 1 ≤ n
          → n ≤ length d
          → r'.buffer ≡ []
          → Inv r'.mode s'
          → IsDone (next r' s' (drop n d)))
      → IsDone (mode_case on_buffered m r s d [] next)
  mode_case-IsDone BufferMode.none r s d next e inv small h =
      unfold mode_case in pass-IsDone (on_buffered r s d)
  mode_case-IsDone BufferMode.newline r s d next e inv small h =
      unfold mode_case in newline_case-IsDone r s d next inv small h
  mode_case-IsDone BufferMode.length r s d next e inv small h =
      absurd (never_length s (subst (λ m. Inv m s) e inv))

  on_data_loop-IsDone :
      (fuel : ℕ) (r : Reader) (s : S) (d : Bytes)
      → length d < fuel
      → Inv r.mode s
      → length r.buffer + length d < size_max
      → IsDone (on_data_loop on_buffered fuel r s d [])
  unfolding on_data_loop
  on_data_loop-IsDone zero r s d enough inv small = absurd (omega arith)
  on_data_loop-IsDone (suc fuel) r s [] enough inv small = tt
  on_data_loop-IsDone (suc fuel) r s (c ∷ cs) enough inv small =
      mode_case-IsDone r.mode r s (c ∷ cs) _ refl inv small (λ r' s' n one within empty inv'.
        on_data_loop-IsDone fuel r' s' (drop n (c ∷ cs)) (omega (arith, length-drop n (c ∷ cs)))
          inv' (rw empty (omega (arith, length-drop n (c ∷ cs)))))

  -- For a class that reads lines, OnData comes to an end: the rounds that the loop is given are
  -- enough, whatever the data, as long as buffer and data together are shorter than size_max.
  pub on_data-IsDone :
      (r : Reader) (s : S) (d : Bytes)
      → Inv r.mode s
      → length r.buffer + length d < size_max
      → IsDone (on_data on_buffered r s d [])
  unfolding on_data
  on_data-IsDone r s d inv small =
      on_data_loop-IsDone (suc (length d)) r s d (omega arith) inv small

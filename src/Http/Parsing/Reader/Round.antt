-- ===== src/Http/Parsing/Reader/Round.antt =====
-- src/http/Response.cc: one round of the loop of BufferedReader::OnData, for a class that reads lines
-- and then a body.
use rikitiki.Base.{
  ℕ, zero, suc, ◌+◌, ◌^◌, ◌≤◌, ◌<◌, Bool, true, false, [], ◌∷◌, ◌++◌, Option, none, some, ◌≡◌, refl,
  ap, subst, ◌∙◌, inl, inr, arith, Bytes, length, take, drop, length-drop, length-append,
  Option-cases, append-nil,
}
use rikitiki.Http.Parsing.{BufferMode, size_max}
use rikitiki.Http.Parsing.Reader.{
  Reader, Outcome, returned, find_newline, keep, deliver, pass, newline_case, mode_case,
  on_data_loop,
}
use rikitiki.Http.Parsing.Reader.Fuel.{
  find_newline_bounds, newline_case_none, newline_case-some, LineClient,
}

-- What a class that reads lines and then a body promises besides: it leaves the buffer to the
-- reader, and a piece of the body may be handed over in two parts.
pub record StreamClient {S : Type 0} (on_buffered : Reader → S → Bytes → Option (Reader × S × Bool))
    : Type 1 where
  pub line : LineClient on_buffered
  pub buffer_kept :
      (r : Reader) (s : S) (d : Bytes) {r' : Reader} {s' : S} {b : Bool}
      → on_buffered r s d ≡ some (r', s', b)
      → r'.buffer ≡ r.buffer
  pub additive :
      (r : Reader) (s : S) (a b : Bytes) {r' : Reader} {s' : S}
      → line.Inv r.mode s
      → r.mode ≡ BufferMode.none
      → on_buffered r s a ≡ some (r', s', false)
      → (r'.mode ≡ BufferMode.none) × (on_buffered r s (a ++ b) ≡ on_buffered r' s' b)

-- What the handler is called on for a line of `n` bytes.
abbrev pub line_reader : Reader → Bytes → ℕ → Reader
line_reader r d n = record r { expected_size = length r.buffer + n; buffer = r.buffer ++ take n d }

module _ {S : Type 0} (on_buffered : Reader → S → Bytes → Option (Reader × S × Bool))
    (client : StreamClient on_buffered) where
  open client use {line.{Inv, never_length, keeps}, buffer_kept, additive}

  abbrev pub loop : ℕ → Reader → S → Bytes → Outcome S
  loop f r s d = on_data_loop on_buffered f r s d []

  pub deliver-eq :
      (o : Option (Reader × S × Bool)) (next : Reader → S → Outcome S) {r : Reader} {s : S}
      → deliver o next ≡ returned false r s
      → (r' : Reader) × (s' : S) × (o ≡ some (r', s', false))
        × (next (record r' { buffer = [] }) s' ≡ returned false r s)
  deliver-eq none next e = cc
  deliver-eq (some (r', s', true)) next e = cc
  deliver-eq (some (r', s', false)) next e = (r', s', refl, e)

  pub pass-eq :
      (o : Option (Reader × S × Bool)) {r : Reader} {s : S} {b : Bool}
      → pass o ≡ returned b r s
      → o ≡ some (r, s, b)
  pass-eq none e = cc
  pass-eq (some (r', s', c)) e = cc

  pub keep-eq :
      (r r' : Reader) (s s' : S) (d : Bytes)
      → keep r s d ≡ returned false r' s'
      → (r' ≡ record r { buffer = r.buffer ++ d }) × (s' ≡ s)
  keep-eq r r' s s' d e = (cc, cc)

  -- One round of the loop that does not end the message.
  pub data Round (r : Reader) (s : S) (d : Bytes) (next : Reader → S → Bytes → Outcome S)
      (r' : Reader) (s' : S) : Type 0 where
    body :
        r.mode ≡ BufferMode.none → on_buffered r s d ≡ some (r', s', false) → Round r s d next r' s'
    partial :
        r.mode ≡ BufferMode.newline
        → find_newline d ≡ none
        → r' ≡ record r { buffer = r.buffer ++ d }
        → s' ≡ s
        → Round r s d next r' s'
    line :
        (n : ℕ) (r₁ : Reader) (s₁ : S)
        → r.mode ≡ BufferMode.newline
        → find_newline d ≡ some n
        → on_buffered (line_reader r d n) s (r.buffer ++ take n d) ≡ some (r₁, s₁, false)
        → next (record r₁ { buffer = [] }) s₁ (drop n d) ≡ returned false r' s'
        → Round r s d next r' s'

  newline-Round :
      (r : Reader) (s : S) (d : Bytes) (next : Reader → S → Bytes → Outcome S) {r' : Reader}
      {s' : S}
      → r.mode ≡ BufferMode.newline
      → length d < 2 ^ 64
      → newline_case on_buffered r s d [] next ≡ returned false r' s'
      → Round r s d next r' s'
  newline-Round r s d next m small e = elim (Option-cases (find_newline d)) [
    | inl no_break ↦
        let (er, es) =
          keep-eq r _ s _ d (rw (newline_case_none on_buffered r s d next no_break) at e) in
        partial m no_break er es
    | inr (n, found) ↦
        let (one, within) = find_newline_bounds d n found in
        let (r₁, s₁, called, later) =
          deliver-eq _ _
            (rw (newline_case-some on_buffered r s d next n found (omega arith)) at e) in
        line n r₁ s₁ m found called later
  ]

  pub mode-Round :
      (m : BufferMode) (r : Reader) (s : S) (d : Bytes) (next : Reader → S → Bytes → Outcome S)
      {r' : Reader} {s' : S}
      → r.mode ≡ m
      → Inv r.mode s
      → length d < 2 ^ 64
      → mode_case on_buffered m r s d [] next ≡ returned false r' s'
      → Round r s d next r' s'
  unfolding mode_case
  mode-Round BufferMode.none r s d next m inv small e = body m (pass-eq _ e)
  mode-Round BufferMode.newline r s d next m inv small e = newline-Round r s d next m small e
  mode-Round BufferMode.length r s d next m inv small e =
      absurd (never_length s (subst (λ m. Inv m s) m inv))

  pub line_keeps :
      (r : Reader) (s : S) (d : Bytes) (n : ℕ) {r₁ : Reader} {s₁ : S}
      → Inv r.mode s
      → length r.buffer + length d < size_max
      → find_newline d ≡ some n
      → on_buffered (line_reader r d n) s (r.buffer ++ take n d) ≡ some (r₁, s₁, false)
      → Inv r₁.mode s₁
  line_keeps r s d n inv small found called =
      let (one, within) = find_newline_bounds d n found in
      keeps (line_reader r d n) s _ inv (λ _. omega arith) called

  -- The state that a call of OnData leaves is a state of `Inv`, with no more buffered than came in.
  pub loop_keeps :
      (f : ℕ) (r : Reader) (s : S) (a : Bytes) (r' : Reader) (s' : S)
      → Inv r.mode s
      → length r.buffer + length a < size_max
      → loop f r s a ≡ returned false r' s'
      → Inv r'.mode s' × (length r'.buffer ≤ length r.buffer + length a)
  unfolding on_data_loop
  loop_keeps zero r s a r' s' inv small e = cc
  loop_keeps (suc f) r s [] r' s' inv small e =
      let (er, es) = keep-eq r r' s s' [] e in rw (er, es, append-nil) (inv, omega arith)
  loop_keeps (suc f) r s (c ∷ cs) r' s' inv small e =
      elim (mode-Round r.mode r s (c ∷ cs) _ refl inv (omega arith) e) [
        | body m called ↦
            (keeps r s _ inv (λ nl. cc) called, rw (buffer_kept r s _ called) (omega arith))
        | partial m no_break er es ↦
            rw (er, es) (inv, omega (arith, length-append r.buffer (c ∷ cs)))
        | line n r₁ s₁ m found called later ↦
            let (inv', le) =
              loop_keeps f (record r₁ { buffer = [] }) s₁ (drop n (c ∷ cs)) r' s'
                (line_keeps r s (c ∷ cs) n inv small found called)
                (omega (arith, length-drop n (c ∷ cs))) later in
            (inv', omega (arith, length-drop n (c ∷ cs)))
      ]

  pub loop_body :
      (f : ℕ) (r : Reader) (s : S) (c : ℕ) (cs : Bytes)
      → r.mode ≡ BufferMode.none
      → loop (suc f) r s (c ∷ cs) ≡ pass (on_buffered r s (c ∷ cs))
  unfolding on_data_loop
  loop_body f r s c cs m =
      ap (λ m. mode_case on_buffered m r s (c ∷ cs) [] (λ r' s'. loop f r' s')) m

  loop_newline :
      (f : ℕ) (r : Reader) (s : S) (c : ℕ) (cs : Bytes)
      → r.mode ≡ BufferMode.newline
      → loop (suc f) r s (c ∷ cs) ≡ newline_case on_buffered r s (c ∷ cs) [] (λ r' s'. loop f r' s')
  unfolding on_data_loop
  loop_newline f r s c cs m =
      ap (λ m. mode_case on_buffered m r s (c ∷ cs) [] (λ r' s'. loop f r' s')) m

  -- A line that ends in the data.
  pub loop_line :
      (f : ℕ) (r : Reader) (s : S) (c : ℕ) (cs : Bytes) (n : ℕ)
      → r.mode ≡ BufferMode.newline
      → length (c ∷ cs) < 2 ^ 64
      → find_newline (c ∷ cs) ≡ some n
      → loop (suc f) r s (c ∷ cs)
        ≡ deliver
            (on_buffered (line_reader r (c ∷ cs) n) s (r.buffer ++ take n (c ∷ cs)))
            (λ r' s'. loop f r' s' (drop n (c ∷ cs)))
  loop_line f r s c cs n m small found =
      let (one, within) = find_newline_bounds (c ∷ cs) n found in
      loop_newline f r s c cs m ∙ newline_case-some on_buffered r s (c ∷ cs) _ n found (omega arith)

  pub loop_partial :
      (f : ℕ) (r : Reader) (s : S) (c : ℕ) (cs : Bytes)
      → r.mode ≡ BufferMode.newline
      → find_newline (c ∷ cs) ≡ none
      → loop (suc f) r s (c ∷ cs) ≡ keep r s (c ∷ cs)
  loop_partial f r s c cs m no_break =
      loop_newline f r s c cs m ∙ newline_case_none on_buffered r s (c ∷ cs) _ no_break

  pub loop-Round :
      (f : ℕ) (r : Reader) (s : S) (c : ℕ) (cs : Bytes) {r' : Reader} {s' : S}
      → Inv r.mode s
      → length (c ∷ cs) < 2 ^ 64
      → loop (suc f) r s (c ∷ cs) ≡ returned false r' s'
      → Round r s (c ∷ cs) (λ r' s'. loop f r' s') r' s'
  unfolding on_data_loop
  loop-Round f r s c cs inv small e = mode-Round r.mode r s (c ∷ cs) _ refl inv small e

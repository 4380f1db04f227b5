-- ===== src/Http/Parsing/Reader/Split.antt =====
-- src/http/Response.cc: BufferedReader on bytes that come in two calls of OnData.
use native.Mathlib.Nat.{suc-add, add_assoc}
use rikitiki.Base.{
  HasNoNul, ℕ, zero, suc, ◌+◌, ◌^◌, ◌<◌, Bool, false, [], ◌∷◌, ◌++◌, Option, none, some, ◌≡◌, ◌≢◌,
  refl, sym, ap, subst, ◌∙◌, inl, inr, arith, Bytes, length, take, drop, length-drop, length-append,
  Option-cases, append-nil, append_assoc,
}
use rikitiki.Http.Parsing.{BufferMode, size_max}
use rikitiki.Http.Parsing.Reader.{
  Reader, Outcome, returned, find_newline, pass, on_data_loop, on_data,
}
use rikitiki.Http.Parsing.Reader.Fuel.{
  IsDone, find_newline_bounds, on_data_loop-add, deliver-Refines, on_data-IsDone,
}
use rikitiki.Http.Parsing.Reader.Cut.{
  IsCut, find_newline-append_none, find_newline-append_later, find_newline-append_some, IsCut-drop,
  HasNoNul-drop, take-append, drop-append, take-add, drop-add,
}
use rikitiki.Http.Parsing.Reader.Round
use rikitiki.Http.Parsing.Reader.Round.{StreamClient, Round, line_reader, body, partial, line}

module _ {S : Type 0} (on_buffered : Reader → S → Bytes → Option (Reader × S × Bool))
    (client : StreamClient on_buffered) where
  open client use {line.{Inv, never_length, keeps}, buffer_kept, additive}

  abbrev loop : ℕ → Reader → S → Bytes → Outcome S
  loop f r s d = on_data_loop on_buffered f r s d []

  -- The handler is called on the same line, whether its first part was buffered or not.
  line_reader-append :
      (r : Reader) (a b : Bytes) (n : ℕ)
      → line_reader r (a ++ b) (length a + n)
        ≡ line_reader (record r { buffer = r.buffer ++ a }) b n
  line_reader-append r a b n =
      rw (take-add a b n, length-append r.buffer a, append_assoc, add_assoc) refl

  -- The line that `a` begins ends in the next data.
  append_line :
      (f g : ℕ) (r : Reader) (s : S) (c : ℕ) (cs : Bytes) (x : ℕ) (xs : Bytes) (n : ℕ)
      → r.mode ≡ BufferMode.newline
      → length (c ∷ cs) + length (x ∷ xs) < 2 ^ 64
      → HasNoNul (c ∷ cs)
      → find_newline (c ∷ cs) ≡ none
      → find_newline (x ∷ xs) ≡ some n
      → IsDone (loop (suc g) (record r { buffer = r.buffer ++ c ∷ cs }) s (x ∷ xs))
      → loop (suc (g + f)) r s ((c ∷ cs) ++ x ∷ xs)
        ≡ loop (suc g) (record r { buffer = r.buffer ++ c ∷ cs }) s (x ∷ xs)
  append_line f g r s c cs x xs n m small nul no_break found done =
      let r' = record r { buffer = r.buffer ++ c ∷ cs } in
      let right = Round.loop_line on_buffered client g r' s x xs n m (omega arith) found in
      Round.loop_line on_buffered client (g + f) r s c (cs ++ x ∷ xs) (length (c ∷ cs) + n) m
        (omega (arith, length-append (c ∷ cs) (x ∷ xs)))
        (find_newline-append_later (c ∷ cs) (x ∷ xs) n nul no_break found)
      ∙ rw
          (
            line_reader-append r (c ∷ cs) (x ∷ xs) n,
            take-add (c ∷ cs) (x ∷ xs) n,
            drop-add (c ∷ cs) (x ∷ xs) n,
            ← append_assoc r.buffer (c ∷ cs) (take n (x ∷ xs)),
          )
          (deliver-Refines on_buffered _ (λ r'' s''. loop g r'' s'' (drop n (x ∷ xs)))
            (λ r'' s''. loop (g + f) r'' s'' (drop n (x ∷ xs)))
            (λ r'' s''. on_data_loop-add on_buffered g f r'' s'' (drop n (x ∷ xs)))
            (subst IsDone right done))
      ∙ sym right

  append_partial :
      (f g : ℕ) (r : Reader) (s : S) (c : ℕ) (cs : Bytes) (x : ℕ) (xs : Bytes)
      → r.mode ≡ BufferMode.newline
      → length (c ∷ cs) + length (x ∷ xs) < 2 ^ 64
      → HasNoNul (c ∷ cs)
      → find_newline (c ∷ cs) ≡ none
      → IsDone (loop (suc g) (record r { buffer = r.buffer ++ c ∷ cs }) s (x ∷ xs))
      → loop (suc (g + f)) r s ((c ∷ cs) ++ x ∷ xs)
        ≡ loop (suc g) (record r { buffer = r.buffer ++ c ∷ cs }) s (x ∷ xs)
  append_partial f g r s c cs x xs m small nul no_break done =
      elim (Option-cases (find_newline (x ∷ xs))) [
        | inl none_later ↦
            Round.loop_partial on_buffered client (g + f) r s c (cs ++ x ∷ xs) m
              (find_newline-append_none (c ∷ cs) (x ∷ xs) nul no_break none_later)
            ∙ ap (λ t. returned false (record r { buffer = t }) s)
                (sym (append_assoc r.buffer (c ∷ cs) (x ∷ xs)))
            ∙ sym (
                Round.loop_partial on_buffered client g (record r { buffer = r.buffer ++ c ∷ cs }) s
                  x xs m none_later)
        | inr (n, found) ↦ append_line f g r s c cs x xs n m small nul no_break found done
      ]

  loop-append :
      (f g : ℕ) (r : Reader) (s : S) (a : Bytes) (x : ℕ) (xs : Bytes) (r' : Reader) (s' : S)
      → Inv r.mode s
      → length r.buffer + length a + length (x ∷ xs) < size_max
      → HasNoNul a
      → IsCut a (x ∷ xs)
      → loop f r s a ≡ returned false r' s'
      → IsDone (loop (suc g) r' s' (x ∷ xs))
      → loop (suc (g + f)) r s (a ++ x ∷ xs) ≡ loop (suc g) r' s' (x ∷ xs)
  loop-append zero g r s a x xs r' s' inv small nul cut e done = unfold on_data_loop in cc
  loop-append (suc f) g r s [] x xs r' s' inv small nul cut e done =
      let (er, es) = Round.keep-eq on_buffered client r r' s s' [] (unfold on_data_loop in e) in
      let same : r ≡ r' = sym (er ∙ ap (λ t. record r { buffer = t }) (append-nil r.buffer)) in
      ap (λ q. loop (suc (g + suc f)) q s (x ∷ xs)) same
      ∙ ap (λ t. loop (suc (g + suc f)) r' t (x ∷ xs)) (sym es)
      ∙ (rw suc-add at (on_data_loop-add on_buffered (suc g) (suc f) r' s' (x ∷ xs) done))
  loop-append (suc f) g r s (c ∷ cs) x xs r' s' inv small nul cut e done =
      elim (Round.loop-Round on_buffered client f r s c cs inv (omega arith) e) [
        | body m called ↦
            let (m', same) = additive r s (c ∷ cs) (x ∷ xs) inv m called in
            Round.loop_body on_buffered client (g + suc f) r s c (cs ++ x ∷ xs) m
            ∙ ap pass same
            ∙ sym (Round.loop_body on_buffered client g r' s' x xs m')
        | partial m no_break er es ↦
            rw (er, es)
              (append_partial (suc f) g r s c cs x xs m (omega arith) nul no_break
                (rw (er, es) at done))
        | line n r₁ s₁ m found called later ↦
            let (one, within) = find_newline_bounds (c ∷ cs) n found in
            let round : g + suc f ≡ suc (g + f) = omega arith in
            let ih =
              loop-append f g (record r₁ { buffer = [] }) s₁ (drop n (c ∷ cs)) x xs r' s'
                (Round.line_keeps on_buffered client r s (c ∷ cs) n inv (omega arith) found called)
                (omega (arith, length-drop n (c ∷ cs))) (HasNoNul-drop n (c ∷ cs) nul)
                (IsCut-drop n (c ∷ cs) (x ∷ xs) cut) later done in
            Round.loop_line on_buffered client (g + suc f) r s c (cs ++ x ∷ xs) n m
              (omega (arith, length-append (c ∷ cs) (x ∷ xs)))
              (find_newline-append_some (c ∷ cs) (x ∷ xs) n nul cut found)
            ∙ rw
                (
                  take-append n (c ∷ cs) (x ∷ xs) within,
                  drop-append n (c ∷ cs) (x ∷ xs) within,
                  called,
                  round,
                )
                ih
      ]

  -- Bytes that come in two calls of OnData, the first of which does not end the message, have the
  -- effect of one call on all of them. The first part holds no NUL, and the cut does not fall
  -- between two line break characters.
  pub on_data-append :
      (r : Reader) (s : S) (a b : Bytes) (r' : Reader) (s' : S)
      → Inv r.mode s
      → length r.buffer + length a + length b < size_max
      → HasNoNul a
      → b ≢ []
      → IsCut a b
      → on_data on_buffered r s a [] ≡ returned false r' s'
      → on_data on_buffered r s (a ++ b) [] ≡ on_data on_buffered r' s' b []
  unfolding on_data
  on_data-append r s a [] r' s' inv small nul ne cut e = absurd (ne refl)
  on_data-append r s a (x ∷ xs) r' s' inv small nul ne cut e =
      let (inv', le) =
        Round.loop_keeps on_buffered client (suc (length a)) r s a r' s' inv (omega arith) e in
      let total =
        on_data-IsDone on_buffered client.line r s (a ++ x ∷ xs) inv
          (omega (arith, length-append a (x ∷ xs))) in
      let second = on_data-IsDone on_buffered client.line r' s' (x ∷ xs) inv' (omega arith) in
      let rounds : suc (length (a ++ x ∷ xs)) + 1 ≡ suc (suc (length xs) + suc (length a)) =
        omega (arith, length-append a (x ∷ xs)) in
      sym (
        on_data_loop-add on_buffered (suc (length (a ++ x ∷ xs))) 1 r s (a ++ x ∷ xs)
          (unfold on_data in total))
      ∙ rw rounds (
          loop-append (suc (length a)) (suc (length xs)) r s a x xs r' s' inv small nul cut e
            (unfold on_data in second))

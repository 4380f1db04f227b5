-- ===== src/Configuration/Expansion.antt =====
-- src/configuration/configuration.cc: what expand_variables and performSubstitutions come to.
use rikitiki.Base.StringMap.{StringMap, insert}
use rikitiki.Base.{
  ℕ, zero, suc, ◌+◌, ◌<◌, ◌≤◌, [], Option, none, some, ◌≡◌, ◌≢◌, refl, ap, ◌∙◌, arith, Bytes, c_str,
  length, Option-cases, inl, inr, HasNoNul, c_str_whole,
}
use rikitiki.Configuration.{
  Expanded, expanded, undefined, out_of_fuel, Inserted, inserted, past_end, no_last, insert_at_back,
  append_variable, close_round, go_on, Round, next, ends, expand_round, expand_loop,
  expand_variables, find_open_decl, find_close, Setting, Settings, text, aggregate, other,
  none_left, setting, substituted, perform_substitutions, substitute_all, store, aggregate_of,
  and_then, behind,
}
use rikitiki.Configuration.Scan.{find_open_decl-bounds, find_close-bounds}

-- A round that goes on, goes on behind the place where its declaration opened.
abbrev RoundsOn : (size open_decl : ℕ) → Round → Type 0
RoundsOn size open_decl (next exp last) = (open_decl < last) × (last ≤ size)
RoundsOn size open_decl (ends e) = e ≢ out_of_fuel

append_variable-RoundsOn :
    (size k close_decl : ℕ) (i : Inserted) (variable : Bytes)
    → k ≤ close_decl
    → close_decl < size
    → RoundsOn size k (append_variable i variable close_decl)
unfolding append_variable
append_variable-RoundsOn size k close_decl (inserted exp) variable h lt = omega (arith, h, lt)
append_variable-RoundsOn size k close_decl past_end variable h lt = λ e. cc e
append_variable-RoundsOn size k close_decl no_last variable h lt = λ e. cc e

module _ (variables : StringMap Bytes) (value : Bytes) where
  close_round-RoundsOn :
      (found : Option ℕ) (last k : ℕ) (exp : Bytes)
      → find_close value (some k) ≡ found
      → k < length value
      → RoundsOn (length value) k (close_round variables value found last k exp)
  unfolding close_round
  close_round-RoundsOn none last k exp e lt = λ e. cc e
  close_round-RoundsOn (some c) last k exp e lt =
      let (behind, inside) = find_close-bounds value k c lt e in
      append_variable-RoundsOn (length value) k c _ _ behind inside

  loop-go_on :
      (fuel last k : ℕ) (r : Round) (loop : ℕ → Bytes → Expanded)
      → ((last' : ℕ) (exp : Bytes)
          → k < last'
          → last' ≤ length value
          → loop last' exp ≢ out_of_fuel)
      → RoundsOn (length value) k r
      → go_on r loop ≢ out_of_fuel
  loop-go_on fuel last k (next exp last') loop h (behind, inside) = h last' exp behind inside
  loop-go_on fuel last k (ends e) loop h on = on

  expand_loop-ne-out_of_fuel :
      (fuel last : ℕ) (exp : Bytes)
      → 0 < fuel
      → length value < fuel + last
      → expand_loop variables value fuel last exp ≢ out_of_fuel
  unfolding expand_loop expand_round
  expand_loop-ne-out_of_fuel zero last exp some_left enough = absurd (omega (arith, some_left))
  expand_loop-ne-out_of_fuel (suc fuel) last exp some_left enough =
      elim (Option-cases (find_open_decl value last)) [
        | inl done ↦ rw (done, expand_loop) (λ e. cc e)
        | inr (k, opens) ↦
            let (behind, inside) = find_open_decl-bounds value last k opens in
            rw (opens, expand_loop)
              (loop-go_on fuel last k (expand_round variables value last k exp)
                (expand_loop variables value fuel)
                (λ last' exp' lt le.
                  expand_loop-ne-out_of_fuel fuel last' exp' (omega (arith, enough, behind, lt, le))
                    (omega (arith, enough, behind, lt)))
                (close_round-RoundsOn (find_close value (some k)) last k exp refl inside))
      ]

  -- expand_variables comes to an end, with a text, an exception or no defined result, whatever
  -- variables, value and text it is called with.
  pub expand_variables-ne-out_of_fuel :
      (exp : Bytes) → expand_variables variables value exp ≢ out_of_fuel
  unfolding expand_variables
  expand_variables-ne-out_of_fuel exp =
      expand_loop-ne-out_of_fuel (suc (length value)) 0 exp (omega arith) (omega arith)

  close_round_empty :
      (found : Option ℕ) (last k : ℕ) → close_round variables value found last k [] ≡ ends undefined
  unfolding close_round insert_at_back append_variable
  close_round_empty none last k = refl
  close_round_empty (some c) last k = refl

  -- On an empty text, as performSubstitutions calls it, expand_variables copies a value in which no
  -- declaration opens, up to a NUL, and has no defined result for one in which a declaration opens.
  pub expand_variables_empty :
      expand_variables variables value []
      ≡ elim (find_open_decl value 0) [ none ↦ expanded (c_str value) | some k ↦ undefined ]
  unfolding expand_variables expand_loop expand_round
  expand_variables_empty = elim (Option-cases (find_open_decl value 0)) [
    | inl done ↦ rw (done, expand_loop) refl
    | inr (k, opens) ↦
        rw (opens, expand_loop)
          (ap (λ r. go_on r (expand_loop variables value (length value)))
            (close_round_empty (find_close value (some k)) 0 k))
  ]

-- Settings whose texts open no declaration and hold no NUL.
abbrev IsPlainText : Bytes → Type 0
IsPlainText value = (find_open_decl value 0 ≡ none) × HasNoNul value

unfoldable mutual
  pub IsPlain : Setting → Type 0
  IsPlain (text path value) = IsPlainText value
  IsPlain (aggregate ss) = ArePlain ss
  IsPlain other = Unit

  pub ArePlain : Settings → Type 0
  ArePlain none_left = Unit
  ArePlain (setting s ss) = IsPlain s × ArePlain ss

-- The texts stored under their paths, in the order of the settings.
unfoldable mutual
  unfolding insert

  pub recorded : StringMap Bytes → Setting → StringMap Bytes
  recorded variables (text path value) = insert path value variables
  recorded variables (aggregate ss) = all_recorded variables ss
  recorded variables other = variables

  pub all_recorded : StringMap Bytes → Settings → StringMap Bytes
  all_recorded variables none_left = variables
  all_recorded variables (setting s ss) = all_recorded (recorded variables s) ss

expand_plain :
    (variables : StringMap Bytes) (value : Bytes)
    → IsPlainText value
    → expand_variables variables value [] ≡ expanded value
expand_plain variables value (closed, no_nul) =
    expand_variables_empty variables value ∙ rw closed (ap expanded (c_str_whole value no_nul))

mutual
  unfolding perform_substitutions substitute_all IsPlain ArePlain recorded all_recorded

  perform-recorded :
      (variables : StringMap Bytes) (s : Setting)
      → IsPlain s
      → perform_substitutions variables s ≡ substituted (recorded variables s) s
  perform-recorded variables (text path value) h =
      ap (store variables path) (expand_plain variables value h)
  perform-recorded variables (aggregate ss) h =
      ap aggregate_of (substitute_all-recorded variables ss h)
  perform-recorded variables other h = refl

  substitute_all-recorded :
      (variables : StringMap Bytes) (ss : Settings)
      → ArePlain ss
      → substitute_all variables ss ≡ substituted (all_recorded variables ss) ss
  substitute_all-recorded variables none_left h = refl
  substitute_all-recorded variables (setting s ss) (h, hs) =
      ap (λ r. and_then r (λ v. substitute_all v ss)) (perform-recorded variables s h)
      ∙ ap (behind s) (substitute_all-recorded (recorded variables s) ss hs)

-- performSubstitutions leaves a tree of settings as it is, and stores each text under its path, where
-- no text opens a declaration or holds a NUL.
pub perform_substitutions-recorded :
    (variables : StringMap Bytes) (s : Setting)
    → IsPlain s
    → perform_substitutions variables s ≡ substituted (recorded variables s) s
perform_substitutions-recorded variables s h = perform-recorded variables s h

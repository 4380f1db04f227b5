-- ===== src/Http/Response/StartLine.antt =====
-- src/http/Response.cc: SetStartline on what Startline writes.
use native.Mathlib.Nat.{mod-eq_of_lt}
use rikitiki.Base.Decimal.{decimal, decimal-IsDigits, is_digit}
use rikitiki.Base.Strtol.{strtol, Parsed, strtol-decimal}
use rikitiki.Base.{
  ◌<◌, ◌^◌, true, false, [], ◌∷◌, ◌++◌, some, ◌≡◌, ◌≢◌, refl, sym, ap, ◌∙◌, arith, inl, inr, Bytes,
  codes, c_str, isspace, All, Bool-cases, c_str_whole, HasNoNul, All-append, append_assoc,
}
use rikitiki.Http.Status.{HttpStatus}
use rikitiki.Http.Response.{
  all_space, pop_spaces, strip, after_blank, name_of, set_startline, startline,
}

-- A reason phrase: not empty, no NUL, and no blank at its end.
pub record IsReason (name : Bytes) : Type 0 where
  pub no_nul : HasNoNul name
  pub trimmed : pop_spaces name ≡ name
  pub not_empty : name ≢ []

all_space-append : (s sp : Bytes) → all_space sp ≡ true → all_space (s ++ sp) ≡ all_space s
all_space-append [] sp h = h
all_space-append (c ∷ s) sp h = ground (arith, all_space-append s sp h)

pop_spaces_blank : (sp : Bytes) → all_space sp ≡ true → pop_spaces sp ≡ []
pop_spaces_blank [] h = refl
pop_spaces_blank (c ∷ sp) h = rw h

pop_spaces-append : (s sp : Bytes) → all_space sp ≡ true → pop_spaces (s ++ sp) ≡ pop_spaces s
pop_spaces-append [] sp h = pop_spaces_blank sp h
pop_spaces-append (c ∷ s) sp h = rw (all_space-append (c ∷ s) sp h, pop_spaces-append s sp h) refl

reason-not-space : (name : Bytes) → IsReason name → all_space name ≡ false
reason-not-space name h = elim (Bool-cases (all_space name)) [
  | inl blank ↦ absurd (h.not_empty (sym h.trimmed ∙ pop_spaces_blank name blank))
  | inr text ↦ text
]

strip_line : (name : Bytes) → IsReason name → strip (name ++ codes "\r\n") ≡ some name
strip_line name h =
    let crlf : all_space (codes "\r\n") ≡ true = (unfold isspace in refl) in
    let text : all_space (name ++ codes "\r\n") ≡ false =
      all_space-append name (codes "\r\n") crlf ∙ reason-not-space name h in
    let popped : pop_spaces (name ++ codes "\r\n") ≡ name =
      pop_spaces-append name (codes "\r\n") crlf ∙ h.trimmed in
    unfold strip in rw text (ap some popped)

digits-HasNoNul : (s : Bytes) → All (λ c. is_digit c ≡ true) s → HasNoNul s
digits-HasNoNul [] h = tt
digits-HasNoNul (c ∷ s) (d, h) = (ground arith, digits-HasNoNul s h)

number_line : HttpStatus → Bytes
number_line s = decimal s.status ++ (codes " " ++ (s.name ++ codes "\r\n"))

number_line-HasNoNul : (s : HttpStatus) → IsReason s.name → HasNoNul (number_line s)
unfolding number_line
number_line-HasNoNul s h =
    All-append _ (decimal s.status) _ (digits-HasNoNul _ (decimal-IsDigits s.status))
      (omega arith, All-append _ s.name (codes "\r\n") h.no_nul (omega arith))

after_blank-startline : (s : HttpStatus) → after_blank (startline s ++ codes "\r\n") ≡ number_line s
unfolding after_blank startline number_line
after_blank-startline s = append_assoc (decimal s.status) (codes " " ++ s.name) (codes "\r\n")

name_of_line :
    (s : HttpStatus)
    → s.status < 2 ^ 16
    → IsReason s.name
    → name_of s.status (codes " " ++ (s.name ++ codes "\r\n")) ≡ some (record s { managed = false })
unfolding name_of
name_of_line s small h = rw (strip_line s.name h, name_of, mod-eq_of_lt small)

-- Reading the start line that a response writes gives its status back: the same code and the same
-- name, in an object that is not managed. The code is a uint16_t, and the name is not empty, holds
-- no NUL and has no blank at its end.
pub set_startline-startline :
    (old s : HttpStatus)
    → s.status < 2 ^ 16
    → IsReason s.name
    → set_startline old (startline s ++ codes "\r\n") ≡ some (record s { managed = false })
set_startline-startline old s small h =
    let line = startline s ++ codes "\r\n" in
    let rest = codes " " ++ (s.name ++ codes "\r\n") in
    let parsed : strtol 10 (c_str (after_blank line)) ≡ record { value = s.status; rest = rest } =
      ap (λ t. strtol 10 (c_str t)) (after_blank-startline s)
      ∙ ap (strtol 10) (c_str_whole (number_line s) (number_line-HasNoNul s h))
      ∙ (unfold number_line in strtol-decimal s.status rest (omega arith) refl) in
    let read : set_startline old line ≡ name_of s.status rest =
      unfold set_startline in ap (λ (p : Parsed). name_of p.value p.rest) parsed in
    read ∙ name_of_line s small h

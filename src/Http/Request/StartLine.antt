-- ===== src/Http/Request/StartLine.antt =====
-- src/http/Request.cc: start lines read, and the one that a request writes.
use rikitiki.Base.{
  ℕ, [], ◌∷◌, ◌++◌, none, some, ◌≡◌, ◌≢◌, refl, ap, ◌∙◌, arith, Bytes, codes, c_str, find_char, All,
  All-append, take-length, length, ne→==,
}
use rikitiki.Http.RequestMethod.{RequestMethod, to_string, from_string}
use rikitiki.Http.Request.{Addresses, startline, set_startline}

module _ (k : ℕ) where
  find_char_none : (s : Bytes) → All (λ c. c ≢ k) s → find_char k s ≡ none
  find_char_none [] h = refl
  find_char_none (c ∷ s) (ne, h) = rw (ne→== c k ne, find_char_none s h) refl

  find_char-append :
      (s rest : Bytes) → All (λ c. c ≢ k) s → find_char k (s ++ k ∷ rest) ≡ some (length s)
  find_char-append [] rest h = ground arith
  find_char-append (c ∷ s) rest (ne, h) = rw (ne→== c k ne, find_char-append s rest h) refl

set_startline_word :
    (s rest : Bytes)
    → All (λ c. c ≢ b' ') s
    → set_startline (s ++ (codes " " ++ rest)) ≡ some (from_string (c_str s))
unfolding set_startline
set_startline_word s rest h =
    rw (find_char-append b' ' s rest h, set_startline) (rw (take-length s (32 ∷ rest)) refl)

pub name-plain :
    (m : RequestMethod) → All (λ c. c ≢ b' ') (to_string m) × (c_str (to_string m) ≡ to_string m)
unfolding to_string
name-plain RequestMethod.any = (omega arith, refl)
name-plain _ = (omega arith, refl)

-- OTHER is written as ANY.
abbrev pub known : RequestMethod → RequestMethod
known RequestMethod.other = RequestMethod.any
known m = m

pub from_string-known : (m : RequestMethod) → from_string (to_string m) ≡ known m
unfolding to_string from_string
from_string-known RequestMethod.other = refl
from_string-known _ = refl

-- An address as a stream prints it, such as 0x55d0c8: no blank.
abbrev pub HasNoBlank : Bytes → Type 0
HasNoBlank = All (λ c. c ≢ b' ')

pub record IsPrinted (at : Addresses) : Type 0 where
  pub blank : HasNoBlank at.blank
  pub version : HasNoBlank at.version

no_blank : (line : Bytes) → HasNoBlank line → set_startline line ≡ none
unfolding set_startline
no_blank line h = rw (find_char_none b' ' line h, set_startline) refl

-- A start line in the form of HTTP, a method's name, a blank and whatever follows, is read as that method,
-- where OTHER, which is written as ANY, comes back as ANY. The start line that Startline writes for a URI
-- without a blank is not in this form: it holds no blank, and reading it has no defined result. What
-- is assumed is that a printed address holds no blank.
pub set_startline-startline_method :
    (at : Addresses) (m : RequestMethod) (uri rest : Bytes)
    → IsPrinted at
    → HasNoBlank (c_str uri)
    → (set_startline (to_string m ++ (codes " " ++ rest)) ≡ some (known m))
      × (set_startline (startline at m uri) ≡ none)
set_startline-startline_method at m uri rest printed path = (
  set_startline_word (to_string m) rest (name-plain m).0
      ∙ ap some (ap from_string (name-plain m).1 ∙ from_string-known m),
  no_blank (startline at m uri) (
      unfold startline in
      All-append _ (to_string m) _ (name-plain m).0 (
        All-append _ at.blank _ printed.blank
          (All-append _ (c_str uri) at.version path printed.version))),
)

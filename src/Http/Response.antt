-- ===== src/Http/Response.antt =====
-- src/http/Response.cc, include/rikitiki/http/Response.h: a response's status, and its start line
-- written and read. The status is held by pointer to a static member or to an object of its own;
-- the model holds the value, whose field `managed` tells which.
pub mod StartLine
use rikitiki.Base.Decimal.{decimal}
use rikitiki.Base.Strtol.{strtol, Parsed}
use rikitiki.Base.{
  ℕ, suc, ◌+◌, ◌%◌, ◌^◌, Bool, true, false, List, [], ◌∷◌, ◌++◌, Option, none, some, ◌≡◌, refl,
  if◌then◌else◌, Bytes, codes, c_str, isspace, find_char, drop,
}
use rikitiki.Http.Status
use rikitiki.Http.Status.{HttpStatus}

-- The constructor's status.
abbrev pub new_status : HttpStatus
new_status = Status.ok

-- `while (iswspace(s[s.length() - 1])) s.pop_back();` on a text of blanks goes on past its
-- beginning, which has no result.
abbrev pub all_space : Bytes → Bool
all_space [] = true
all_space (c ∷ cs) = if isspace c then all_space cs else false

abbrev pub pop_spaces : Bytes → Bytes
pop_spaces [] = []
pop_spaces (c ∷ cs) = if all_space (c ∷ cs) then [] else c ∷ pop_spaces cs

unfoldable pub strip : Bytes → Option Bytes
strip s = if all_space s then none else some (pop_spaces s)

-- The text behind the first blank, or all of it where there is none.
after_blank : Bytes → Bytes
after_blank s = elim (find_char b' ' s) [ none ↦ s | some i ↦ drop (suc i) s ]

-- The name begins one byte behind the number; a number at the end of the line leaves none.
name_of : ℕ → Bytes → Option HttpStatus
unfolding strip
name_of code [] = none
name_of code (c ∷ cs) = elim (strip cs) [
  | none ↦ none
  | some name ↦ some (record { status = code % 2 ^ 16; name = name; managed = false })
]

-- Response::SetStartline, read up to a NUL: the new status, which is not managed.
unfoldable pub set_startline : HttpStatus → Bytes → Option HttpStatus
unfolding after_blank name_of strtol isspace
set_startline old line =
    let number = strtol 10 (c_str (after_blank line)) in name_of number.value number.rest

-- Response::Startline
unfoldable pub startline : HttpStatus → Bytes
startline s = codes "HTTP/1.1 " ++ (decimal s.status ++ (codes " " ++ s.name))

-- ~Response deletes a status that is not managed.
unfoldable pub deletes_status : HttpStatus → Bool
deletes_status s = if s.managed then false else true

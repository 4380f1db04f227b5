-- ===== src/Base/Text.antt =====
-- Text as bytes, and what the program uses of <cstring>, <cctype>, std::string and the word
-- extraction of a stream: strcmp, c_str, isspace, find, rfind, `s >> word`.
use Prim.Native.Nat.{ℕ, suc}
use Prim.Native.Char.{code}
use Prim.Native.String.{String}
use mathlib.Core.Path.{◌≡◌, refl, ap}
use mathlib.Core.Logic.{◌↔◌}
use mathlib.Core.Option
use mathlib.Core.Option.{Option, none, some}
use mathlib.Core.Bool.{Bool, true, false, ◌&&◌, ◌||◌}
use mathlib.Core.List.{List, [], ◌∷◌, ◌++◌}
use native.Mathlib.Omega.{arith}
use mathlib.Core.Logic.{◌≢◌}
use rikitiki.Base.Tests.{leb, ◌==◌, if◌then◌else◌, ne→==}
use rikitiki.Base.Lists.{All}

abbrev pub Bytes : Type 0
Bytes = List ℕ

-- The bytes of an ASCII literal.
abbrev pub codes : String → Bytes
codes String.[] = []
codes (String.◌∷◌ c s) = code c ∷ codes s

-- strcmp(a, b) == 0, and operator== on std::string.
unfoldable pub equal : Bytes → Bytes → Bool
equal [] [] = true
equal [] (y ∷ ys) = false
equal (x ∷ xs) [] = false
equal (x ∷ xs) (y ∷ ys) = x == y && equal xs ys

pub equal_iff : (a b : Bytes) → (equal a b ≡ true) ↔ (a ≡ b)
unfolding equal
equal_iff [] [] = ground arith
equal_iff [] (y ∷ b) = ground arith
equal_iff (x ∷ a) [] = ground arith
equal_iff (x ∷ a) (y ∷ b) = ground (arith, equal_iff a b)

pub equal_refl : (a : Bytes) → equal a a ≡ true
equal_refl a = (equal_iff a a).1 refl

-- What a reader of the char* sees: the bytes up to the first NUL.
abbrev pub c_str : Bytes → Bytes
c_str [] = []
c_str (c ∷ cs) = if c == 0 then [] else c ∷ c_str cs

abbrev pub HasNoNul : Bytes → Type 0
HasNoNul = All (λ c. c ≢ 0)

pub c_str-append : (xs ys : Bytes) → HasNoNul xs → c_str (xs ++ ys) ≡ xs ++ c_str ys
c_str-append [] ys h = refl
c_str-append (c ∷ xs) ys (ne, h) = rw (ne→== c 0 ne) (ap (◌∷◌ c) (c_str-append xs ys h))

pub c_str_whole : (s : Bytes) → HasNoNul s → c_str s ≡ s
c_str_whole [] h = refl
c_str_whole (c ∷ s) (ne, h) = rw (ne→== c 0 ne, c_str_whole s h)

-- isspace in the C locale.
unfoldable pub isspace : ℕ → Bool
isspace c = c == 32 || (leb 9 c && leb c 13)

abbrev pub skip_spaces : Bytes → Bytes
skip_spaces [] = []
skip_spaces (c ∷ cs) = if isspace c then skip_spaces cs else c ∷ cs

abbrev pub word : Bytes → Bytes
word [] = []
word (c ∷ cs) = if isspace c then [] else c ∷ word cs

-- s.find(c) for one character.
abbrev pub find_char : ℕ → Bytes → Option ℕ
find_char k [] = none
find_char k (c ∷ cs) = if c == k then some 0 else Option.map suc (find_char k cs)

-- s.rfind(c) and s.find_last_of(c) for one character.
abbrev pub rfind_char : ℕ → Bytes → Option ℕ
rfind_char k [] = none
rfind_char k (c ∷ cs) = elim (rfind_char k cs) [
  | some i ↦ some (suc i)
  | none ↦ if c == k then some 0 else none
]

abbrev pub starts_with : Bytes → Bytes → Bool
starts_with [] s = true
starts_with (p ∷ ps) [] = false
starts_with (p ∷ ps) (c ∷ cs) = p == c && starts_with ps cs

-- s.find(p) for a text.
abbrev pub find : Bytes → Bytes → Option ℕ
find p [] = if starts_with p [] then some 0 else none
find p (c ∷ cs) = if starts_with p (c ∷ cs) then some 0 else Option.map suc (find p cs)

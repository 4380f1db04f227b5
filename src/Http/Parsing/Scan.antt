-- ===== src/Http/Parsing/Scan.antt =====
-- include/rikitiki/http/parsing/Utils.h, and the copies of it in src/http/Response.cc: the scans over
-- one line. A pair of pointers `data`, `end` is the text between them; what is returned is the
-- text behind the new position.
use rikitiki.Base.{
  ℕ, ◌+◌, Bool, false, not, ◌||◌, [], ◌∷◌, ◌++◌, ◌≡◌, ◌≢◌, refl, ap, ◌==◌, if◌then◌else◌, Bytes,
  codes, isspace, All, ne→==,
}

abbrev pub is_blank : ℕ → Bool
is_blank c = c == b' ' || c == b'\t'

abbrev pub is_newline : ℕ → Bool
is_newline c = c == b'\r' || c == b'\n'

pub skip_whitespace : Bytes → Bytes
skip_whitespace [] = []
skip_whitespace (c ∷ cs) = if is_blank c then skip_whitespace cs else c ∷ cs

pub skip_nonwhitespace : Bytes → Bytes
skip_nonwhitespace [] = []
skip_nonwhitespace (c ∷ cs) = if not (isspace c) then skip_nonwhitespace cs else c ∷ cs

-- expectLinefeed: how many line breaks stand in front, and the text behind them.
pub expect_linefeed : Bytes → ℕ × Bytes
expect_linefeed [] = (0, [])
expect_linefeed (c ∷ cs) =
    let (n, rest) = expect_linefeed cs in if is_newline c then (n + 1, rest) else (0, c ∷ cs)

abbrev in_name : ℕ → Bool
in_name c = not (isspace c || c == b':')

header_name : Bytes → Bytes
header_name [] = []
header_name (c ∷ cs) = if in_name c then c ∷ header_name cs else []

to_colon : Bytes → Bytes
to_colon [] = []
to_colon (c ∷ cs) = if not (c == b':') then to_colon cs else c ∷ cs

skip_colons : Bytes → Bytes
skip_colons [] = []
skip_colons (c ∷ cs) = if c == b':' then skip_colons cs else c ∷ cs

-- readHeaderName: the name, and the text from the value on. The colon is looked for from the end
-- of the name, which holds none.
after_name : Bytes → Bytes
after_name [] = []
after_name (c ∷ cs) = if in_name c then after_name cs else c ∷ cs

unfoldable pub read_header_name : Bytes → Bytes × Bytes
unfolding header_name after_name to_colon skip_colons skip_whitespace
read_header_name s = (header_name s, skip_whitespace (skip_colons (to_colon (after_name s))))

header_value : Bytes → Bytes
header_value [] = []
header_value (c ∷ cs) = if not (is_newline c) then c ∷ header_value cs else []

after_value : Bytes → Bytes
after_value [] = []
after_value (c ∷ cs) = if not (is_newline c) then after_value cs else c ∷ cs

unfoldable pub read_header_value : Bytes → Bytes × Bytes
unfolding header_value after_value
read_header_value s = (header_value s, after_value s)

word_text : Bytes → Bytes
word_text [] = []
word_text (c ∷ cs) = if not (isspace c) then c ∷ word_text cs else []

unfoldable pub read_word : Bytes → Bytes × Bytes
unfolding word_text skip_whitespace skip_nonwhitespace
read_word s = let s' = skip_whitespace s in (word_text s', skip_whitespace (skip_nonwhitespace s'))

-- Text that a header's name, and its value, can be: a name holds no blank, line break or colon, and
-- a value holds no line break and does not begin with a blank.
abbrev pub IsHeaderName : Bytes → Type 0
IsHeaderName = All (λ c. (isspace c ≡ false) × (c ≢ b':'))

abbrev pub begins_blank : Bytes → Bool
begins_blank [] = false
begins_blank (c ∷ cs) = is_blank c

abbrev pub IsHeaderValue : Bytes → Type 0
IsHeaderValue v = All (λ c. is_newline c ≡ false) v × (begins_blank v ≡ false)

header_name-append : (n rest : Bytes) → IsHeaderName n → header_name (n ++ (b':' ∷ rest)) ≡ n
unfolding header_name isspace
header_name-append [] rest h = refl
header_name-append (c ∷ n) rest ((s, colon), h) =
    rw (s, ne→== c 58 colon) (ap (◌∷◌ c) (header_name-append n rest h))

after_name-append :
    (n rest : Bytes) → IsHeaderName n → after_name (n ++ (b':' ∷ rest)) ≡ b':' ∷ rest
unfolding after_name isspace
after_name-append [] rest h = refl
after_name-append (c ∷ n) rest ((s, colon), h) =
    rw (s, ne→== c 58 colon) (after_name-append n rest h)

skip_whitespace_text : (v : Bytes) → begins_blank v ≡ false → skip_whitespace v ≡ v
unfolding skip_whitespace
skip_whitespace_text [] b = refl
skip_whitespace_text (c ∷ v) b = rw b

header_value-append :
    (v rest : Bytes) → All (λ c. is_newline c ≡ false) v → header_value (v ++ (b'\r' ∷ rest)) ≡ v
unfolding header_value
header_value-append [] rest h = refl
header_value-append (c ∷ v) rest (p, h) = rw p (ap (◌∷◌ c) (header_value-append v rest h))

after_value-append :
    (v rest : Bytes)
    → All (λ c. is_newline c ≡ false) v
    → after_value (v ++ (b'\r' ∷ rest)) ≡ b'\r' ∷ rest
unfolding after_value
after_value-append [] rest h = refl
after_value-append (c ∷ v) rest (p, h) = rw p (after_value-append v rest h)

-- The text of a header line behind its name, as OMessageWriter::WriteHeader writes it.
abbrev pub header_line : Bytes → Bytes → Bytes
header_line n v = n ++ (codes ": " ++ (v ++ codes "\r\n"))

begins_blank-append :
    (v : Bytes) → begins_blank v ≡ false → begins_blank (v ++ codes "\r\n") ≡ false
begins_blank-append [] b = refl
begins_blank-append (c ∷ v) b = b

-- readHeaderName takes the name from a header line and stops where the value begins. The name holds no
-- blank, line break or colon, and the value holds no line break and does not begin with a blank.
pub read_header_name_line :
    (n v : Bytes)
    → IsHeaderName n
    → IsHeaderValue v
    → read_header_name (header_line n v) ≡ (n, v ++ codes "\r\n")
unfolding read_header_name
read_header_name_line n v h (plain, b) =
    rw (header_name-append n _ h, after_name-append n _ h)
      (ap (λ t. (n, t)) (skip_whitespace_text _ (begins_blank-append v b)))

-- readHeaderValue takes the value and stops at the line break.
pub read_header_value_line :
    (v : Bytes) → IsHeaderValue v → read_header_value (v ++ codes "\r\n") ≡ (v, codes "\r\n")
unfolding read_header_value
read_header_value_line v (plain, b) =
    rw (header_value-append v _ plain, after_value-append v _ plain)

-- ===== src/Routing.antt =====
-- include/rikitiki/routing.tcc, src/routing.cc: routes, and modern_sscanf, which reads a route's
-- arguments from a URI. The extraction of an argument by `>>` depends on its type: an argument's
-- extractor is a parameter, into one type `V` of values; the one for strings is the code's own.
pub mod Scan
use rikitiki.Base.{
  ℕ, suc, ◌+◌, Bool, true, false, Option, none, some, not, ◌&&◌, ◌||◌, List, [], ◌∷◌, ◌++◌, ◌==◌,
  leb, ltb, if◌then◌else◌, Bytes, c_str, equal, length,
}
use rikitiki.Http.RequestMethod.{RequestMethod, any}
use rikitiki.Http.RequestMethod

-- A std::stringstream that is read: what is left, and its eof and fail bits.
pub record Stream : Type 0 where
  pub left : Bytes
  pub eof : Bool
  pub fail : Bool

abbrev pub new_stream : Bytes → Stream
new_stream s = record { left = s; eof = false; fail = false }

abbrev pub is_good : Stream → Bool
is_good b = not (b.eof || b.fail)

-- What peek gives: a byte, or EOF where the text is at its end or the stream is not good.
pub data Peeked : Type 0 where
  byte : ℕ → Peeked
  end_of_file : Peeked

abbrev peek_text : Stream → Bytes → Peeked × Stream
peek_text b [] = (end_of_file, record b { eof = true })
peek_text b (c ∷ cs) = (byte c, b)

unfoldable pub peek : Stream → Peeked × Stream
peek b = if is_good b then peek_text b b.left else (end_of_file, record b { fail = true })

abbrev get_text : Stream → Bytes → Peeked × Stream
get_text b [] = (end_of_file, record b { eof = true; fail = true })
get_text b (c ∷ cs) = (byte c, record b { left = cs })

unfoldable pub get : Stream → Peeked × Stream
get b = if is_good b then get_text b b.left else (end_of_file, record b { fail = true })

-- unget behind a get of `c`: the eof bit is cleared first; a stream that has failed stays as it is.
unfoldable pub unget : Peeked → Stream → Stream
unget (byte c) b =
    if b.fail then record b { eof = false } else record b { left = c ∷ b.left; eof = false }
unget end_of_file b = record b { eof = false; fail = true }

-- `b.peek() != *format` compares int values: a char from 128 up is negative.
abbrev pub is_format : Peeked → ℕ → Bool
is_format (byte c) f = c == f && ltb f 128
is_format end_of_file f = false

-- `(char)b.peek()`, where EOF is the char 255.
abbrev pub char_of : Peeked → ℕ
char_of (byte c) = c
char_of end_of_file = 255

-- skip_to_format: whether it was found, the stream and the format behind it. At the end of the
-- format nothing matches its NUL.
pub skip_to_format : Stream → Bytes → Bool × Stream × Bytes
unfolding peek get
skip_to_format b [] = (false, (peek b).1, [])
skip_to_format b (f ∷ fs) =
    let (seen, b') = peek b in
    let rest = skip_to_format (get b').1 fs in
    if f == b'{' then (true, b, f ∷ fs) else if is_format seen f then rest else (false, b', f ∷ fs)

pub skip_to_unformat : Bytes → Bytes
skip_to_unformat [] = []
skip_to_unformat (f ∷ fs) = let rest = skip_to_unformat fs in if f == b'}' then fs else rest

abbrev pub is_accepted : ℕ → Bool
is_accepted v =
    (leb b'0' v && leb v b';')
    || (leb b'@' v && leb v b'Z')
    || (leb b'_' v && leb v b'z')
    || v == b'%'
    || v == b'-'

-- The loop of extract on a stream that is good.
pub extract_text : Bytes → Bytes → Bytes × Stream
unfolding get unget
extract_text t [] = (t, unget end_of_file (get (new_stream [])).1)
extract_text t (c ∷ cs) =
    let more = extract_text (t ++ c ∷ []) cs in
    if is_accepted c then more else (t, unget (byte c) (new_stream cs))

abbrev is_empty : Bytes → Bool
is_empty [] = true
is_empty (c ∷ cs) = false

-- extract<string>
unfoldable pub extract : Stream → Bytes → Bool × Bytes × Stream
unfolding extract_text
extract b t =
    let (t', b') = extract_text t b.left in
    if is_good b then (not (is_empty t'), t', b') else (not (is_empty t), t, b)

-- modern_sscanf without arguments: 1 where format and stream end together.
pub scan_end : Stream → Bytes → ℕ
unfolding peek get
scan_end b [] = if char_of (peek b).0 == 255 then 1 else 0
scan_end b (f ∷ fs) =
    let (seen, b') = peek b in
    let b'' = (get b').1 in
    let rest = scan_end b'' fs in
    if b.eof then 0 else if char_of seen == f then (if is_good b'' then rest else 0) else 0

abbrev pub Extractor : Type 0 → Type 0
Extractor V = Stream → Bool × V × Stream

module _ {V : Type 0} where
  -- modern_sscanf with an argument for each extractor: how many parts were read, and the arguments.
  pub modern_sscanf : Stream → Bytes → List (Extractor V) → ℕ × List V
  unfolding skip_to_format skip_to_unformat scan_end
  modern_sscanf b format [] = (scan_end b format, [])
  modern_sscanf b format (e ∷ es) =
      let (found, b', format') = skip_to_format b format in
      let (read, v, b'') = e b' in
      let (n, vs) = modern_sscanf b'' (skip_to_unformat format') es in
      if found then (if read then (suc n, v ∷ vs) else (0, v ∷ [])) else (0, [])

-- The extractor of a string argument, which is empty before.
abbrev pub string_argument : Stream → Bool × Bytes × Stream
string_argument b = extract b []

pub record Route : Type 0 where
  pub route : Bytes
  pub method : RequestMethod

-- The enumeration's values, by which methods are compared.
abbrev pub number : RequestMethod → ℕ
number any = 0
number RequestMethod.get = 1
number RequestMethod.post = 2
number RequestMethod.head = 3
number RequestMethod.put = 4
number RequestMethod.delete = 5
number RequestMethod.trace = 6
number RequestMethod.options = 7
number RequestMethod.connect = 8
number RequestMethod.patch = 9
number RequestMethod.other = 10

-- The negation of `method != ANY && method != ctx.RequestMethod()`.
abbrev pub has_method : Route → RequestMethod → Bool
has_method r m = number r.method == 0 || number r.method == number m

module _ {V : Type 0} where
  -- Route_<P, T...>::Scan: whether all parts of the route were read from the URI, and the arguments.
  unfoldable pub scan : Route → List (Extractor V) → Bytes → Bool × List V
  unfolding modern_sscanf
  scan r es uri =
      let (n, vs) = modern_sscanf (new_stream (c_str uri)) (c_str r.route) es in
      (n == length es + 1, vs)

  -- Route_<P, T...>::CanHandle
  unfoldable pub can_handle : Route → List (Extractor V) → RequestMethod → Bytes → Bool
  unfolding scan
  can_handle r es m uri = if has_method r m then (scan r es uri).0 else false

  -- Route_<P, T...>::Handle: the arguments that the parent's function is called with, if it is called.
  unfoldable pub handle : Route → List (Extractor V) → RequestMethod → Bytes → Option (List V)
  unfolding scan
  handle r es m uri =
      let (matched, vs) = scan r es uri in
      if has_method r m then (if matched then some vs else none) else none

-- Route_<P>::CanHandle, without arguments.
unfoldable pub can_handle_exact : Route → RequestMethod → Bytes → Bool
unfolding equal
can_handle_exact r m uri = equal (c_str r.route) (c_str uri) && has_method r m

-- ===== src/Http/Message/Setters.antt =====
-- src/http/Message.cc: what is read back after a setter.
use rikitiki.Base.{
  ℕ, ◌^◌, ◌<◌, [], ◌∷◌, some, ◌≡◌, ◌≢◌, refl, ap, ◌∙◌, arith, if◌then◌else◌, Bytes, codes, c_str,
  All, equal, Bool, true, ◌&&◌, ltb, c_str_whole, All-map,
}
use rikitiki.Base.Decimal.{decimal, read_size-decimal, decimal-IsDigits, is_digit}
use rikitiki.Base.StringMap.{StringMap, lookup, insert, lookup-insert}
use rikitiki.Http.ContentType.{ContentType}
use rikitiki.Http.ContentType
use rikitiki.Http.Encoding.{Encoding}
use rikitiki.Http.Parsing.{size_max}
use rikitiki.Http.Header.{Utf, HeaderCollection, set, get_size, get_encoding}
use rikitiki.Http.Incoming.{content_length, transfer_encoding}
use rikitiki.Http.Message.{Message, content_type, set_content_length, set_content_type}

-- What mxcomp documents of its conversions: ASCII text comes back as it was.
pub record IsUtf (utf : Utf) : Type 0 where
  pub ascii : (s : Bytes) → All (λ c. c < 128) s → utf.narrow (utf.widen s) ≡ s

abbrev IsAscii : Bytes → Type 0
IsAscii = All (λ c. (c ≢ 0) × (c < 128))

digits-IsAscii : (s : Bytes) → All (λ c. is_digit c ≡ true) s → IsAscii s
digits-IsAscii s h = All-map (λ c d. (ground (arith, d), ground (arith, d))) s h

is_ascii : Bytes → Bool
is_ascii [] = true
is_ascii (c ∷ cs) = ltb 0 c && ltb c 128 && is_ascii cs

is_ascii-IsAscii : (s : Bytes) → is_ascii s ≡ true → IsAscii s
unfolding is_ascii
is_ascii-IsAscii [] h = tt
is_ascii-IsAscii (c ∷ cs) h =
    let test : (ltb 0 c && ltb c 128 && is_ascii cs) ≡ true = h in
    ((ground (arith, test), ground (arith, test)), is_ascii-IsAscii cs (ground (arith, test)))

is_ascii-to_string : (t : ContentType) → is_ascii (ContentType.to_string t) ≡ true
unfolding ContentType.to_string is_ascii
is_ascii-to_string ContentType.default = refl
is_ascii-to_string _ = refl

name-IsAscii : (t : ContentType) → IsAscii (ContentType.to_string t)
name-IsAscii t = is_ascii-IsAscii (ContentType.to_string t) (is_ascii-to_string t)

length-IsAscii : IsAscii (codes "Content-Length")
unfolding is_ascii
length-IsAscii = is_ascii-IsAscii (codes "Content-Length") refl

type-IsAscii : IsAscii (codes "Content-Type")
unfolding is_ascii
type-IsAscii = is_ascii-IsAscii (codes "Content-Type") refl

-- The getters look at one header.
module _ (a b : HeaderCollection) where
  get_size-lookup :
      (name : Bytes) (def : ℕ)
      → lookup name a ≡ lookup name b
      → get_size name def a ≡ get_size name def b
  unfolding get_size
  get_size-lookup name def h = rw (h, get_size) refl

  get_encoding-lookup :
      (name : Bytes) (def : Encoding)
      → lookup name a ≡ lookup name b
      → get_encoding name def a ≡ get_encoding name def b
  unfolding get_encoding
  get_encoding-lookup name def h = rw (h, get_encoding) refl

content_type-lookup :
    (m m' : Message) (types : StringMap ContentType)
    → lookup (codes "contenttype") m.headers ≡ lookup (codes "contenttype") m'.headers
    → content_type m types ≡ content_type m' types
unfolding content_type
content_type-lookup m m' types h = rw (h, content_type) refl

module _ (utf : Utf) (is_utf : IsUtf utf) where
  keeps : (s : Bytes) → IsAscii s → utf.narrow (utf.widen (c_str s)) ≡ s
  keeps s h =
      ap (λ t. utf.narrow (utf.widen t)) (c_str_whole s (All-map (λ c p. p.0) s h))
      ∙ is_utf.ascii s (All-map (λ c p. p.1) s h)

  set_ascii :
      (name value : Bytes) (m : HeaderCollection)
      → IsAscii name
      → IsAscii value
      → set utf name value m ≡ insert name value m
  unfolding set
  set_ascii name value m h k = rw (keeps name h, keeps value k) refl

  set_content_length-headers :
      (n : ℕ) (m : Message)
      → (set_content_length utf n m).headers ≡ insert (codes "Content-Length") (decimal n) m.headers
  unfolding set_content_length
  set_content_length-headers n m =
      set_ascii (codes "Content-Length") (decimal n) m.headers length-IsAscii
        (digits-IsAscii (decimal n) (decimal-IsDigits n))

  set_content_type-headers :
      (t : ContentType) (m : Message)
      → (set_content_type utf t m).headers
        ≡ insert (codes "Content-Type") (ContentType.to_string t) m.headers
  unfolding set_content_type
  set_content_type-headers t m =
      set_ascii (codes "Content-Type") (ContentType.to_string t) m.headers type-IsAscii
        (name-IsAscii t)

  lookup-set_content_length :
      (n : ℕ) (m : Message) (j : Bytes)
      → lookup j (set_content_length utf n m).headers
        ≡ (if equal j (codes "Content-Length") then some (decimal n) else lookup j m.headers)
  lookup-set_content_length n m j =
      rw (set_content_length-headers n m)
        (lookup-insert j (codes "Content-Length") (decimal n) m.headers)

  lookup-set_content_type :
      (t : ContentType) (m : Message) (j : Bytes)
      → lookup j (set_content_type utf t m).headers ≡ (
          if equal j (codes "Content-Type")
          then some (ContentType.to_string t)
          else lookup j m.headers)
  lookup-set_content_type t m j =
      rw (set_content_type-headers t m)
        (lookup-insert j (codes "Content-Type") (ContentType.to_string t) m.headers)

  content_length_set :
      (n : ℕ) (m : Message) → n < 2 ^ 64 → content_length (set_content_length utf n m).headers ≡ n
  unfolding get_size equal
  content_length_set n m h =
      rw (lookup-set_content_length n m (codes "Content-Length"), get_size)
        (read_size-decimal size_max n h)

  -- A length below 2 ^ 64 that is set is the one read back, and setting it changes neither the
  -- transfer encoding nor the body; setting a content type leaves the length, the transfer encoding
  -- and the body as they are, and also the content type that the message tells, since that is read
  -- from a header of another name; where the conversions between UTF-8 and wide text keep ASCII.
  pub content_length-set_content_length :
      (n : ℕ) (t : ContentType) (m : Message) (types : StringMap ContentType)
      → n < 2 ^ 64
      → let m' : Message = set_content_length utf n m in
        let m'' : Message = set_content_type utf t m in
        (content_length m'.headers ≡ n)
        × (transfer_encoding m'.headers ≡ transfer_encoding m.headers)
        × (m'.body ≡ m.body)
        × (content_length m''.headers ≡ content_length m.headers)
        × (transfer_encoding m''.headers ≡ transfer_encoding m.headers)
        × (m''.body ≡ m.body)
        × (content_type m'' types ≡ content_type m types)
  unfolding set_content_length set_content_type equal
  content_length-set_content_length n t m types h =
      let m' : Message = set_content_length utf n m in
      let m'' : Message = set_content_type utf t m in
      (
        content_length_set n m h,
        get_encoding-lookup m'.headers m.headers (codes "Transfer-Encoding") Encoding.unknown
            (lookup-set_content_length n m (codes "Transfer-Encoding")),
        refl,
        get_size-lookup m''.headers m.headers (codes "Content-Length") size_max
            (lookup-set_content_type t m (codes "Content-Length")),
        get_encoding-lookup m''.headers m.headers (codes "Transfer-Encoding") Encoding.unknown
            (lookup-set_content_type t m (codes "Transfer-Encoding")),
        refl,
        content_type-lookup m'' m types (lookup-set_content_type t m (codes "contenttype")),
      )

-- ===== src/Http/Encoding.antt =====
-- src/http/Enums.cc, include/rikitiki/http/Enums.h: the transfer encodings. ToString asserts false,
-- so a build with assertions stops there; it has no result in the model.
use rikitiki.Base.{
  Bool, true, false, Option, none, ◌≡◌, refl, if◌then◌else◌, Bytes, codes, equal, c_str, word,
  skip_spaces, isspace,
}

pub data Encoding : Type 0 where
  unknown chunked compress deflate gzip identity other : Encoding

unfoldable pub from_string : Bytes → Encoding
unfolding equal
from_string str =
    if equal str (codes "chunked")
    then chunked
    else if equal str (codes "compress")
    then compress
    else if equal str (codes "deflate")
    then deflate
    else if equal str (codes "gzip")
    then gzip
    else if equal str (codes "identity")
    then identity
    else other

unfoldable pub to_string : Encoding → Option Bytes
to_string e = none

-- `s >> e`: the next word of the stream, which is empty at the end, up to a NUL.
unfoldable pub read : Bytes → Encoding
unfolding from_string isspace
read s = from_string (c_str (word (skip_spaces s)))

unfoldable pub is_chunked : Encoding → Bool
is_chunked chunked = true
is_chunked unknown = false
is_chunked compress = false
is_chunked deflate = false
is_chunked gzip = false
is_chunked identity = false
is_chunked other = false

read_examples : (read (codes " chunked") ≡ chunked) × (read (codes "gzip, chunked") ≡ other)
unfolding read
read_examples = (refl, refl)

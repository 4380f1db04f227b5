-- ===== src/Http/RequestMethod.antt =====
-- src/http/Enums.cc, include/rikitiki/http/Enums.h: the request methods and their names. The two
-- overloads of FromString are one ladder over characters, narrow and wide; the log lines are left out.
use rikitiki.Base.{◌≡◌, refl, ◌≢◌, arith, if◌then◌else◌, Bytes, codes, equal, equal_iff}

pub data RequestMethod : Type 0 where
  any get post head put delete trace options connect patch other : RequestMethod

unfoldable pub to_string : RequestMethod → Bytes
to_string get = codes "GET"
to_string post = codes "POST"
to_string head = codes "HEAD"
to_string put = codes "PUT"
to_string delete = codes "DELETE"
to_string trace = codes "TRACE"
to_string options = codes "OPTIONS"
to_string connect = codes "CONNECT"
to_string patch = codes "PATCH"
to_string any = codes "ANY"
to_string other = codes "ANY"

unfoldable pub from_string : Bytes → RequestMethod
unfolding equal
from_string method =
    if equal method (codes "GET")
    then get
    else if equal method (codes "POST")
    then post
    else if equal method (codes "HEAD")
    then head
    else if equal method (codes "PUT")
    then put
    else if equal method (codes "DELETE")
    then delete
    else if equal method (codes "TRACE")
    then trace
    else if equal method (codes "OPTIONS")
    then options
    else if equal method (codes "CONNECT")
    then connect
    else if equal method (codes "PATCH")
    then patch
    else any

-- Every method but `other` is read back from its own name.
pub from_string-to_string : (m : RequestMethod) → m ≢ other → from_string (to_string m) ≡ m
unfolding from_string to_string
from_string-to_string any h = refl
from_string-to_string other h = absurd (h refl)
from_string-to_string _ h = refl

-- A name that is read as a method other than `any` is that method's name, letter for letter.
pub to_string-from_string :
    (s : Bytes) (m : RequestMethod) → from_string s ≡ m → m ≢ any → to_string m ≡ s
unfolding from_string to_string
to_string-from_string s m h ne = ground (
  arith,
  equal_iff s (codes "GET"),
  equal_iff s (codes "POST"),
  equal_iff s (codes "HEAD"),
  equal_iff s (codes "PUT"),
  equal_iff s (codes "DELETE"),
  equal_iff s (codes "TRACE"),
  equal_iff s (codes "OPTIONS"),
  equal_iff s (codes "CONNECT"),
  equal_iff s (codes "PATCH"),
)

-- ===== src/Http/Request.antt =====
-- src/http/Request.cc, include/rikitiki/http/Request.h: the start line of a request, written and read.
-- The method and the URI are held by the derived class; URI() gives a char*.
pub mod StartLine
use rikitiki.Base.{
  ℕ, suc, List, [], ◌∷◌, ◌++◌, Option, none, some, Bytes, codes, c_str, find_char, rfind_char, take,
}
use rikitiki.Http.RequestMethod.{RequestMethod, to_string, from_string}

-- What the narrow stream prints for L" " and L" HTTP/1.1". No operator for wide texts is declared in
-- Request.cc, so the standard one for pointers prints their addresses.
pub record Addresses : Type 0 where
  pub blank : Bytes
  pub version : Bytes

-- Request::Startline
unfoldable pub startline : Addresses → RequestMethod → Bytes → Bytes
unfolding to_string
startline at method uri = to_string method ++ (at.blank ++ (c_str uri ++ at.version))

-- Request::SetStartline: the method that SetRequestMethod is called with. The URI is cut out of the
-- line and not used. A line without a blank has no text before it.
unfoldable pub set_startline : Bytes → Option RequestMethod
unfolding from_string
set_startline line = elim (find_char b' ' line) [
  | none ↦ none
  | some first ↦ some (from_string (c_str (take first line)))
]

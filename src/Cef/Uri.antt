-- ===== src/Cef/Uri.antt =====
-- src/cef/connContext.cc: what a request says whose address the program has made itself.
use mathlib.Core.Option
use rikitiki.Base.{List, ◌∷◌, ◌++◌, append_assoc, ◌≡◌, Bytes, codes}
use rikitiki.Cef.{Request}
use rikitiki.Http.Header.Query.{query_of}
use rikitiki.Http.RequestMethod.{RequestMethod}
use rikitiki.Url.Parts.{address}

abbrev query : List (Bytes × Bytes) → Bytes
query ps = b'?' ∷ query_of ps

-- The place of the question mark.
abbrev before_query : (p h path : Bytes) → Bytes
before_query p h path = address p h (b'/' ∷ path)

cut-query : (p h path q : Bytes) → address p h (b'/' ∷ (path ++ q)) ≡ before_query p h path ++ q
cut-query p h path q = simp append_assoc

-- The address up to the host.
abbrev pub server_of : (p h : Bytes) → Bytes
server_of p h = p ++ (codes "://" ++ h)

module _ (p h path : Bytes) (ps : List (Bytes × Bytes)) where
  abbrev path_query : Bytes
  path_query = (b'/' ∷ path) ++ query ps

-- ===== src/Tests.antt =====
-- Runs of the operations, and each property at a concrete input: the requests, header lists and
-- responses that a client and a server of the library would exchange.
pub mod Routes
pub mod Forms
pub mod Messages
pub mod Sockets
pub mod Serving
pub mod Settings
pub mod Requests
pub mod Bindings
pub mod Browser
use mathlib.Core.List.{foldl}
use rikitiki.Base.Decimal.{decimal}
use rikitiki.Base.StringMap.{lookup}
use rikitiki.Base.{
  ℕ, List, [], ◌∷◌, ◌++◌, Option, some, ◌≡◌, refl, arith, Bytes, codes, isspace, true, false,
}
use rikitiki.Http.RequestMethod
use rikitiki.Http.Header.{get_list}
use rikitiki.Http.Header.Csv.{add_all, IsEntry, get_list-add_all}
use rikitiki.Http.Header.Query.{from_query_string, query_of, store, from_query_string-query_of}
use rikitiki.Http.Parsing.Scan.{
  read_header_name, read_header_value, header_line, read_header_name_line, read_header_value_line,
}
use rikitiki.Http.Response.{set_startline, startline}
use rikitiki.Http.Response.StartLine.{IsReason, set_startline-startline}
use rikitiki.Http.Status
use rikitiki.Http.Status.{HttpStatus}

gzip-IsEntry : IsEntry (codes "gzip")
gzip-IsEntry = (omega arith, refl, refl, λ e. cc e)

br-IsEntry : IsEntry (codes "br")
br-IsEntry = (omega arith, refl, refl, λ e. cc e)

get_list-add_all_example :
    get_list (codes "Accept") (add_all (codes "Accept") (codes "gzip" ∷ codes "br" ∷ []) [])
    ≡ some (codes "gzip" ∷ codes "br" ∷ [])
unfolding lookup
get_list-add_all_example =
    get_list-add_all (codes "Accept") (codes "gzip") (codes "br" ∷ []) [] refl gzip-IsEntry
      (br-IsEntry, tt)

from_query_string-query_of_example :
    from_query_string (codes "a=1&b=2&a=3") []
    ≡ foldl store [] ((codes "a", codes "1") ∷ (codes "b", codes "2") ∷ (codes "a", codes "3") ∷ [])
from_query_string-query_of_example =
    from_query_string-query_of
      ((codes "a", codes "1") ∷ (codes "b", codes "2") ∷ (codes "a", codes "3") ∷ []) []
      (omega arith)

not_found-IsReason : IsReason (codes "Not Found")
not_found-IsReason = record {
  no_nul = omega arith;
  trimmed = unfold isspace in refl;
  not_empty = λ e. cc e;
}

set_startline-startline_example :
    set_startline Status.ok (codes "HTTP/1.1 404 Not Found\r\n")
    ≡ some (record { status = 404; name = codes "Not Found"; managed = false })
set_startline-startline_example =
    unfold startline decimal in
    set_startline-startline Status.ok
      (record { status = 404; name = codes "Not Found"; managed = true }) (omega arith)
      not_found-IsReason

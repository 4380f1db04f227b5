-- ===== src/Contents.antt =====
-- src/connContext.cc, include/rikitiki/http/Header.h: form contents, which mapContents splits into names
-- and values, and PostCollection, a multimap: pairs in the order of the names, equal names in the
-- order of insertion. A failed assertion is `none`.
pub mod Escape
pub mod Form
use rikitiki.Base.Strtol.{strtol}
use rikitiki.Base.StringMap.{less}
use rikitiki.Base.{
  ℕ, ◌%◌, Bool, true, false, List, [], ◌∷◌, ◌++◌, Option, none, some, ◌==◌, if◌then◌else◌, Bytes,
  c_str, equal, map,
}

abbrev pub PostCollection : Type 0
PostCollection = List (Bytes × Bytes)

-- PostCollection::insert
pub insert : Bytes × Bytes → PostCollection → PostCollection
insert p [] = p ∷ []
insert p (q ∷ qs) = let rest = insert p qs in if less p.0 q.0 then p ∷ q ∷ qs else q ∷ rest

-- multimap::hasValue: whether the name is there, and what `rtn` holds afterwards.
unfoldable pub has_value : Bytes → Bytes → PostCollection → Bool × Bytes
unfolding equal
has_value key rtn [] = (false, rtn)
has_value key rtn ((k, v) ∷ post) = if equal key k then (true, v) else has_value key rtn post

-- The loop of unescapeString: `%` and two bytes, both before the end, are a hexadecimal number.
unfoldable pub unescape_text : Bytes → Bytes
unescape_text (c ∷ a ∷ b ∷ rest) =
    let decoded = unescape_text rest in
    let plain = unescape_text (a ∷ b ∷ rest) in
    if c == b'%' then (strtol 16 (c_str (a ∷ b ∷ []))).value % 256 ∷ decoded else c ∷ plain
unescape_text s = s

-- unescapeString asserts that the text is not empty.
unfoldable pub unescape_string : Bytes → Option Bytes
unfolding unescape_text
unescape_string [] = none
unescape_string (c ∷ cs) = some (unescape_text (c ∷ cs))

-- The loop of mapContents: the text since `l_it`, the name and the collection. The name stays for a
-- value without one.
pub record Mapping : Type 0 where
  pub segment : Bytes
  pub name : Bytes
  pub post : PostCollection

abbrev add_value : Mapping → Option Bytes → Option Mapping
add_value m none = none
add_value m (some value) = some (record m { segment = []; post = insert (m.name, value) m.post })

unfoldable pub map_step : Mapping → ℕ → Option Mapping
unfolding unescape_string insert
map_step m c =
    if c == b'='
    then some (record m { segment = []; name = m.segment })
    else if c == b'&'
    then add_value m (unescape_string m.segment)
    else some (record m { segment = m.segment ++ c ∷ [] })

unfoldable pub map_loop : Mapping → Bytes → Option PostCollection
map_loop m [] = some m.post
map_loop m (c ∷ cs) = elim (map_step m c) [ none ↦ none | some m' ↦ map_loop m' cs ]

abbrev pub ends_ampersand : Bytes → Bool
ends_ampersand [] = false
ends_ampersand (c ∷ []) = c == b'&'
ends_ampersand (c ∷ d ∷ ds) = ends_ampersand (d ∷ ds)

abbrev pub with_ampersand : Bytes → Bytes
with_ampersand s = if ends_ampersand s then s else s ++ b'&' ∷ []

abbrev pub plus_to_space : Bytes → Bytes
plus_to_space = map (λ c. if c == b'+' then b' ' else c)

-- mapContents
unfoldable pub map_contents : Bytes → PostCollection → Option PostCollection
unfolding map_loop map_step
map_contents [] post = some post
map_contents (c ∷ cs) post =
    map_loop (record { segment = []; name = []; post = post })
      (plus_to_space (with_ampersand (c ∷ cs)))

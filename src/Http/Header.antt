-- ===== src/Http/Header.antt =====
-- src/http/Header.cc, include/rikitiki/http/Header.h: headers, cookies and their collections. The
-- collections are std::map, kept as `StringMap`. mxcomp's UTF-8 conversions, which Set goes
-- through, are a parameter.
pub mod Csv
pub mod Query
use rikitiki.Base.StringMap.{StringMap, lookup, insert, get_or, lookup-insert}
use rikitiki.Base.Decimal.{decimal, read_size}
use rikitiki.Base.{
  ℕ, Bool, true, false, ◌&&◌, List, [], ◌∷◌, ◌++◌, Option, none, some, ◌≡◌, refl, arith, ◌==◌,
  if◌then◌else◌, Bytes, codes, c_str, equal,
}
use rikitiki.Http.Encoding
use rikitiki.Http.Encoding.{Encoding}

-- mxcomp::utf::convert, from UTF-8 to wide characters and back.
pub record Utf : Type 0 where
  pub widen : Bytes → List ℕ
  pub narrow : List ℕ → Bytes

pub record Cookie : Type 0 where
  pub first : Bytes
  pub second : Bytes

pub record Header : Type 0 where
  pub first : Bytes
  pub second : Bytes

abbrev attribute : Bytes → Bytes → Bytes
attribute name value = if equal value [] then [] else name ++ (value ++ codes "; ")

-- The Domain attribute is written also when it is empty.
unfoldable pub cookie :
    (name value domain path expires : Bytes) → (secure http_only : Bool) → Cookie
cookie name value domain path expires secure http_only = record {
  first = name;
  second =
      value
      ++ (codes "; "
          ++ (codes "Domain="
              ++ (domain
                  ++ (codes "; "
                      ++ (attribute (codes "Path=") path
                          ++ (attribute (codes "Expires=") expires
                              ++ ((if secure then codes "Secure; " else [])
                                  ++ (if http_only then codes "HttpOnly" else []))))))));
}

abbrev pub HeaderCollection : Type 0
HeaderCollection = StringMap Bytes

-- A second value of a name is joined to the first by a comma.
abbrev pub joined : Bytes → Bytes → Bytes
joined [] value = value
joined (c ∷ cs) value = (c ∷ cs) ++ (codes ", " ++ value)

unfoldable pub add : Bytes → Bytes → HeaderCollection → HeaderCollection
add name value m = insert name (joined (get_or name [] m) value) m

pub lookup-add :
    (j name value : Bytes) (m : HeaderCollection)
    → lookup j (add name value m)
      ≡ (if equal j name then some (joined (get_or name [] m) value) else lookup j m)
unfolding add
lookup-add j name value m = lookup-insert j name (joined (get_or name [] m) value) m

unfoldable pub set : Utf → Bytes → Bytes → HeaderCollection → HeaderCollection
set utf name value =
    insert (utf.narrow (utf.widen (c_str name))) (utf.narrow (utf.widen (c_str value)))

unfoldable pub set_size : Utf → Bytes → ℕ → HeaderCollection → HeaderCollection
unfolding set
set_size utf name value = set utf name (decimal value)

unfoldable pub get : Bytes → HeaderCollection → Option Bytes
get name m = lookup name m

-- Get<size_t> and Get<Encoding::t>: the default where the name is missing.
unfoldable pub get_size : Bytes → ℕ → HeaderCollection → ℕ
get_size name def m = elim (lookup name m) [ none ↦ def | some v ↦ read_size def v ]

unfoldable pub get_encoding : Bytes → Encoding → HeaderCollection → Encoding
get_encoding name def m = elim (lookup name m) [ none ↦ def | some v ↦ Encoding.read v ]

-- The text before a comma with the blanks at its end left off. The loop that steps back over
-- blanks has no bound: where the text is all blanks it looks at the byte before (`prev`). If that
-- is a blank too, or if there is none, the end comes to lie before the start, and no string is made.
abbrev pub all_blank : Bytes → Bool
all_blank [] = true
all_blank (c ∷ cs) = c == 32 && all_blank cs

abbrev pub trim_end : Bytes → Bytes
trim_end [] = []
trim_end (c ∷ cs) = if all_blank (c ∷ cs) then [] else c ∷ trim_end cs

pub field_of : Option ℕ → Bytes → Option Bytes
field_of prev field =
    if all_blank field
    then elim prev [ none ↦ none | some p ↦ if p == 32 then none else some [] ]
    else some (trim_end field)

abbrev pub cons_field : Option Bytes → Option (List Bytes) → Option (List Bytes)
cons_field (some v) (some vs) = some (v ∷ vs)
cons_field (some v) none = none
cons_field none vs = none

-- The loop of GetList at one byte: `skipping` while it steps over the blanks behind a comma,
-- `field` what it has read of the entry, `prev` the byte before the entry.
unfoldable pub get_list_from : Bool → Option ℕ → Bytes → Bytes → Option (List Bytes)
unfolding field_of
get_list_from skipping prev field [] = some (field ∷ [])
get_list_from skipping prev field (c ∷ cs) =
    let skip = get_list_from true (some 32) [] cs in
    let next = cons_field (field_of prev field) (get_list_from true (some b',') [] cs) in
    let more = get_list_from false prev (field ++ c ∷ []) cs in
    if skipping && c == 32 then skip else if c == b',' then next else more

-- `none` where the code has no defined result.
unfoldable pub get_list : Bytes → HeaderCollection → Option (List Bytes)
unfolding get_list_from
get_list name m = elim (lookup name m) [
  | none ↦ some []
  | some csv ↦ get_list_from false none [] (c_str csv)
]

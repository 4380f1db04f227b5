-- ===== src/Mongoose/Received.antt =====
-- src/mongoose/connContext.cc: what a request is made of.
use mathlib.Core.List.{foldl}
use rikitiki.Base.{
  ℕ, zero, suc, ◌<◌, List, [], ◌∷◌, ◌≡◌, ◌≢◌, refl, ap, ◌∙◌, Bytes, All, c_str_whole, take,
  HasNoNul,
}
use rikitiki.Http.Header.{Utf, HeaderCollection, add}
use rikitiki.Http.Header.Query.{
  IsPair, query_of, query_of-HasNoNul, store, from_query_string, from_query_string-query_of,
}
use rikitiki.Mongoose.{MongooseRequest, read_headers, read_query, new_request, request_method}
use rikitiki.Http.RequestMethod.{RequestMethod, to_string, from_string}
use rikitiki.Http.Request.StartLine.{known, name-plain, from_string-known}

-- What mxcomp documents of its conversion: an ASCII text's wide characters have its bytes' values.
pub record IsWidening (utf : Utf) : Type 0 where
  pub ascii : (s : Bytes) → All (λ c. c < 128) s → utf.widen s ≡ s

abbrev pub IsNamed : Bytes × Bytes → Type 0
IsNamed h = h.0 ≢ []

abbrev pub add_pairs : List (Bytes × Bytes) → HeaderCollection → HeaderCollection
add_pairs [] m = m
add_pairs ((name, value) ∷ hs) m = add_pairs hs (add name value m)

read_headers-add_pairs :
    (n : ℕ) (hs : List (Bytes × Bytes)) (m : HeaderCollection)
    → All IsNamed hs
    → read_headers n hs m ≡ add_pairs (take n hs) m
unfolding read_headers
read_headers-add_pairs zero hs m h = refl
read_headers-add_pairs (suc n) [] m h = refl
read_headers-add_pairs (suc n) (([], value) ∷ hs) m h = absurd (h.0 refl)
read_headers-add_pairs (suc n) ((c ∷ cs, value) ∷ hs) m h =
    read_headers-add_pairs n hs (add (c ∷ cs) value m) h.1

abbrev pub IsAsciiText : Bytes → Type 0
IsAsciiText = All (λ c. c < 128)

module _ (utf : Utf) (widening : IsWidening utf) where
  read_query-query_of :
      (ps : List (Bytes × Bytes))
      → All IsPair ps
      → IsAsciiText (query_of ps)
      → read_query utf (query_of ps) ≡ foldl store [] ps
  unfolding read_query
  read_query-query_of ps ok ascii =
      read_text (query_of ps) ascii (query_of-HasNoNul ps ok) ∙ from_query_string-query_of ps [] ok
    where
      read_text :
          (s : Bytes) → IsAsciiText s → HasNoNul s → read_query utf s ≡ from_query_string s []
      read_text [] h k = refl
      read_text (c ∷ cs) h k =
          ap (λ t. from_query_string (utf.widen t) []) (c_str_whole (c ∷ cs) k)
          ∙ ap (λ t. from_query_string t []) (widening.ascii (c ∷ cs) h)

  -- A request that mongoose hands over has its URI and its body; its query string and its body, where
  -- they are the text of pairs in ASCII, are stored pair by pair, a repeated name's value behind the
  -- earlier one; of its headers, all with a name, the first 40 are added in order; its method is the one
  -- that its name tells, where OTHER is ANY.
  pub new_request-received :
      (method : RequestMethod) (uri : Bytes) (ps form hs : List (Bytes × Bytes))
      → All IsPair ps
      → IsAsciiText (query_of ps)
      → All IsPair form
      → IsAsciiText (query_of form)
      → All IsNamed hs
      → let r : MongooseRequest = new_request utf (record {
        method = to_string method;
        uri = uri;
        query_string = query_of ps;
        headers = hs;
        body = query_of form;
      }) in
        (r.uri ≡ uri)
        × (r.body ≡ query_of form)
        × (r.qs ≡ foldl store [] ps)
        × (r.post ≡ foldl store [] form)
        × (r.headers ≡ add_pairs (take 40 hs) [])
        × (request_method r ≡ known method)
  unfolding new_request request_method
  new_request-received method uri ps form hs ok ascii form_ok form_ascii named = (
    refl,
    refl,
    read_query-query_of ps ok ascii,
    read_query-query_of form form_ok form_ascii,
    read_headers-add_pairs 40 hs [] named,
    ap from_string (name-plain method).1 ∙ from_string-known method,
  )

-- ===== src/Http/Header/Query.antt =====
-- src/http/Header.cc, include/rikitiki/http/Header.h: QueryStringCollection. The loop of
-- FromQueryString is a state machine; the pointer `val` into the map is the key it was taken for,
-- which no later write moves. It is null before the first `=` and is not read then.
use mathlib.Core.List.{foldl}
use native.Mathlib.Nat.{mod-eq_of_lt}
use rikitiki.Base.StringMap.{StringMap, lookup, insert, get_or, insert-insert, get_or-insert_self}
use rikitiki.Base.{
  ℕ, ◌%◌, ◌<◌, Bool, true, false, List, [], ◌∷◌, ◌++◌, none, some, ◌≡◌, ◌≢◌, refl, ap, ◌∙◌, arith,
  ◌==◌, if◌then◌else◌, Bytes, c_str, c_str_whole, HasNoNul, All, All-append, append-nil,
  append_assoc,
}

abbrev pub QueryStringCollection : Type 0
QueryStringCollection = StringMap Bytes

pub record QueryParser : Type 0 where
  pub name : Bytes
  pub val : Bytes
  pub name_mode : Bool
  pub items : QueryStringCollection

-- Appending a wide character to a std::string keeps its low byte.
abbrev pub to_char : ℕ → ℕ
to_char c = c % 256

name_step : QueryParser → ℕ → QueryParser
name_step p c =
    if c == b'='
    then record p {
      name_mode = false;
      val = p.name;
      items = insert p.name (get_or p.name [] p.items) p.items;
    }
    else if c == b'&'
    then record p { items = insert p.name [] p.items; name = [] }
    else record p { name = p.name ++ to_char c ∷ [] }

value_step : QueryParser → ℕ → QueryParser
value_step p c =
    if c == b'&'
    then record p { name_mode = true; name = [] }
    else record p { items = insert p.val (get_or p.val [] p.items ++ to_char c ∷ []) p.items }

pub query_step : QueryParser → ℕ → QueryParser
unfolding name_step value_step
query_step p c = if p.name_mode then name_step p c else value_step p c

pub query_loop : QueryParser → List ℕ → QueryParser
query_loop p [] = p
query_loop p (c ∷ cs) = query_loop (query_step p c) cs

-- The wide text up to its NUL, read into a collection.
unfoldable pub from_query_string : List ℕ → QueryStringCollection → QueryStringCollection
unfolding query_loop query_step
from_query_string qs m =
    (query_loop (record { name = []; val = []; name_mode = true; items = m }) (c_str qs)).items

-- hasValue: whether the name is there, and what `value` holds afterwards.
unfoldable pub has_value : Bytes → Bytes → QueryStringCollection → Bool × Bytes
has_value name value m = elim (lookup name m) [ none ↦ (false, value) | some v ↦ (true, v) ]

-- The query string of a list of pairs.
abbrev pub more_pairs : List (Bytes × Bytes) → Bytes
more_pairs [] = []
more_pairs ((k, v) ∷ ps) = b'&' ∷ (k ++ (b'=' ∷ (v ++ more_pairs ps)))

abbrev pub query_of : List (Bytes × Bytes) → Bytes
query_of [] = []
query_of ((k, v) ∷ ps) = k ++ (b'=' ∷ (v ++ more_pairs ps))

-- A value is appended to what the name holds already.
abbrev pub store : QueryStringCollection → Bytes × Bytes → QueryStringCollection
store m (k, v) = insert k (get_or k [] m ++ v) m

abbrev pub IsValue : Bytes → Type 0
IsValue = All (λ c. (c ≢ b'&') × (c ≢ 0) × (c < 256))

abbrev pub IsName : Bytes → Type 0
IsName = All (λ c. (c ≢ b'=') × (c ≢ b'&') × (c ≢ 0) × (c < 256))

abbrev pub IsPair : Bytes × Bytes → Type 0
IsPair (k, v) = IsName k × IsValue v

step_in_name :
    (p : QueryParser) (c : ℕ)
    → p.name_mode ≡ true
    → c ≢ b'='
    → c ≢ b'&'
    → c < 256
    → query_step p c ≡ record p { name = p.name ++ c ∷ [] }
unfolding query_step
step_in_name p c h eq amp small = ground (arith, mod-eq_of_lt small)

step_in_value :
    (p : QueryParser) (c : ℕ) (x : Bytes) (m : QueryStringCollection)
    → p.name_mode ≡ false
    → p.items ≡ insert p.val x m
    → c ≢ b'&'
    → c < 256
    → query_step p c ≡ record p { items = insert p.val (x ++ c ∷ []) m }
unfolding query_step
step_in_value p c x m h e amp small = ground (
  arith,
  mod-eq_of_lt small,
  get_or-insert_self p.val [] x m,
  insert-insert p.val x (x ++ c ∷ []) m,
)

loop_name :
    (p : QueryParser) (k rest : Bytes)
    → p.name_mode ≡ true
    → IsName k
    → query_loop p (k ++ rest) ≡ query_loop (record p { name = p.name ++ k }) rest
unfolding query_loop
loop_name p [] rest h n = rw append-nil
loop_name p (c ∷ k) rest h ((eq, amp, nul, small), n) =
    ap (λ q. query_loop q (k ++ rest)) (step_in_name p c h eq amp small)
    ∙ loop_name (record p { name = p.name ++ c ∷ [] }) k rest h n
    ∙ rw append_assoc

loop_value :
    (p : QueryParser) (v rest x : Bytes) (m : QueryStringCollection)
    → p.name_mode ≡ false
    → p.items ≡ insert p.val x m
    → IsValue v
    → query_loop p (v ++ rest) ≡ query_loop (record p { items = insert p.val (x ++ v) m }) rest
unfolding query_loop
loop_value p [] rest x m h e n =
    rw append-nil (ap (λ i. query_loop (record p { items = i }) rest) e)
loop_value p (c ∷ v) rest x m h e ((amp, nul, small), n) =
    ap (λ q. query_loop q (v ++ rest)) (step_in_value p c x m h e amp small)
    ∙ loop_value (record p { items = insert p.val (x ++ c ∷ []) m }) v rest (x ++ c ∷ []) m h refl n
    ∙ rw append_assoc

abbrev start : QueryStringCollection → QueryParser
start m = record { name = []; val = []; name_mode = true; items = m }

-- One pair, from the start of its name.
loop_pair :
    (p : QueryParser) (k v rest : Bytes)
    → p.name_mode ≡ true
    → p.name ≡ []
    → IsName k
    → IsValue v
    → query_loop p (k ++ (b'=' ∷ (v ++ rest)))
      ≡ query_loop
          (record { name = k; val = k; name_mode = false; items = store p.items (k, v) })
          rest
loop_pair p k v rest h e n w =
    loop_name p k (b'=' ∷ (v ++ rest)) h n
    ∙ rw e (
        unfold query_loop query_step in
        rw h (loop_value _ v rest (get_or k [] p.items) p.items refl refl w))

loop_more :
    (p : QueryParser) (ps : List (Bytes × Bytes))
    → p.name_mode ≡ false
    → All IsPair ps
    → (query_loop p (more_pairs ps)).items ≡ foldl store p.items ps
loop_more p [] h ok = unfold query_loop in refl
loop_more p ((k, v) ∷ ps) h ((n, w), ok) =
    let q = record p { name_mode = true; name = [] } in
    let rest = k ++ (b'=' ∷ (v ++ more_pairs ps)) in
    let amp : query_loop p (b'&' ∷ rest) ≡ query_loop q rest =
      unfold query_loop query_step in rw (h, query_step) in
    ap (λ r. r.items) (amp ∙ loop_pair q k v (more_pairs ps) refl refl n w)
    ∙ loop_more (record { name = k; val = k; name_mode = false; items = store p.items (k, v) }) ps
        refl ok

name-HasNoNul : (k : Bytes) → IsName k → HasNoNul k
name-HasNoNul [] n = tt
name-HasNoNul (c ∷ k) (h, n) = (h.2, name-HasNoNul k n)

value-HasNoNul : (v : Bytes) → IsValue v → HasNoNul v
value-HasNoNul [] w = tt
value-HasNoNul (c ∷ v) (h, w) = (h.1, value-HasNoNul v w)

pair-HasNoNul :
    (k v rest : Bytes) → IsName k → IsValue v → HasNoNul rest → HasNoNul (k ++ (b'=' ∷ (v ++ rest)))
pair-HasNoNul k v rest n w h =
    All-append _ k _ (name-HasNoNul k n) (omega arith, All-append _ v rest (value-HasNoNul v w) h)

more-HasNoNul : (ps : List (Bytes × Bytes)) → All IsPair ps → HasNoNul (more_pairs ps)
more-HasNoNul [] ok = tt
more-HasNoNul ((k, v) ∷ ps) ((n, w), ok) =
    (omega arith, pair-HasNoNul k v (more_pairs ps) n w (more-HasNoNul ps ok))

pub query_of-HasNoNul : (ps : List (Bytes × Bytes)) → All IsPair ps → HasNoNul (query_of ps)
query_of-HasNoNul [] ok = tt
query_of-HasNoNul ((k, v) ∷ ps) ((n, w), ok) =
    pair-HasNoNul k v (more_pairs ps) n w (more-HasNoNul ps ok)

-- Reading the query string of a list of pairs stores each pair in turn, a repeated name's value
-- behind the earlier one. A name holds no `=`, `&` or NUL and a value no `&` or NUL,
-- and all are bytes.
pub from_query_string-query_of :
    (ps : List (Bytes × Bytes)) (m : QueryStringCollection)
    → All IsPair ps
    → from_query_string (query_of ps) m ≡ foldl store m ps
unfolding from_query_string
from_query_string-query_of [] m ok = unfold query_loop in refl
from_query_string-query_of ((k, v) ∷ ps) m ((n, w), ok) =
    rw (c_str_whole _ (query_of-HasNoNul ((k, v) ∷ ps) ((n, w), ok)), from_query_string)
      (ap (λ r. r.items) (loop_pair (start m) k v (more_pairs ps) refl refl n w)
        ∙ loop_more _ ps refl ok)

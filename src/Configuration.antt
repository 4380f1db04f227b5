-- ===== src/Configuration.antt =====
-- src/configuration/configuration.cc: the expansion of variables in the settings of a configuration. A
-- libconfig Setting is a text with its path, an aggregate of settings, or a value of another type.
-- Positions in a value are below 2 ^ 31, as the int parameters take them.
pub mod Expansion
pub mod Scan
use rikitiki.Base.{
  ℕ, zero, suc, ◌+◌, ◌-◌, Bool, true, false, List, [], ◌∷◌, ◌++◌, Option, none, some, ◌==◌, ltb,
  leb, ◌&&◌, if◌then◌else◌, Bytes, c_str, length, take, drop,
}
use rikitiki.Base.StringMap.{StringMap, get_or, insert}

-- The loop of find_close at position `i`.
unfoldable pub find_close_from : ℕ → Bytes → Option ℕ
find_close_from i [] = none
find_close_from i (c ∷ cs) =
    let rest = find_close_from (suc i) cs in if c == b')' then some i else rest

-- find_close; npos as the start is -1, and finds nothing.
unfoldable pub find_close : Bytes → Option ℕ → Option ℕ
unfolding find_close_from
find_close path none = none
find_close path (some start) = find_close_from start (drop start path)

-- The loop of find_open_decl: `dollar` tells that the byte before is a dollar sign.
unfoldable pub find_open_from : Bool → ℕ → Bytes → Option ℕ
find_open_from dollar i [] = none
find_open_from dollar i (c ∷ cs) =
    let rest = find_open_from (c == b'$') (suc i) cs in if c == b'(' && dollar then some i else rest

-- find_open_decl
unfoldable pub find_open_decl : Bytes → ℕ → Option ℕ
unfolding find_open_from
find_open_decl path start = find_open_from false start (drop start path)

-- What expand_variables leaves in exp_value, the exception of insert, or no defined result: the last
-- byte of an empty text, or a key without an end.
pub data Expanded : Type 0 where
  expanded : Bytes → Expanded
  out_of_range undefined out_of_fuel : Expanded

-- The last byte as a position: a char from 128 up is negative, and a position past the end.
abbrev back : Bytes → Option ℕ
back [] = none
back (c ∷ []) = some c
back (c ∷ d ∷ ds) = back (d ∷ ds)

pub data Inserted : Type 0 where
  inserted : Bytes → Inserted
  past_end no_last : Inserted

-- `exp_value.insert(exp_value.back(), s)`
pub insert_at_back : Bytes → Bytes → Inserted
insert_at_back exp s = elim (back exp) [
  | none ↦ no_last
  | some p ↦
      if ltb p 128 && leb p (length exp)
      then inserted (take p exp ++ (s ++ drop p exp))
      else past_end
]

-- The text from `first` up to `last`, without it.
abbrev between : ℕ → ℕ → Bytes → Bytes
between first last s = take (last - first) (drop first s)

-- What one round makes of `exp_value` and `last`, where a declaration opens.
pub data Round : Type 0 where
  next : Bytes → ℕ → Round
  ends : Expanded → Round

pub append_variable : Inserted → Bytes → ℕ → Round
append_variable (inserted exp) variable close_decl = next (exp ++ variable) (suc close_decl)
append_variable past_end variable close_decl = ends out_of_range
append_variable no_last variable close_decl = ends undefined

abbrev pub go_on : Round → (ℕ → Bytes → Expanded) → Expanded
go_on (ends e) loop = e
go_on (next exp last) loop = loop last exp

module _ (variables : StringMap Bytes) (value : Bytes) where
  pub close_round : Option ℕ → (last open_decl : ℕ) → Bytes → Round
  unfolding insert_at_back get_or append_variable
  close_round none last open_decl exp = ends undefined
  close_round (some close_decl) last open_decl exp =
      append_variable (insert_at_back exp (between last (open_decl - 1) value))
        (get_or (between (suc open_decl) close_decl value) [] variables) close_decl

  pub expand_round : (last open_decl : ℕ) → Bytes → Round
  unfolding close_round find_close
  expand_round last open_decl exp =
      close_round (find_close value (some open_decl)) last open_decl exp

  -- The loop of expand_variables, and the text behind the last declaration.
  pub expand_loop : (fuel last : ℕ) → Bytes → Expanded
  unfolding expand_round find_open_decl
  expand_loop zero last exp = out_of_fuel
  expand_loop (suc fuel) last exp = elim (find_open_decl value last) [
    | none ↦ expanded (exp ++ c_str (drop last value))
    | some open_decl ↦ go_on (expand_round last open_decl exp) (expand_loop fuel)
  ]

  -- expand_variables. A round ends behind a byte that the rounds before have not reached.
  unfoldable pub expand_variables : Bytes → Expanded
  unfolding expand_loop
  expand_variables exp = expand_loop (suc (length value)) 0 exp

mutual
  pub data Setting : Type 0 where
    text : (path value : Bytes) → Setting
    aggregate : Settings → Setting
    other : Setting

  pub data Settings : Type 0 where
    none_left : Settings
    setting : Setting → Settings → Settings

-- performSubstitutions: the variables and the settings afterwards. `undone` is the expansion that
-- has no text.
pub data Substituted {ℓ} (A : Type ℓ) : Type ℓ where
  substituted : StringMap Bytes → A → Substituted A
  undone : Expanded → Substituted A

abbrev pub store : StringMap Bytes → Bytes → Expanded → Substituted Setting
store variables path (expanded exp) = substituted (insert path exp variables) (text path exp)
store variables path e = undone e

abbrev pub aggregate_of : Substituted Settings → Substituted Setting
aggregate_of (substituted variables s) = substituted variables (aggregate s)
aggregate_of (undone e) = undone e

abbrev pub behind : Setting → Substituted Settings → Substituted Settings
behind s (substituted variables rest) = substituted variables (setting s rest)
behind s (undone e) = undone e

abbrev pub and_then :
    Substituted Setting → (StringMap Bytes → Substituted Settings) → Substituted Settings
and_then (substituted variables s) rest = behind s (rest variables)
and_then (undone e) rest = undone e

unfoldable mutual
  unfolding expand_variables insert

  pub perform_substitutions : StringMap Bytes → Setting → Substituted Setting
  perform_substitutions variables (text path value) =
      store variables path (expand_variables variables value [])
  perform_substitutions variables (aggregate ss) = aggregate_of (substitute_all variables ss)
  perform_substitutions variables other = substituted variables other

  pub substitute_all : StringMap Bytes → Settings → Substituted Settings
  substitute_all variables none_left = substituted variables none_left
  substitute_all variables (setting s ss) =
      and_then (perform_substitutions variables s) (λ variables'. substitute_all variables' ss)

-- ===== src/Tests/Settings.antt =====
-- Settings of a configuration.
use rikitiki.Base.{false, [], ◌∷◌, some, ◌≡◌, ◌≢◌, refl, arith, codes, equal}
use rikitiki.Base.StringMap.{insert, lookup}
use rikitiki.Configuration.{
  expanded, undefined, out_of_fuel, expand_variables, find_open_decl, Setting, text, aggregate,
  other, none_left, setting, substituted, perform_substitutions,
}
use rikitiki.Configuration.Expansion.{
  expand_variables-ne-out_of_fuel, expand_variables_empty, IsPlain, recorded,
  perform_substitutions-recorded,
}
use rikitiki.Configuration.Scan.{IsFirst, find_open_decl-IsFirst}

-- The text `a$(B)` opens a declaration at place 2.
find_open_decl-IsFirst_example : IsFirst false 0 (codes "a$(B)") (some 2)
find_open_decl-IsFirst_example = unfold find_open_decl in find_open_decl-IsFirst (codes "a$(B)") 0

-- A value expanded behind a text whose last byte, 1, is a position in it.
expand_behind :
    expand_variables ((codes "B", codes "xy") ∷ []) (codes "-$(B)/") (b'q' ∷ 1 ∷ [])
    ≡ expanded (b'q' ∷ b'-' ∷ 1 ∷ b'x' ∷ b'y' ∷ b'/' ∷ [])
unfolding expand_variables lookup equal
expand_behind = refl

expand_variables-ne-out_of_fuel_example :
    expand_variables ((codes "B", codes "xy") ∷ []) (codes "a$(B)") [] ≢ out_of_fuel
expand_variables-ne-out_of_fuel_example =
    expand_variables-ne-out_of_fuel ((codes "B", codes "xy") ∷ []) (codes "a$(B)") []

expand_variables_empty_example :
    expand_variables ((codes "B", codes "xy") ∷ []) (codes "a$(B)") [] ≡ undefined
expand_variables_empty_example =
    unfold find_open_decl in expand_variables_empty ((codes "B", codes "xy") ∷ []) (codes "a$(B)")

abbrev port_and_root : Setting
port_and_root = aggregate (setting other (setting (text (codes "root") (codes "/srv")) none_left))

perform_substitutions-recorded_example :
    perform_substitutions [] port_and_root
    ≡ substituted ((codes "root", codes "/srv") ∷ []) port_and_root
perform_substitutions-recorded_example =
    unfold recorded insert in
    perform_substitutions-recorded [] port_and_root
      (unfold IsPlain find_open_decl in (tt, ((refl, omega arith), tt)))

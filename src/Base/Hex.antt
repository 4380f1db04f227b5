-- ===== src/Base/Hex.antt =====
-- `ss << std::hex << n`: the digits of a number in base 16, in lower case.
use rikitiki.Base.Tests.{leb, if◌then◌else◌}
use rikitiki.Base.Text.{Bytes, codes}
use Prim.Native.Nat.{ℕ, zero, suc, ◌+◌, ◌/◌, ◌%◌}
use mathlib.Core.List.{[], ◌∷◌, ◌++◌}
use mathlib.Core.Path.{◌≡◌, refl}

hex_digit : ℕ → ℕ
hex_digit n = if leb n 9 then 48 + n else 87 + n

hex_fuel : ℕ → ℕ → Bytes
unfolding hex_digit
hex_fuel zero n = []
hex_fuel (suc fuel) n =
    let more = hex_fuel fuel (n / 16) ++ (hex_digit (n % 16) ∷ []) in
    if leb n 15 then hex_digit n ∷ [] else more

unfoldable pub hex : ℕ → Bytes
unfolding hex_fuel
hex n = hex_fuel (suc n) n

hex_43962 : hex 43962 ≡ codes "abba"
unfolding hex
hex_43962 = refl

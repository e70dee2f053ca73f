-- ===== src/Base/Decimal.antt =====
-- The decimal numeral of a number, as a template literal prints it.
use Prim.Native.Nat.{ℕ, zero, suc, ◌/◌, ◌%◌}
use Prim.Native.String.{String}
use mathlib.Core.List.{List, [], ◌∷◌}
use mathlib.Core.Path.{◌≡◌, refl}
use flowdeck_backend.Base.Lists.{concat}
use flowdeck_backend.Base.Tests.{◌==◌, if◌then◌else◌}

digit_from : ℕ → List String → String
digit_from n [] = ""
digit_from zero (d ∷ ds) = d
digit_from (suc n) (d ∷ ds) = digit_from n ds

digit : ℕ → String
unfolding digit_from
digit n = digit_from n ("0" ∷ "1" ∷ "2" ∷ "3" ∷ "4" ∷ "5" ∷ "6" ∷ "7" ∷ "8" ∷ "9" ∷ [])

-- The fuel bounds the number of digits: a number has at most as many as itself, and one more.
numeral : ℕ → ℕ → List String → String
unfolding digit
numeral zero n rest = concat rest
numeral (suc fuel) n rest =
    let more = numeral fuel (n / 10) (digit (n % 10) ∷ rest) in
    if (n / 10) == 0 then concat (digit (n % 10) ∷ rest) else more

unfoldable pub decimal : ℕ → String
unfolding numeral
decimal n = numeral (suc n) n []

decimal_runs : decimal 305 ≡ "305"
unfolding decimal concat
decimal_runs = refl

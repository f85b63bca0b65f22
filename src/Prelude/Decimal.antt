-- ===== src/Prelude/Decimal.antt =====
-- Numbers printed in decimal, as `%d` and `strconv.Itoa` print a number that is not negative.
use Prim.Native.Nat.{ℕ, zero, suc, ◌+◌, ◌/◌, ◌%◌}
use mathlib.Core.Bool.{true, false}
use mathlib.Core.List.{[], ◌∷◌}
use agentic_loop.Prelude.Tests.{ltb}
use agentic_loop.Prelude.Strings.{Text}

-- With `n` rounds of fuel; a number has fewer digits than its successor has units.
abbrev pub digits_before : ℕ → ℕ → Text → Text
digits_before zero n out = out
digits_before (suc fuel) n out = elim (ltb n 10) [
  | true ↦ (b'0' + n) ∷ out
  | false ↦ digits_before fuel (n / 10) ((b'0' + n % 10) ∷ out)
]

unfoldable pub decimal : ℕ → Text
decimal n = digits_before (suc n) n []

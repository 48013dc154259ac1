-- ===== src/Common/Decimal.antt =====
-- `String(n)` of a natural number.
use Prim.Native.Nat.{ℕ, zero, suc, ◌+◌, ◌/◌, ◌%◌}
use mathlib.Core.List.{[], ◌∷◌}
use qrucial_dao.Common.Tests.{◌==◌, if◌then◌else◌}
use qrucial_dao.Common.Text.{Text}

-- The digits of `n` before `rest`; `n + 1` rounds are enough, as each takes a digit off.
unfoldable pub digits_from : ℕ → ℕ → Text → Text
digits_from zero n rest = rest
digits_from (suc fuel) n rest =
    let digit = b'0' + n % 10 in
    let more = digits_from fuel (n / 10) (digit ∷ rest) in
    if n / 10 == 0 then digit ∷ rest else more

unfoldable pub decimal : ℕ → Text
unfolding digits_from
decimal n = digits_from (suc n) n []

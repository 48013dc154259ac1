-- ===== src/Node/Elo.antt =====
-- The scores after a challenge (qdao-node/audit-pallet/src/elo_comp.rs). A number of the type
-- I33F31 is a count of units of 2^-31; sums that leave the type wrap, as the chain is compiled.
pub mod Laws
use Prim.Native.Nat.{◌/◌, ◌%◌, ◌^◌}
use qrucial_dao.Common.{
  ℕ, ◌+◌, ◌-◌, ◌*◌, Bool, true, false, Option, none, some, if◌then◌else◌, leb, ltb,
}

abbrev pub unit : ℕ
unit = 2 ^ 31

-- `EloRank.k`.
abbrev pub k : ℕ
k = 32

-- The exponent (b - a) / 400 by its sign and its size; the division drops what is left.
unfoldable pub exponent : ℕ → ℕ → Bool × ℕ
exponent a b = if leb a b then (false, ((b - a) * unit) / 400) else (true, ((a - b) * unit) / 400)

-- The quotient by the sum with the power. A sum that wraps to a negative number has at least
-- 2^63 - 2^31 units, so that its quotient is 0, as it is without the wrap.
abbrev pub quotient : Option ℕ → Option ℕ
quotient none = none
quotient (some p) = some ((unit * unit) / (unit + p))

-- `calculate_expected`, given the powers of ten of the library, of fewer than 2^63 units, or none
-- where these overflow.
unfoldable pub calculate_expected : (Bool → ℕ → Option ℕ) → ℕ → ℕ → Option ℕ
unfolding exponent
calculate_expected pow a b = let (negative, size) = exponent a b in quotient (pow negative size)

-- `round().to_num()` to 32 bits: halves go away from zero.
unfoldable pub to_score : ℕ → ℕ
to_score x = ((x + 2 ^ 30) / unit) % 2 ^ 32

-- The same of a negative number by its size.
unfoldable pub to_score_negative : ℕ → ℕ
to_score_negative x = (2 ^ 32 - ((x + 2 ^ 30) / unit) % 2 ^ 32) % 2 ^ 32

-- `calculate`: a sum that reaches 2^63 units wraps to a negative number.
unfoldable pub winner_new : ℕ → ℕ → ℕ
unfolding to_score to_score_negative
winner_new score expected =
    let sum = score * unit + k * (unit - expected) in
    if ltb sum (2 ^ 63) then to_score sum else to_score_negative (2 ^ 64 - sum)

unfoldable pub looser_new : ℕ → ℕ → ℕ
unfolding to_score to_score_negative
looser_new score expected =
    if leb (k * expected) (score * unit)
    then to_score (score * unit - k * expected)
    else to_score_negative (k * expected - score * unit)

abbrev pub both : ℕ → ℕ → Option ℕ → Option ℕ → Option (ℕ × ℕ)
both w l (some a) (some b) = some (winner_new w a, looser_new l b)
both w l _ _ = none

unfoldable pub calculate : (Bool → ℕ → Option ℕ) → ℕ → ℕ → Option (ℕ × ℕ)
calculate pow winner looser =
    both winner looser (calculate_expected pow winner looser) (calculate_expected pow looser winner)

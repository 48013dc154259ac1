-- ===== src/Node/Elo/Laws.antt =====
-- How far the scores move.
use Prim.Native.Nat.{◌/◌, ◌^◌}
use native.Mathlib.Nat.{div-le_of_le-mul}
use qrucial_dao.Common.{
  ℕ, ◌+◌, ◌*◌, ◌≤◌, ◌<◌, ◌≡◌, refl, Bool, Option, none, some, arith, some_injective, none-ne-some,
  ap,
}
use qrucial_dao.Node.Elo.{
  unit, exponent, quotient, both, calculate_expected, winner_new, looser_new, calculate,
}

quotient-le : (p : ℕ) → (unit * unit) / (unit + p) ≤ unit
quotient-le p = div-le_of_le-mul (unit + p) (omega arith)

quotient-eq-le : (o : Option ℕ) (e : ℕ) → quotient o ≡ some e → e ≤ unit
quotient-eq-le none e h = absurd (none-ne-some h)
quotient-eq-le (some p) e h = rw (← some_injective h) (quotient-le p)

expected-le :
    (pow : Bool → ℕ → Option ℕ) (a b e : ℕ) → calculate_expected pow a b ≡ some e → e ≤ unit
unfolding calculate_expected
expected-le pow a b e h = quotient-eq-le (pow (exponent a b).0 (exponent a b).1) e h

winner_new_bounds :
    (w e : ℕ) → e ≤ unit → w + 32 < 2 ^ 32 → (w ≤ winner_new w e) × (winner_new w e ≤ w + 32)
unfolding winner_new
winner_new_bounds w e h l = ground arith

looser_new_bounds :
    (l e : ℕ) → e ≤ unit → l < 2 ^ 32 → 32 ≤ l → (looser_new l e ≤ l) × (l ≤ looser_new l e + 32)
unfolding looser_new
looser_new_bounds l e h small big = ground arith

both_bounds :
    (w l w_new l_new : ℕ) (a b : Option ℕ)
    → ((e : ℕ) → a ≡ some e → e ≤ unit)
    → ((e : ℕ) → b ≡ some e → e ≤ unit)
    → both w l a b ≡ some (w_new, l_new)
    → w + 32 < 2 ^ 32
    → 32 ≤ l
    → l < 2 ^ 32
    → ((w ≤ w_new) × (w_new ≤ w + 32)) × ((l_new ≤ l) × (l ≤ l_new + 32))
both_bounds w l w_new l_new (some a) (some b) le_a le_b h top low high =
    let scores = some_injective h in
    rw (← ap (λ s. s.0) scores, ← ap (λ s. s.1) scores)
      (winner_new_bounds w a (le_a a refl) top, looser_new_bounds l b (le_b b refl) high low)
both_bounds w l w_new l_new none b le_a le_b h top low high = absurd (none-ne-some h)
both_bounds w l w_new l_new (some a) none le_a le_b h top low high = absurd (none-ne-some h)

-- Where the power of ten does not overflow, a winner whose score is less than 2^32 - 32 gains from 0
-- to 32, and a loser with a score of 32 at least and of 32 bits loses from 0 to 32.
pub calculate_bounds :
    (pow : Bool → ℕ → Option ℕ) (w l w_new l_new : ℕ)
    → calculate pow w l ≡ some (w_new, l_new)
    → w + 32 < 2 ^ 32
    → 32 ≤ l
    → l < 2 ^ 32
    → ((w ≤ w_new) × (w_new ≤ w + 32)) × ((l_new ≤ l) × (l ≤ l_new + 32))
unfolding calculate
calculate_bounds pow w l w_new l_new =
    both_bounds w l w_new l_new (calculate_expected pow w l) (calculate_expected pow l w)
      (expected-le pow w l) (expected-le pow l w)

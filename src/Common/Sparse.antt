-- ===== src/Common/Sparse.antt =====
-- Arrays with holes.
use Prim.Native.Nat.{ℕ, zero, suc, ◌≤◌, ◌<◌}
use mathlib.Core.Path.{◌≡◌}
use mathlib.Core.Option.{Option, none, some}
use mathlib.Core.List.{List, [], ◌∷◌}
use native.Mathlib.Omega.{arith}
use qrucial_dao.Common.Tests.{if◌then◌else◌, ◌==◌}
use qrucial_dao.Common.Lists.{length}

-- `xs[i] = v` on an array: past the end, the places between are holes.
abbrev pub assign {ℓ} : {A : Type ℓ} → ℕ → A → List (Option A) → List (Option A)
assign zero v [] = some v ∷ []
assign zero v (x ∷ xs) = some v ∷ xs
assign (suc i) v [] = none ∷ assign i v []
assign (suc i) v (x ∷ xs) = x ∷ assign i v xs

-- `xs[j]`; a hole is undefined.
abbrev pub slot {ℓ} : {A : Type ℓ} → ℕ → List (Option A) → Option A
slot j [] = none
slot zero (x ∷ xs) = x
slot (suc j) (x ∷ xs) = slot j xs

pub slot-assign {ℓ} :
    {A : Type ℓ} (i j : ℕ) (v : A) (xs : List (Option A))
    → slot j (assign i v xs) ≡ (if j == i then some v else slot j xs)
slot-assign zero zero v [] = ground arith
slot-assign zero zero v (x ∷ xs) = ground arith
slot-assign zero (suc j) v [] = ground arith
slot-assign zero (suc j) v (x ∷ xs) = ground arith
slot-assign (suc i) zero v [] = ground arith
slot-assign (suc i) zero v (x ∷ xs) = ground arith
slot-assign (suc i) (suc j) v [] = ground (arith, slot-assign i j v [])
slot-assign (suc i) (suc j) v (x ∷ xs) = ground (arith, slot-assign i j v xs)

pub length-assign-le {ℓ} :
    {A : Type ℓ} (i n : ℕ) (v : A) (xs : List (Option A))
    → i < n
    → length xs ≤ n
    → length (assign i v xs) ≤ n
length-assign-le zero n v [] h l = omega arith
length-assign-le zero n v (x ∷ xs) h l = omega arith
length-assign-le (suc i) (suc n) v [] h l =
    omega (arith, length-assign-le i n v [] (omega arith) (omega arith))
length-assign-le (suc i) (suc n) v (x ∷ xs) h l =
    omega (arith, length-assign-le i n v xs (omega arith) (omega arith))
length-assign-le (suc i) zero v xs h l = absurd (omega arith)

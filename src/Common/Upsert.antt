-- ===== src/Common/Upsert.antt =====
-- The lists that the pages keep of the node's answers: an answer replaces the entry of its key, or
-- comes to the end.
use qrucial_dao.Common.Tests.{if◌then◌else◌, Bool-cases}
use qrucial_dao.Common.Lists.{All, set, find}
use Prim.Native.Nat.{ℕ, zero, suc}
use mathlib.Core.Path.{◌≡◌, refl, sym, ap, ◌∙◌}
use mathlib.Core.Logic.{inl, inr}
use mathlib.Core.Bool.{Bool, true, false, true≢false}
use mathlib.Core.Option.{Option, none, some}
use mathlib.Core.List.{List, [], ◌∷◌, ◌++◌}
use native.Mathlib.Omega.{arith}

module _ {ℓ} {A : Type ℓ} where
  -- `xs.findIndex(p)`, none for -1.
  abbrev pub find_index : (A → Bool) → List A → Option ℕ
  find_index p [] = none
  find_index p (x ∷ xs) =
      let rest = find_index p xs in
      if p x then some zero else elim rest [ none ↦ none | some i ↦ some (suc i) ]

  -- `if (i > -1) xs[i] = v else xs.push(v)` for `i = xs.findIndex(p)`.
  abbrev pub upsert : (A → Bool) → A → List A → List A
  upsert p v xs = elim (find_index p xs) [ none ↦ xs ++ (v ∷ []) | some i ↦ set xs i v ]

  pub upsert-cons :
      (p : A → Bool) (v x : A) (xs : List A)
      → upsert p v (x ∷ xs) ≡ (if p x then v ∷ xs else x ∷ upsert p v xs)
  upsert-cons p v x xs = ground arith

  -- What is found by the key of the answer is the answer.
  pub find-upsert :
      (p q : A → Bool) (v : A) (xs : List A)
      → q v ≡ true
      → ((x : A) → q x ≡ p x)
      → find q (upsert p v xs) ≡ some v
  find-upsert p q v [] h alike = rw h refl
  find-upsert p q v (x ∷ xs) h alike = rw (upsert-cons p v x xs) (elim (Bool-cases (p x)) [
    | inl found ↦ rw found (rw h refl)
    | inr other ↦ rw other (rw (alike x ∙ other) (find-upsert p q v xs h alike))
  ])

  -- What is found by another key is found as before.
  pub find-upsert_other :
      (p q : A → Bool) (v : A) (xs : List A)
      → q v ≡ false
      → ((x : A) → p x ≡ true → q x ≡ false)
      → find q (upsert p v xs) ≡ find q xs
  find-upsert_other p q v [] h apart = rw h refl
  find-upsert_other p q v (x ∷ xs) h apart = rw (upsert-cons p v x xs) (elim (Bool-cases (p x)) [
    | inl found ↦ rw found (rw (h, apart x found) refl)
    | inr other ↦ rw (other, find-upsert_other p q v xs h apart) refl
  ])

  -- Only the answers of the test on the list count.
  pub upsert-ext :
      (p q : A → Bool) (v : A) (xs : List A)
      → All (λ x. p x ≡ q x) xs
      → upsert p v xs ≡ upsert q v xs
  upsert-ext p q v [] a = refl
  upsert-ext p q v (x ∷ xs) (e, a) =
      rw (upsert-cons p v x xs, upsert-cons q v x xs, e, upsert-ext p q v xs a) refl

  pub All-upsert {κ} :
      (P : A → Type κ) (p : A → Bool) (v : A) (xs : List A) → P v → All P xs → All P (upsert p v xs)
  All-upsert P p v [] h a = (h, tt)
  All-upsert P p v (x ∷ xs) h (e, a) = rw (upsert-cons p v x xs) (elim (Bool-cases (p x)) [
    | inl found ↦ rw found (h, a)
    | inr other ↦ rw other (e, All-upsert P p v xs h a)
  ])

  -- All answers in turn; `same v x` tells whether `x` has the key of `v`.
  abbrev pub upsert_all : (A → A → Bool) → List A → List A → List A
  upsert_all same [] xs = xs
  upsert_all same (v ∷ vs) xs = upsert_all same vs (upsert (same v) v xs)

  -- The last item that passes, or what was there before.
  abbrev pub last_of : (A → Bool) → List A → Option A → Option A
  last_of p [] before = before
  last_of p (v ∷ vs) before = last_of p vs (if p v then some v else before)

  -- No two items have one key.
  abbrev pub IsUnique : (A → A → Bool) → List A → Type 0
  IsUnique same [] = Unit
  IsUnique same (x ∷ xs) = All (λ y. same x y ≡ false) xs × IsUnique same xs

pub All-map {ℓ κ μ} :
    {A : Type ℓ} {P : A → Type κ} {Q : A → Type μ} (f : (x : A) → P x → Q x) (xs : List A)
    → All P xs
    → All Q xs
All-map f [] a = tt
All-map f (x ∷ xs) (p, a) = (f x p, All-map f xs a)

-- A test of equal keys.
pub record KeyLaws {ℓ} {A : Type ℓ} (same : A → A → Bool) : Type ℓ where
  pub same_refl : (x : A) → same x x ≡ true
  pub same_congr : (u v : A) → same u v ≡ true → (x : A) → same u x ≡ same v x

module _ {ℓ} {A : Type ℓ} (same : A → A → Bool) (L : KeyLaws same) where
  same_sym : (u v : A) → same u v ≡ true → same v u ≡ true
  same_sym u v h = sym (L.same_congr u v h u) ∙ L.same_refl u

  same_apart : (a v x : A) → same a v ≡ false → same v x ≡ true → same a x ≡ false
  same_apart a v x h e = elim (Bool-cases (same a x)) [
    | inl eq ↦ absurd (true≢false (sym (L.same_congr a x eq v ∙ same_sym v x e) ∙ h))
    | inr no_match ↦ no_match
  ]

  unlike : (v x : A) → same v x ≡ false → same x v ≡ false
  unlike v x h = elim (Bool-cases (same x v)) [
    | inl eq ↦ absurd (true≢false (sym (same_sym x v eq) ∙ h))
    | inr ne ↦ ne
  ]

  -- After any answers, what is found by a key is the last answer with that key, or what was found
  -- before.
  pub find-upsert_all :
      (a : A) (vs xs : List A)
      → find (same a) (upsert_all same vs xs) ≡ last_of (same a) vs (find (same a) xs)
  find-upsert_all a [] xs = refl
  find-upsert_all a (v ∷ vs) xs =
      find-upsert_all a vs (upsert (same v) v xs)
      ∙ ap (last_of (same a) vs) (elim (Bool-cases (same a v)) [
        | inl eq ↦ rw eq (find-upsert (same v) (same a) v xs eq (L.same_congr a v eq))
        | inr ne ↦ rw ne (find-upsert_other (same v) (same a) v xs ne (λ x. same_apart a v x ne))
      ])

  IsUnique-upsert : (v : A) (xs : List A) → IsUnique same xs → IsUnique same (upsert (same v) v xs)
  IsUnique-upsert v [] u = (tt, tt)
  IsUnique-upsert v (x ∷ xs) (a, u) =
      rw (upsert-cons (same v) v x xs) (elim (Bool-cases (same v x)) [
        | inl eq ↦ rw eq (All-map (λ y e. L.same_congr v x eq y ∙ e) xs a, u)
        | inr ne ↦ rw ne (
          All-upsert (λ y. same x y ≡ false) (same v) v xs (unlike v x ne) a,
          IsUnique-upsert v xs u,
        )
      ])

  pub IsUnique-upsert_all :
      (vs xs : List A) → IsUnique same xs → IsUnique same (upsert_all same vs xs)
  IsUnique-upsert_all [] xs u = u
  IsUnique-upsert_all (v ∷ vs) xs u =
      IsUnique-upsert_all vs (upsert (same v) v xs) (IsUnique-upsert v xs u)

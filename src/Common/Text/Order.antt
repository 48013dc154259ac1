-- ===== src/Common/Text/Order.antt =====
-- `sort()` of strings, by their code units.
use Prim.Native.Nat.{ℕ}
use mathlib.Core.Path.{◌≡◌, refl, sym, ◌∙◌}
use mathlib.Core.Logic.{inl, inr}
use mathlib.Core.Bool.{Bool, true, false, true≢false}
use mathlib.Core.List.{List, [], ◌∷◌}
use native.Mathlib.Omega.{arith}
use qrucial_dao.Common.Tests.{if◌then◌else◌, ltb, ◌==◌, Bool-cases}
use qrucial_dao.Common.Lists.{All, keep, length}
use qrucial_dao.Common.Text.{Text, text_eq}

abbrev pub text_le : Text → Text → Bool
text_le [] t = true
text_le (a ∷ s) [] = false
text_le (a ∷ s) (b ∷ t) =
    let rest = text_le s t in if ltb a b then true else if a == b then rest else false

abbrev pub insert : Text → List Text → List Text
insert x [] = x ∷ []
insert x (y ∷ ys) = let rest = insert x ys in if text_le x y then x ∷ y ∷ ys else y ∷ rest

abbrev pub sort : List Text → List Text
sort [] = []
sort (x ∷ xs) = insert x (sort xs)

text_le_total : (s t : Text) → text_le s t ≡ false → text_le t s ≡ true
text_le_total [] t h = absurd (true≢false h)
text_le_total (a ∷ s) [] h = refl
text_le_total (a ∷ s) (b ∷ t) h = ground (arith, text_le_total s t)

text_le_trans : (s t u : Text) → text_le s t ≡ true → text_le t u ≡ true → text_le s u ≡ true
text_le_trans [] t u h g = refl
text_le_trans (a ∷ s) [] u h g = absurd (true≢false (sym h))
text_le_trans (a ∷ s) (b ∷ t) [] h g = absurd (true≢false (sym g))
text_le_trans (a ∷ s) (b ∷ t) (c ∷ u) h g = ground (arith, text_le_trans s t u)

-- Each item is no more than every later one.
abbrev pub IsSorted : List Text → Type 0
IsSorted [] = Unit
IsSorted (x ∷ xs) = All (λ y. text_le x y ≡ true) xs × IsSorted xs

All-insert : (P : Text → Type 0) (x : Text) (ys : List Text) → P x → All P ys → All P (insert x ys)
All-insert P x [] p a = (p, tt)
All-insert P x (y ∷ ys) p (q, a) = elim (Bool-cases (text_le x y)) [
  | inl le ↦ rw le (p, (q, a))
  | inr gt ↦ rw gt (q, All-insert P x ys p a)
]

All-le_trans :
    (x y : Text) (ys : List Text)
    → text_le x y ≡ true
    → All (λ z. text_le y z ≡ true) ys
    → All (λ z. text_le x z ≡ true) ys
All-le_trans x y [] h a = tt
All-le_trans x y (z ∷ ys) h (p, a) = (text_le_trans x y z h p, All-le_trans x y ys h a)

insert-IsSorted : (x : Text) (ys : List Text) → IsSorted ys → IsSorted (insert x ys)
insert-IsSorted x [] s = (tt, tt)
insert-IsSorted x (y ∷ ys) (a, s) = elim (Bool-cases (text_le x y)) [
  | inl le ↦ rw le ((le, All-le_trans x y ys le a), (a, s))
  | inr gt ↦
      rw gt
        (All-insert (λ z. text_le y z ≡ true) x ys (text_le_total x y gt) a, insert-IsSorted x ys s)
]

pub sort-IsSorted : (xs : List Text) → IsSorted (sort xs)
sort-IsSorted [] = tt
sort-IsSorted (x ∷ xs) = insert-IsSorted x (sort xs) (sort-IsSorted xs)

All-keep_of : (P : Text → Type 0) (p : Text → Bool) (xs : List Text) → All P xs → All P (keep p xs)
All-keep_of P p [] a = tt
All-keep_of P p (x ∷ xs) (h, a) = elim (Bool-cases (p x)) [
  | inl y ↦ rw y (h, All-keep_of P p xs a)
  | inr n ↦ rw n (All-keep_of P p xs a)
]

pub keep-IsSorted : (p : Text → Bool) (xs : List Text) → IsSorted xs → IsSorted (keep p xs)
keep-IsSorted p [] s = tt
keep-IsSorted p (x ∷ xs) (a, s) = elim (Bool-cases (p x)) [
  | inl y ↦ rw y (All-keep_of (λ z. text_le x z ≡ true) p xs a, keep-IsSorted p xs s)
  | inr n ↦ rw n (keep-IsSorted p xs s)
]

-- How often a text is in a list.
abbrev pub count : Text → List Text → ℕ
count x ys = length (keep (text_eq x) ys)

count-insert : (z x : Text) (ys : List Text) → count z (insert x ys) ≡ count z (x ∷ ys)
count-insert z x [] = refl
count-insert z x (y ∷ ys) = elim (Bool-cases (text_le x y)) [
  | inl le ↦ rw le refl
  | inr gt ↦ rw gt (ground (arith, count-insert z x ys))
]

pub count-sort : (z : Text) (xs : List Text) → count z (sort xs) ≡ count z xs
count-sort z [] = refl
count-sort z (x ∷ xs) = count-insert z x (sort xs) ∙ ground (arith, count-sort z xs)

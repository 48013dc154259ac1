-- ===== src/Common/Text/Trim.antt =====
-- What `trim` guarantees.
use Prim.Native.Nat.{ℕ}
use qrucial_dao.Common.Tests.{if◌then◌else◌, Bool-cases}
use qrucial_dao.Common.Lists.{All}
use mathlib.Core.Path.{◌≡◌, refl, ap, ◌∙◌}
use mathlib.Core.Logic.{inl, inr}
use mathlib.Core.Bool.{true, false, ◌&&◌}
use mathlib.Core.List.{[], ◌∷◌}
use qrucial_dao.Common.Text.{Text, is_space, is_empty, trim_start, trim_end, trim}

-- Every code unit is white space.
abbrev pub IsBlank : Text → Type 0
IsBlank s = All (λ c. is_space c ≡ true) s

-- The text does not begin with white space.
abbrev pub NoLead : Text → Type 0
NoLead [] = Unit
NoLead (c ∷ s) = is_space c ≡ false

-- A last code unit is no white space.
abbrev pub NoTrail : Text → Type 0
NoTrail [] = Unit
NoTrail (c ∷ []) = is_space c ≡ false
NoTrail (c ∷ d ∷ s) = NoTrail (d ∷ s)

trim_start-blank : (s : Text) → IsBlank s → trim_start s ≡ []
unfolding trim_start
trim_start-blank [] h = refl
trim_start-blank (c ∷ s) (h, hs) = rw h (trim_start-blank s hs)

pub trim-blank : (s : Text) → IsBlank s → trim s ≡ []
unfolding trim
trim-blank s h = ap trim_end (trim_start-blank s h)

NoLead-trim_start : (s : Text) → NoLead (trim_start s)
unfolding trim_start
NoLead-trim_start [] = tt
NoLead-trim_start (c ∷ s) = elim (Bool-cases (is_space c)) [
  | inl h ↦ rw h (NoLead-trim_start s)
  | inr h ↦ rw h h
]

trim_start_of_NoLead : (s : Text) → NoLead s → trim_start s ≡ s
unfolding trim_start
trim_start_of_NoLead [] h = refl
trim_start_of_NoLead (c ∷ s) h = rw h

NoLead-trim_end : (s : Text) → NoLead s → NoLead (trim_end s)
unfolding trim_end
NoLead-trim_end [] h = tt
NoLead-trim_end (c ∷ s) h = rw h h

NoTrail-cons_step :
    (c : ℕ) (t : Text) → NoTrail t → NoTrail (if is_space c && is_empty t then [] else c ∷ t)
NoTrail-cons_step c [] h = elim (Bool-cases (is_space c)) [ inl e ↦ rw e tt | inr e ↦ rw e e ]
NoTrail-cons_step c (d ∷ t) h = elim (Bool-cases (is_space c)) [ inl e ↦ rw e h | inr e ↦ rw e h ]

NoTrail-trim_end : (s : Text) → NoTrail (trim_end s)
unfolding trim_end
NoTrail-trim_end [] = tt
NoTrail-trim_end (c ∷ s) = NoTrail-cons_step c (trim_end s) (NoTrail-trim_end s)

cons_nonempty :
    (c d : ℕ) (s r : Text)
    → r ≡ d ∷ s
    → (if is_space c && is_empty r then [] else c ∷ r) ≡ c ∷ d ∷ s
cons_nonempty c d s r e = elim (Bool-cases (is_space c)) [ inl h ↦ rw (e, h) | inr h ↦ rw (e, h) ]

trim_end_of_NoTrail : (s : Text) → NoTrail s → trim_end s ≡ s
unfolding trim_end
trim_end_of_NoTrail [] h = refl
trim_end_of_NoTrail (c ∷ []) h = rw h
trim_end_of_NoTrail (c ∷ d ∷ s) h = cons_nonempty c d s _ (trim_end_of_NoTrail (d ∷ s) h)

-- The result begins and ends with no white space.
pub NoLead-trim : (s : Text) → NoLead (trim s)
unfolding trim
NoLead-trim s = NoLead-trim_end (trim_start s) (NoLead-trim_start s)

pub NoTrail-trim : (s : Text) → NoTrail (trim s)
unfolding trim
NoTrail-trim s = NoTrail-trim_end (trim_start s)

pub trim_idem : (s : Text) → trim (trim s) ≡ trim s
unfolding trim
trim_idem s =
    ap trim_end (trim_start_of_NoLead _ (NoLead-trim_end _ (NoLead-trim_start s)))
    ∙ trim_end_of_NoTrail _ (NoTrail-trim_end (trim_start s))

trim_end-nil : (s : Text) → NoLead s → trim_end s ≡ [] → s ≡ []
unfolding trim_end
trim_end-nil [] h e = refl
trim_end-nil (c ∷ s) h e = absurd (cons-ne-nil (rw h at e))
  where
    cons-ne-nil : {t : Text} → c ∷ t ≡ [] → ⊥
    cons-ne-nil e = cc

trim_start-nil : (s : Text) → trim_start s ≡ [] → IsBlank s
unfolding trim_start
trim_start-nil [] e = tt
trim_start-nil (c ∷ s) e = elim (Bool-cases (is_space c)) [
  | inl h ↦ (h, trim_start-nil s (rw h at e))
  | inr h ↦ absurd (cons-ne-nil (rw h at e))
]
  where
    cons-ne-nil : {t : Text} → c ∷ t ≡ [] → ⊥
    cons-ne-nil e = cc

-- Only a blank text is trimmed to nothing.
pub IsBlank-of_trim : (s : Text) → trim s ≡ [] → IsBlank s
unfolding trim
IsBlank-of_trim s e = trim_start-nil s (trim_end-nil _ (NoLead-trim_start s) e)

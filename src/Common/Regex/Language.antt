-- ===== src/Common/Regex/Language.antt =====
-- `test` decides the language of an expression.
use qrucial_dao.Common.Tests.{if◌then◌else◌, Bool-cases, and_split}
use qrucial_dao.Common.Lists.{All, All-append}
use qrucial_dao.Common.Text.{Text}
use Prim.Native.Nat.{ℕ}
use mathlib.Core.Path.{◌≡◌, refl, sym, ap, ◌∙◌, subst}
use mathlib.Core.Logic.{◌↔◌, ◌⊎◌, inl, inr}
use mathlib.Core.Bool.{Bool, true}
use mathlib.Core.List.{[], ◌∷◌, ◌++◌}
use native.Mathlib.Omega.{arith}
use qrucial_dao.Common.Regex.{
  Regex, fails, eps, one, seq, alt, star, nullable, mk_seq, mk_alt, deriv, test,
}

-- Pieces of a language one after another.
pub data Pieces (P : Text → Type 0) : Text → Type 0 where
  done : {u : Text} → u ≡ [] → Pieces P u
  more : {u : Text} (s t : Text) → P s → Pieces P t → u ≡ s ++ t → Pieces P u

-- The texts that an expression describes.
abbrev pub Matches : Regex → Text → Type 0
Matches fails u = ⊥
Matches eps u = u ≡ []
Matches (one p) u = (c : ℕ) × (u ≡ c ∷ []) × (p c ≡ true)
Matches (seq r q) u = (s : Text) × (t : Text) × (u ≡ s ++ t) × Matches r s × Matches q t
Matches (alt r q) u = Matches r u ⊎ Matches q u
Matches (star r) u = Pieces (Matches r) u

nil_parts : (s t : Text) → [] ≡ s ++ t → (s ≡ []) × (t ≡ [])
nil_parts [] t e = (refl, sym e)
nil_parts (c ∷ s) t e = cc

nullable_sound : (r : Regex) → nullable r ≡ true → Matches r []
unfolding nullable
nullable_sound fails h = cc
nullable_sound eps h = refl
nullable_sound (one p) h = cc
nullable_sound (seq r q) h =
    let (hr, hq) = and_split h in ([], [], refl, nullable_sound r hr, nullable_sound q hq)
nullable_sound (alt r q) h = elim (Bool-cases (nullable r)) [
  | inl hr ↦ inl (nullable_sound r hr)
  | inr hr ↦ inr (nullable_sound q (rw hr at h))
]
nullable_sound (star r) h = done refl

nullable_complete : (r : Regex) → Matches r [] → nullable r ≡ true
unfolding nullable
nullable_complete fails h = absurd h
nullable_complete eps h = refl
nullable_complete (one p) (c, e, h) = cc
nullable_complete (seq r q) (s, t, e, hr, hq) =
    let (s_nil, t_nil) = nil_parts s t e in
    rw (nullable_complete r (subst (Matches r) s_nil hr))
      (nullable_complete q (subst (Matches q) t_nil hq))
nullable_complete (alt r q) (inl h) = rw (nullable_complete r h) refl
nullable_complete (alt r q) (inr h) = ground (arith, nullable_complete q h)
nullable_complete (star r) h = refl

mk_seq-Matches : (r q : Regex) (u : Text) → Matches (mk_seq r q) u ↔ Matches (seq r q) u
unfolding mk_seq
mk_seq-Matches fails q u = (λ h. absurd h, λ (s, t, e, h, k). h)
mk_seq-Matches eps q u = (
  λ h. ([], u, refl, refl, h),
  λ (s, t, e, h, k). subst (Matches q) (sym (e ∙ ap (λ x. x ++ t) h)) k,
)
mk_seq-Matches _ q u = (λ h. h, λ h. h)

drop_right : (r : Regex) (u : Text) → Matches r u ⊎ ⊥ → Matches r u
drop_right r u (inl h) = h
drop_right r u (inr h) = absurd h

mk_alt-Matches : (r q : Regex) (u : Text) → Matches (mk_alt r q) u ↔ (Matches r u ⊎ Matches q u)
unfolding mk_alt
mk_alt-Matches fails q u = (λ h. inr h, drop_left)
  where
    drop_left : ⊥ ⊎ Matches q u → Matches q u
    drop_left (inl h) = absurd h
    drop_left (inr h) = h
mk_alt-Matches eps fails u = (λ h. inl h, drop_right eps u)
mk_alt-Matches (one p) fails u = (λ h. inl h, drop_right (one p) u)
mk_alt-Matches (seq r q) fails u = (λ h. inl h, drop_right (seq r q) u)
mk_alt-Matches (alt r q) fails u = (λ h. inl h, drop_right (alt r q) u)
mk_alt-Matches (star r) fails u = (λ h. inl h, drop_right (star r) u)
mk_alt-Matches _ _ u = (λ h. h, λ h. h)

-- A split of `c ∷ s` leaves its first piece empty, or takes `c` from it.
cons_parts :
    (c : ℕ) (u s t : Text)
    → c ∷ u ≡ s ++ t
    → ((s ≡ []) × (c ∷ u ≡ t)) ⊎ ((s' : Text) × (s ≡ c ∷ s') × (u ≡ s' ++ t))
cons_parts c u [] t e = inl (refl, e)
cons_parts c u (d ∷ s) t e = inr (s, cc, cc)

-- A derivative describes what may follow `c`.
deriv_sound : (c : ℕ) (r : Regex) (u : Text) → Matches (deriv c r) u → Matches r (c ∷ u)
unfolding deriv
deriv_sound c fails u h = absurd h
deriv_sound c eps u h = absurd h
deriv_sound c (one p) u h = elim (Bool-cases (p c)) [
  | inl hp ↦ (c, ap (c ∷◌) (rw hp at h), hp)
  | inr np ↦ absurd (rw np at h)
]
deriv_sound c (seq r q) u h = elim ((mk_alt-Matches (mk_seq (deriv c r) q) _ u).0 h) [
  | inl first ↦
      let (s, t, e, hr, hq) = (mk_seq-Matches (deriv c r) q u).0 first in
      (c ∷ s, t, ap (c ∷◌) e, deriv_sound c r s hr, hq)
  | inr second ↦ elim (Bool-cases (nullable r)) [
    | inl n ↦ ([], c ∷ u, refl, nullable_sound r n, deriv_sound c q u (rw n at second))
    | inr n ↦ absurd (rw n at second)
  ]
]
deriv_sound c (alt r q) u h = elim ((mk_alt-Matches (deriv c r) (deriv c q) u).0 h) [
  | inl hr ↦ inl (deriv_sound c r u hr)
  | inr hq ↦ inr (deriv_sound c q u hq)
]
deriv_sound c (star r) u h =
    let (s, t, e, hr, hs) = (mk_seq-Matches (deriv c r) (star r) u).0 h in
    more (c ∷ s) t (deriv_sound c r s hr) hs (ap (c ∷◌) e)

head_eq : {c d : ℕ} {u v : Text} → c ∷ u ≡ d ∷ v → c ≡ d
head_eq e = cc

tail_eq : {c d : ℕ} {u v : Text} → c ∷ u ≡ d ∷ v → u ≡ v
tail_eq e = cc

cons-ne-nil : {c : ℕ} {u : Text} → c ∷ u ≡ [] → ⊥
cons-ne-nil e = cc

-- The pieces of a text that begins with `c`: the first one that is not empty takes it.
first_piece :
    (c : ℕ) (r : Regex)
    → ((s : Text) → Matches r (c ∷ s) → Matches (deriv c r) s)
    → (u : Text) {v : Text} → Pieces (Matches r) v
    → v ≡ c ∷ u
    → Matches (seq (deriv c r) (star r)) u
first_piece c r ih u (done e) b = absurd (cons-ne-nil (sym b ∙ e))
first_piece c r ih u (more s t hs ht e) b = elim (cons_parts c u s t (sym b ∙ e)) [
  | inl (_, b') ↦ first_piece c r ih u ht (sym b')
  | inr (s', es, eu) ↦ (s', t, eu, ih s' (subst (Matches r) es hs), ht)
]

deriv_complete : (c : ℕ) (r : Regex) (u : Text) → Matches r (c ∷ u) → Matches (deriv c r) u
unfolding deriv
deriv_complete c fails u h = absurd h
deriv_complete c eps u h = absurd (cons-ne-nil h)
deriv_complete c (one p) u (d, e, h) = class_left c d u p e h
  where
    class_left :
        (c d : ℕ) (u : Text) (p : ℕ → Bool)
        → c ∷ u ≡ d ∷ []
        → p d ≡ true
        → Matches (if p c then eps else fails) u
    class_left c d u p e h = rw (head_eq e, h) (tail_eq e)
deriv_complete c (seq r q) u (s, t, e, hr, hq) = elim (cons_parts c u s t e) [
  | inl (es, et) ↦ (mk_alt-Matches (mk_seq (deriv c r) q) _ u).1 (
      inr (
        rw (nullable_complete r (subst (Matches r) es hr))
          (deriv_complete c q u (subst (Matches q) (sym et) hq))))
  | inr (s', es, eu) ↦ (mk_alt-Matches (mk_seq (deriv c r) q) _ u).1 (
      inl (
        (mk_seq-Matches (deriv c r) q u).1
          (s', t, eu, deriv_complete c r s' (subst (Matches r) es hr), hq)))
]
deriv_complete c (alt r q) u (inl h) =
    (mk_alt-Matches (deriv c r) (deriv c q) u).1 (inl (deriv_complete c r u h))
deriv_complete c (alt r q) u (inr h) =
    (mk_alt-Matches (deriv c r) (deriv c q) u).1 (inr (deriv_complete c q u h))
deriv_complete c (star r) u h =
    (mk_seq-Matches (deriv c r) (star r) u).1 (first_piece c r (deriv_complete c r) u h refl)

-- `test` accepts exactly the texts that the expression describes.
pub test_iff : (r : Regex) (u : Text) → (test r u ≡ true) ↔ Matches r u
unfolding test
test_iff r [] = (nullable_sound r, nullable_complete r)
test_iff r (c ∷ u) =
    let (to, from) = test_iff (deriv c r) u in
    (λ h. deriv_sound c r u (to h), λ m. from (deriv_complete c r u m))

-- Each class of the expression lies within `P`.
abbrev pub Within : (ℕ → Type 0) → Regex → Type 0
Within P fails = Unit
Within P eps = Unit
Within P (one p) = (c : ℕ) → p c ≡ true → P c
Within P (seq r q) = Within P r × Within P q
Within P (alt r q) = Within P r × Within P q
Within P (star r) = Within P r

All-Pieces :
    (P : ℕ → Type 0) (r : Regex)
    → ((s : Text) → Matches r s → All P s)
    → {u : Text} → Pieces (Matches r) u
    → All P u
All-Pieces P r ih (done e) = rw e tt
All-Pieces P r ih (more s t hs ht e) = rw e (All-append P s t (ih s hs) (All-Pieces P r ih ht))

-- Then so does every code unit of a text that it describes.
pub All-Matches : (P : ℕ → Type 0) (r : Regex) (u : Text) → Within P r → Matches r u → All P u
All-Matches P fails u w h = absurd h
All-Matches P eps u w h = rw h tt
All-Matches P (one p) u w (c, e, h) = rw e (w c h, tt)
All-Matches P (seq r q) u (wr, wq) (s, t, e, hr, hq) =
    rw e (All-append P s t (All-Matches P r s wr hr) (All-Matches P q t wq hq))
All-Matches P (alt r q) u (wr, wq) (inl h) = All-Matches P r u wr h
All-Matches P (alt r q) u (wr, wq) (inr h) = All-Matches P q u wq h
All-Matches P (star r) u w h = All-Pieces P r (λ s k. All-Matches P r s w k) h

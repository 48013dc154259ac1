-- ===== src/Pages/Refetch/Laws.antt =====
-- How often the audits are fetched.
use qrucial_dao.Common.{
  ◌≡◌, refl, ap, ◌∙◌, true, false, Option, none, some, List, [], ◌∷◌, ◌++◌, map, if◌then◌else◌,
  Bool-cases, inl, inr,
}
use qrucial_dao.Common.Text.{Text}
use qrucial_dao.Pages.Refetch.{
  Change, absent, text, is_same, now, later, State, initial, on_effect, set_change, mount, set_all,
}

-- The changes that differ from the one before.
abbrev pub differing : Change → List Change → List Change
differing before [] = []
differing before (c ∷ changes) =
    if is_same before c then differing before changes else c ∷ differing c changes

set_change-same :
    (c : Change) (s : State) → is_same s.audits_change c ≡ true → set_change c s ≡ (s, [])
unfolding set_change
set_change-same c s e = rw e refl

set_change-other :
    (c : Change) (s : State)
    → is_same s.audits_change c ≡ false
    → s.initial_render ≡ false
    → set_change c s ≡ (record s { audits_change = c }, later ∷ [])
unfolding set_change on_effect
set_change-other c s e r = rw e (rw r refl)

set_all-differing :
    (changes : List Change) (s : State)
    → s.initial_render ≡ false
    → (set_all changes s).1 ≡ map (λ _. later) (differing s.audits_change changes)
unfolding set_all
set_all-differing [] s r = refl
set_all-differing (c ∷ changes) s r = elim (Bool-cases (is_same s.audits_change c)) [
  | inl e ↦
      ap (λ p. p.1 ++ (set_all changes p.0).1) (set_change-same c s e)
      ∙ set_all-differing changes s r
      ∙ rw e refl
  | inr e ↦
      ap (λ p. p.1 ++ (set_all changes p.0).1) (set_change-other c s e r)
      ∙ ap (later ∷◌) (set_all-differing changes (record s { audits_change = c }) r)
      ∙ rw e refl
]

-- The change that the account's address makes.
abbrev pub address_change : Option Text → Change
address_change none = absent
address_change (some a) = text a

-- A page fetches the audits at once when it opens, and then, each time with a delay, once for the
-- address of the account and for each later change that differs from the one before.
pub mount-fetches :
    (address : Option Text) (changes : List Change)
    → (mount address).1 ++ (set_all changes (mount address).0).1
      ≡ now ∷ map (λ _. later) (differing (text []) (address_change address ∷ changes))
unfolding mount on_effect set_change set_all
mount-fetches none changes =
    ap (now ∷◌)
      (set_all-differing (absent ∷ changes) (record initial { initial_render = false }) refl)
mount-fetches (some a) changes =
    ap (now ∷◌)
      (set_all-differing (text a ∷ changes) (record initial { initial_render = false }) refl)

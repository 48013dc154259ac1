-- ===== src/Approval/Page/Laws.antt =====
-- What the page lets the user press.
use qrucial_dao.Common.{
  ℕ, suc, ◌≡◌, refl, ap, ◌∙◌, false, Option, none, some, List, [], ◌∷◌, Bool-cases, inl, inr, arith,
}
use qrucial_dao.Common.Text.{Text}
use qrucial_dao.Approval.{Choice, Entry, on_answer}
use qrucial_dao.Approval.Laws.{Answer, on_answers}
use qrucial_dao.Approval.Page.{State, initial, on_account, on_entry}

-- A page that was opened with the account, and answers to its run in turn, each of a subscription of
-- its own.
abbrev pub opened : Text → State
opened approvee = record {
  runs = record { approvee = approvee; signed_ups = []; unsub_all = [] } ∷ [];
  ended = [];
  applicants = [];
  dropdown_value = none;
}

opened-on_account : (approvee : Text) → on_account approvee initial ≡ opened approvee
unfolding on_account
opened-on_account approvee = refl

unfoldable pub on_entries : ℕ → List Answer → State → State
on_entries id [] s = s
on_entries id (a ∷ later) s = on_entries (suc id) later (on_entry 0 id a.address a.name a.entry s)

-- An answer after which the menu is not drawn again leaves the list as it was.
kept :
    (approvee address name : Text) (e : Option Entry) (cs : List Choice)
    → (on_answer approvee address name e cs).1 ≡ false
    → (on_answer approvee address name e cs).0 ≡ cs
unfolding on_answer
kept approvee address name none cs h = refl
kept approvee address name (some e) cs h = ground arith

-- The only run, whose list is the menu.
abbrev alone : Text → List Choice → List ℕ → Option Text → State
alone approvee choices unsubs value = record {
  runs = record { approvee = approvee; signed_ups = choices; unsub_all = unsubs } ∷ [];
  ended = [];
  applicants = choices;
  dropdown_value = value;
}

on_entry-alone :
    (id : ℕ) (approvee address name : Text) (e : Option Entry) (choices : List Choice)
    (unsubs : List ℕ) (value : Option Text)
    → on_entry 0 id address name e (alone approvee choices unsubs value)
      ≡ alone approvee (on_answer approvee address name e choices).0 unsubs value
unfolding on_entry
on_entry-alone id approvee address name e choices unsubs value =
    elim (Bool-cases (on_answer approvee address name e choices).1) [
      | inl drawn ↦ rw drawn refl
      | inr same ↦ rw (same, kept approvee address name e choices same) refl
    ]

applicants-alone :
    (id : ℕ) (approvee : Text) (answers : List Answer) (choices : List Choice) (unsubs : List ℕ)
    (value : Option Text)
    → (on_entries id answers (alone approvee choices unsubs value)).applicants
      ≡ on_answers approvee answers choices
unfolding on_entries on_answers
applicants-alone id approvee [] choices unsubs value = refl
applicants-alone id approvee (a ∷ later) choices unsubs value =
    ap (λ t. (on_entries (suc id) later t).applicants)
      (on_entry-alone id approvee a.address a.name a.entry choices unsubs value)
    ∙ applicants-alone (suc id) approvee later
        (on_answer approvee a.address a.name a.entry choices).0 unsubs value

-- While the account stays as it was when the page was opened, the menu is the list after any answers.
pub applicants-on_entries :
    (id : ℕ) (approvee : Text) (answers : List Answer)
    → (on_entries id answers (on_account approvee initial)).applicants
      ≡ on_answers approvee answers []
applicants-on_entries id approvee answers =
    rw (opened-on_account approvee) (applicants-alone id approvee answers [] [] none)

-- ===== src/Examples/Views.antt =====
-- The pages on concrete inputs.
use qrucial_dao.Common.{
  ℕ, ◌≡◌, refl, true, false, ◌&&◌, Option, none, some, List, [], ◌∷◌, ◌++◌, slot, if◌then◌else◌,
  ◌==◌,
}
use qrucial_dao.Common.Text.{Text, codes, text_eq}
use qrucial_dao.Http
use qrucial_dao.Http.{Answer, json}
use qrucial_dao.Forms.Validation.{Hook, initial_hook}
use qrucial_dao.Interactor.{extrinsic, Metadata, plain, pallet_rpc}
use qrucial_dao.Interactor.Menus.{Keys, pallet_options, opening, change}
use qrucial_dao.Interactor.Menus.Laws.{opened, changed, IsFilled, Reach-IsFilled}
use qrucial_dao.ChallengeReport.{Row, add, change_row, empty_row}
use qrucial_dao.ChallengeReport.View.Laws.{shown, shown-change_row}
use qrucial_dao.Challenges.Titles.{Names, name_of, on_name, on_challenges}
use qrucial_dao.Challenges.Titles.Laws as NameEvents
use qrucial_dao.Pages.Subscription.{Run, State, initial, on_account, on_unsub, on_result, is_live}
use qrucial_dao.Pages.Subscription.Laws.{
  Event, unsub, steps, is_settled, opens, account_in_turn, gets_unsub, is_live-Orderly, address_at,
  details-late_unsub,
}
use qrucial_dao.Forms

-- The pallets b and a have a callable each, and c none.
abbrev api : Keys
api = record {
  pallets = λ _. codes "b" ∷ codes "a" ∷ codes "c" ∷ [];
  callables = λ _ p. if text_eq p (codes "c") then [] else codes "f" ∷ [];
}

abbrev metadata : Metadata
metadata = record { storage = λ _ _. plain; args = λ _ _. none; params = λ _ _. none }

menu : pallet_options api extrinsic ≡ codes "a" ∷ codes "b" ∷ []
unfolding pallet_options
menu = refl

Reach-IsFilled_example :
    IsFilled api metadata (change api metadata (pallet_rpc (codes "a")) (opening api metadata))
Reach-IsFilled_example =
    Reach-IsFilled api metadata
      (change api metadata (pallet_rpc (codes "a")) (opening api metadata))
      (changed (pallet_rpc (codes "a")) opened)

-- The risk of an addition.
abbrev hook : Hook
hook = initial_hook []

abbrev typed_rows : List Row
typed_rows =
    ((codes "tool", [])
      ∷ (codes "addClass", [])
      ∷ (codes "addRisk", codes "3")
      ∷ (codes "addDescrip", [])
      ∷ [])
    ∷ []

typed : change_row 0 (codes "addRisk") (codes "3") (empty_row add ∷ []) ≡ some typed_rows
unfolding change_row empty_row Forms.put
typed = refl

shown-change_row_example : shown add typed_rows hook 0 (codes "addRisk") ≡ (
    if 0 == 0 && text_eq (codes "addRisk") (codes "addRisk")
    then some (codes "3")
    else shown add (empty_row add ∷ []) hook 0 (codes "addRisk"))
shown-change_row_example =
    shown-change_row add hook 0 (codes "addRisk") (codes "3") (empty_row add ∷ []) typed_rows 0
      (codes "addRisk") refl typed

-- The list changes twice, and the answers to the first run come around those to the second.
abbrev names : Names
names = record { runs = []; auditor_names = some (some (codes "ann")) ∷ [] }

abbrev bob : Answer (Option (List (Option Text)))
bob = json true 200 (codes "OK") (some (some (codes "bob") ∷ []))

abbrev answers : List NameEvents.Event
answers =
    NameEvents.changed
    ∷ NameEvents.named 1 0 (json true 200 (codes "OK") (some (some (codes "eve") ∷ [])))
    ∷ NameEvents.named 0 0 (json true 200 (codes "OK") (some []))
    ∷ []

named_bob : name_of bob ≡ some (some (codes "bob"))
unfolding name_of Http.read_json
named_bob = refl

slot-on_name_example :
    slot 0 (on_name 0 1 bob (NameEvents.steps answers (on_challenges names))).auditor_names
    ≡ NameEvents.last_name 0 0
        (answers ++ (NameEvents.named 0 1 bob ∷ []))
        (slot 0 names.auditor_names)
slot-on_name_example = NameEvents.slot-on_name answers names 1 0 bob (some (codes "bob")) named_bob

-- The page asks for the account A, gets the function that ends it, and asks for B.
abbrev first_account : State Text
first_account = on_unsub 0 (on_account (some (codes "A")) initial)

first_account_settled : is_settled first_account.runs ≡ true
unfolding on_unsub on_account
first_account_settled = refl

is_live-Orderly_example : is_live 1 (on_account (some (codes "B")) first_account).runs ≡ false
is_live-Orderly_example = is_live-Orderly 0 (
    account_in_turn (some (codes "B")) first_account_settled
      (gets_unsub 0 (account_in_turn (some (codes "A")) refl opens)))

-- The account B comes before the function for A, which comes later.
abbrev events : List (Event Text)
events = unsub 0 ∷ unsub 1 ∷ []

abbrev pending_run : Run
pending_run = record { address = some (codes "A"); has_unsub = false; is_ended = false }

details-late_unsub_example :
    let final =
      steps events
        (on_account (some (codes "B")) (record { runs = pending_run ∷ []; details = none })) in
    (i : ℕ) × (address_at i final.runs ≡ some (codes "A"))
    × ((v : Option Text) → (on_result i v final).details ≡ v)
details-late_unsub_example =
    details-late_unsub pending_run [] (codes "A") none (codes "B") events refl refl refl

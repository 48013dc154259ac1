-- ===== src/Examples/Node.antt =====
-- The auditors of a chain.
use Prim.Native.Nat.{◌^◌}
use qrucial_dao.Common.{
  ◌<◌, ℕ, ◌+◌, ◌-◌, ◌≡◌, refl, Bool, true, Option, none, some, [], ◌∷◌, ◌++◌, arith, if◌then◌else◌,
  ◌==◌, none-ne-some, true≢false,
}
use qrucial_dao.Common.Text.{Text, codes}
use qrucial_dao.Approval.{listed}
use qrucial_dao.Node.{signed, ok, Currency, insert}
use qrucial_dao.Node.Elo.{calculate, calculate_expected, winner_new, looser_new}
use qrucial_dao.Node.Auditors.{AuditorData, Config, State, approved, approve_auditor, Winner}
use qrucial_dao.Node.Auditors.Fine.{AllFine, AllFine-insert}
use qrucial_dao.Node.Auditors.Laws.{sign_up_by, dispatch, start, call, Reach-AllFine}
use qrucial_dao.Node.Auditors.Menu.{answers_of, applicants-approve_auditor}
use qrucial_dao.Node.Auditors
use qrucial_dao.Node.Auditors.Menu
use qrucial_dao.Node.Auditors.Welcome
use qrucial_dao.Node.Auditors.Welcome.{shown, shown-approve_auditor}
use qrucial_dao.Pages.Auditors.{View, waiting, view, on_details}
use qrucial_dao.Approval
use qrucial_dao.Approval.Page
use qrucial_dao.Approval.Page.Laws.{on_entries}
use qrucial_dao.Node.Auditors.{has_enough_rank}
use qrucial_dao.Node.Auditors.Status.{Step, status}
use qrucial_dao.Node.Auditors.Moves.{dispatch-Moves}

-- Ten to 0, to 1, to 1/2 and to these with a sign, in units of 2^-31.
unfoldable pub powers : Bool → ℕ → Option ℕ
powers negative size =
    if size == 0
    then some (2 ^ 31)
    else if size == 2 ^ 31
    then some (if negative then 214748365 else 21474836480)
    else some (if negative then 679093957 else 6790939572)

abbrev pub ann : Text
ann = codes "A"

abbrev pub bob : Text
bob = codes "B"

abbrev pub eve : Text
eve = codes "E"

-- The example of the source: 1200 wins against 1400.
calculate_1200 : calculate powers 1200 1400 ≡ some (1224, 1376)
unfolding calculate powers calculate_expected winner_new looser_new
calculate_1200 = refl

-- A currency of which everyone has enough.
abbrev pub currency : Currency
currency = record {
  Balances = ℕ;
  reserve = λ _ amount total. some (total + amount);
  unreserve = λ _ amount total. total - amount;
  withdraw = λ _ amount total. some total;
}

abbrev pub config : Config
config = record {
  currency = currency;
  min_auditor_stake = 100;
  initial_auditor_score = 1000;
  minimal_approver_score = 2000;
  pow = powers;
}

abbrev pub ann_data : AuditorData
ann_data = record { score = some 2400; profile_hash = codes "0x1"; approved_by = [] }

abbrev pub genesis : State config
genesis = record { auditor_map = insert ann ann_data (λ _. none); balances = 0; events = [] }

genesis-AllFine : AllFine genesis.auditor_map
genesis-AllFine =
    AllFine-insert ann ann_data (λ _. none)
      (record { distinct = refl; few = omega arith; fewer = λ e. absurd (true≢false e) })
      (λ x d h. absurd (none-ne-some h))

-- After the sign-up of bob.
abbrev signed_up : State config
signed_up = record {
  auditor_map =
      insert bob (record { score = none; profile_hash = codes "0x2"; approved_by = [] })
        genesis.auditor_map;
  balances = 100;
  events = Auditors.signed_up bob ∷ [];
}

signed_up-dispatch : dispatch config (sign_up_by (signed bob) (codes "0x2")) genesis ≡ ok signed_up
unfolding dispatch Auditors.sign_up
signed_up-dispatch = refl

Reach-AllFine_example : AllFine signed_up.auditor_map
Reach-AllFine_example =
    Reach-AllFine config genesis signed_up genesis-AllFine
      (call (sign_up_by (signed bob) (codes "0x2")) start signed_up-dispatch)

-- Ann has approved bob.
abbrev once_approved : State config
once_approved = record signed_up {
  auditor_map =
      insert bob (record { score = none; profile_hash = codes "0x2"; approved_by = ann ∷ [] })
        signed_up.auditor_map;
}

bob_waits : shown (signed_up.auditor_map bob) ≡ waiting 0
unfolding shown Welcome.told view on_details
bob_waits = refl

approved_by_ann : approve_auditor config (signed ann) bob signed_up ≡ ok once_approved
unfolding approve_auditor
approved_by_ann = refl

shown-approve_auditor_example :
    (0 < 3)
    × (shown (once_approved.auditor_map bob)
        ≡ (if 0 + 1 == 3 then View.approved 1000 else waiting (0 + 1)))
shown-approve_auditor_example =
    shown-approve_auditor config (signed ann) bob 0 signed_up once_approved bob_waits
      approved_by_ann

offered_to_ann :
    listed bob
      (on_entries 0
        (answers_of signed_up.auditor_map ((bob, codes "bob") ∷ []))
        (Page.on_account ann Page.initial)).applicants
    ≡ true
unfolding on_entries Page.on_account Page.on_entry answers_of Menu.entry_of Approval.on_answer
    Approval.update
offered_to_ann = refl

allowed_ann : Approval.is_allowed (some 2400) (some config.minimal_approver_score) ≡ true
unfolding Approval.is_allowed
allowed_ann = refl

applicants-approve_auditor_example :
    (theirs : AuditorData) × (signed_up.auditor_map bob ≡ some theirs)
    × (approve_auditor config (signed ann) bob signed_up
        ≡ ok (record signed_up {
          auditor_map =
              insert bob
                (approved config theirs (theirs.approved_by ++ (ann ∷ [])))
                signed_up.auditor_map;
        }))
applicants-approve_auditor_example =
    applicants-approve_auditor config signed_up ann bob ((bob, codes "bob") ∷ []) ann_data
      Reach-AllFine_example (omega arith) refl allowed_ann refl offered_to_ann

dispatch-Moves_example :
    Step 1000 (status (genesis.auditor_map bob)) (status (signed_up.auditor_map bob))
dispatch-Moves_example =
    dispatch-Moves config (sign_up_by (signed bob) (codes "0x2")) genesis signed_up
      signed_up-dispatch bob

-- The loser of a game of two low scores has nearly 2^32 after it.
calculate_5 : calculate powers 5 5 ≡ some (21, 4294967285)
unfolding calculate powers calculate_expected winner_new looser_new
calculate_5 = refl

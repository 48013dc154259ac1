-- ===== src/Approval/Page.antt =====
-- The page with the menu of the auditors to approve
-- (frontend/substrate-front-end-template/src/ApproveAuditor.js). Layout and style are left out.
pub mod Laws
use qrucial_dao.Common.{
  ℕ, zero, suc, Bool, true, false, Option, none, some, List, [], ◌∷◌, ◌++◌, if◌then◌else◌, ◌==◌,
  any, get_elem?,
}
use qrucial_dao.Common.Text.{Text, codes}
use qrucial_dao.TxButton.{Scalar, Input, plain, ParamField, signed_tx}
use qrucial_dao.TxButton.Guard.{Button}
use qrucial_dao.Approval.{Choice, Entry, on_answer, is_allowed}

-- A run of the effect: the account that it looks for, its `signedUps`, and the functions that it was
-- given so far, each by the subscription that it ends.
pub record Run : Type 0 where
  pub approvee : Text
  pub signed_ups : List Choice
  pub unsub_all : List ℕ

-- The runs, the latest last, the subscriptions that were ended, and the state of the page, which is
-- drawn with an account alone.
pub record State : Type 0 where
  pub runs : List Run
  pub ended : List ℕ
  pub applicants : List Choice
  pub dropdown_value : Option Text

abbrev pub initial : State
initial = record { runs = []; ended = []; applicants = []; dropdown_value = none }

-- What the cleanup ends: the function of a promise that comes later is not called.
abbrev pub last_unsubs : List Run → List ℕ
last_unsubs [] = []
last_unsubs (r ∷ []) = r.unsub_all
last_unsubs (r ∷ q ∷ runs) = last_unsubs (q ∷ runs)

-- The effect as the account changes: the menu keeps what it had until an answer draws it again.
unfoldable pub on_account : Text → State → State
on_account address s = record s {
  runs = s.runs ++ (record { approvee = address; signed_ups = []; unsub_all = [] } ∷ []);
  ended = last_unsubs s.runs ++ s.ended;
  dropdown_value = none;
}

abbrev pub update_run : ℕ → (Run → Run) → List Run → List Run
update_run i f [] = []
update_run zero f (r ∷ runs) = f r ∷ runs
update_run (suc i) f (r ∷ runs) = r ∷ update_run i f runs

-- `.then(unsub => unsubAll.push(unsub))`.
unfoldable pub on_unsub : ℕ → ℕ → State → State
on_unsub run id s = record s {
  runs = update_run run (λ r. record r { unsub_all = r.unsub_all ++ (id ∷ []) }) s.runs;
}

abbrev pub write_run : ℕ → Text → Text → Option Entry → Option Run → State → State
write_run run address name e none s = s
write_run run address name e (some r) s =
    let (choices, is_drawn) = on_answer r.approvee address name e r.signed_ups in
    record s {
      runs = update_run run (λ q. record q { signed_ups = choices }) s.runs;
      applicants = if is_drawn then choices else s.applicants;
    }

-- The handler of an answer to a run on an auditor, from a subscription that is not ended.
unfoldable pub on_entry : ℕ → ℕ → Text → Text → Option Entry → State → State
on_entry run id address name e s =
    if any (λ k. k == id) s.ended then s else write_run run address name e (get_elem? s.runs run) s

unfoldable pub on_change : Text → State → State
on_change value s = record s { dropdown_value = some value }

-- `txOnClickHandler`, once the press was handled.
unfoldable pub on_transaction : State → State
on_transaction s = record s { dropdown_value = none }

abbrev pub input_of : {N : Type 0} → Option Text → Input N
input_of none = plain Scalar.null
input_of (some v) = plain (Scalar.str v)

-- The button, by the name and the type of the parameter in the metadata.
unfoldable pub button : {N : Type 0} → Option Text → Option Text → State → Button N
button name type s = record {
  type = signed_tx;
  disabled = false;
  pallet_rpc = some (codes "auditModule");
  callable = some (codes "approveAuditor");
  input_params = input_of s.dropdown_value ∷ [];
  param_fields = record { name = name; type = type; optional = false } ∷ [];
}

-- The form, which is drawn only for a score that is high enough: the options of the menu and its
-- value.
unfoldable pub form : Option ℕ → Option ℕ → State → Option (List Choice × Option Text)
form score min s = if is_allowed score min then some (s.applicants, s.dropdown_value) else none

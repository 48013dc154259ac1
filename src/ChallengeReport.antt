-- ===== src/ChallengeReport.antt =====
-- A challenge of a report: the rows of its form (`RemoveVuln`, `AddVuln` and `PatchVuln`,
-- frontend/substrate-front-end-template/src/ChallengeReportInputs.js), and the extrinsic that is
-- made of them (ChallengeReportButton.js).
pub mod Laws
pub mod View
use qrucial_dao.Common.{
  ℕ, zero, suc, Bool, true, false, not, ◌||◌, Option, none, some, List, [], ◌∷◌, ◌++◌, map,
  if◌then◌else◌, keep, any, erase_idx,
}
use qrucial_dao.Common.Text.{Text, codes, is_empty}
use qrucial_dao.Forms.{Object, FormValue, get, put}

-- A row of inputs by their names.
abbrev pub Row : Type 0
Row = Object Text

pub data Kind : Type 0 where
  remove add patch : Kind

-- The new row of each kind.
unfoldable pub empty_row : Kind → Row
empty_row remove = (codes "removeId", []) ∷ []
empty_row add =
    (codes "tool", [])
    ∷ (codes "addClass", [])
    ∷ (codes "addRisk", [])
    ∷ (codes "addDescrip", [])
    ∷ []
empty_row patch =
    (codes "patchId", [])
    ∷ (codes "patchClass", [])
    ∷ (codes "patchRisk", [])
    ∷ (codes "patchDescrip", [])
    ∷ []

-- `handleClick`.
unfoldable pub add_row : Kind → List Row → List Row
unfolding empty_row
add_row k rows = rows ++ (empty_row k ∷ [])

-- `handleChange`, and the change of a tool in the menu: `rows[i][name] = value`, where a row that
-- is not there throws.
unfoldable pub change_row : ℕ → Text → Text → List Row → Option (List Row)
change_row i name value [] = none
change_row zero name value (r ∷ rows) = some (put name value r ∷ rows)
change_row (suc i) name value (r ∷ rows) = elim (change_row i name value rows) [
  | none ↦ none
  | some rows' ↦ some (r ∷ rows')
]

-- `handleDelete`.
unfoldable pub delete_row : ℕ → List Row → List Row
delete_row i rows = erase_idx rows i

-- The rows of the three lists.
pub record Draft : Type 0 where
  pub removals : List Row
  pub additions : List Row
  pub patches : List Row

-- What the dialog starts with, and what `closeClear` leaves.
unfoldable pub initial : Draft
initial = record {
  removals = empty_row remove ∷ [];
  additions = empty_row add ∷ [];
  patches = empty_row patch ∷ [];
}

-- Neither undefined nor empty.
abbrev pub truthy : Option Text → Bool
truthy none = false
truthy (some s) = not (is_empty s)

abbrev pub values : List Text → Row → List (Option Text)
values names r = map (λ name. get name r) names

abbrev pub add_names : List Text
add_names = codes "tool" ∷ codes "addClass" ∷ codes "addRisk" ∷ codes "addDescrip" ∷ []

abbrev pub patch_names : List Text
patch_names = codes "patchId" ∷ codes "patchClass" ∷ codes "patchRisk" ∷ codes "patchDescrip" ∷ []

unfoldable pub remove_param : List Row → List (Option Text)
remove_param rows = keep truthy (map (get (codes "removeId")) rows)

unfoldable pub add_param : List Row → List (List (Option Text))
add_param rows = keep (any truthy) (map (values add_names) rows)

unfoldable pub patch_param : List Row → List (List (Option Text))
patch_param rows = keep (any truthy) (map (values patch_names) rows)

-- The arguments of `challengeReport`.
pub record Call : Type 0 where
  pub audit_hash : Text
  pub report_id : ℕ
  pub removals : List (Option Text)
  pub additions : List (List (Option Text))
  pub patches : List (List (Option Text))

-- The call, and the body of the request to the server.
unfoldable pub on_click : Text → ℕ → Text → Draft → Call × Object FormValue
on_click audit_hash report_id challenger d = (
  record {
    audit_hash = audit_hash;
    report_id = report_id;
    removals = remove_param d.removals;
    additions = add_param d.additions;
    patches = patch_param d.patches;
  },
  (codes "audit_hash", FormValue.text audit_hash)
      ∷ (codes "challenger", FormValue.text challenger)
      ∷ [],
)

-- `disabled`, from the three validations of the rows.
abbrev pub is_disabled : (remove add patch : Bool) → Bool
is_disabled r a p = r || a || p

-- ===== src/ChallengeReport/View.antt =====
-- What the form of a challenge draws for its rows, and what its inputs do
-- (frontend/substrate-front-end-template/src/ChallengeReportInputs.js and
-- ChallengeReportButton.js). Layout and style are left out.
pub mod Laws
use qrucial_dao.Common.{
  ℕ, zero, suc, ◌+◌, Bool, true, false, Option, none, some, List, [], ◌∷◌, ◌++◌, map, if◌then◌else◌,
}
use qrucial_dao.Common.Text.{Text, codes}
use qrucial_dao.Common.Decimal.{decimal}
use qrucial_dao.Forms.{Object, FormValue, get}
use qrucial_dao.Forms.Validation.{Hook, flatten, handle_blur, show_error, revalidate}
use qrucial_dao.ChallengeReport.{
  Row, Kind, remove, add, patch, add_row, change_row, delete_row, Draft, initial, is_disabled,
}

-- An `Input` in its `Form.Field`: whether the field is marked as wrong, and so whether its
-- `ErrorLabel` is drawn.
pub record InputView : Type 0 where
  pub type_of_input : Text
  pub placeholder : Option Text
  pub label : Text
  pub name : Text
  pub value : Option Text
  pub is_error : Bool

pub data Item : Type 0 where
  -- The menu of the tools, with its value.
  tools : List Text → Option Text → Item
  -- The button that deletes the row.
  minus : Item
  input : InputView → Item

abbrev pub tool_options : List Text
tool_options = codes "Manual" ∷ codes "Clippy" ∷ codes "CargoAudit" ∷ codes "Octopus" ∷ []

abbrev pub error_text : Text
error_text = codes "Some special characters are not allowed"

abbrev pub entries : Row → Object FormValue
entries [] = []
entries ((k, v) ∷ r) = (k, FormValue.text v) ∷ entries r

-- The form that the hook validates.
unfoldable pub form : List Row → Object FormValue
form rows = flatten (map entries rows)

-- The key of an input for the hook.
abbrev pub field_of : Text → ℕ → Text
field_of name i = name ++ decimal i

module _ (rows : List Row) (hook : Hook) (i : ℕ) (row : Row) where
  unfoldable pub input_of : Text → Option Text → Text → Text → Item
  input_of type_of_input placeholder label name = input (record {
    type_of_input = type_of_input;
    placeholder = placeholder;
    label = label;
    name = name;
    value = get name row;
    is_error = show_error (form rows) hook (field_of name i);
  })

  unfoldable pub remove_items : List Item
  remove_items =
      input_of (codes "number") (some (codes "0")) (codes "Vulnerability Id") (codes "removeId")
      ∷ minus
      ∷ []

  -- The value of the menu is a property `addTool` of the list of rows, which no list has.
  unfoldable pub add_items : List Item
  add_items =
      tools tool_options none
      ∷ minus
      ∷ input_of (codes "number") none (codes "classification") (codes "addClass")
      ∷ input_of (codes "number") none (codes "risk") (codes "addRisk")
      ∷ input_of (codes "text") none (codes "description") (codes "addDescrip")
      ∷ []

  unfoldable pub patch_items : List Item
  patch_items =
      input_of (codes "number") (some (codes "0")) (codes "Vulnerability Id") (codes "patchId")
      ∷ minus
      ∷ input_of (codes "number") none (codes "classification") (codes "patchClass")
      ∷ input_of (codes "number") none (codes "risk") (codes "patchRisk")
      ∷ input_of (codes "text") none (codes "description") (codes "patchDescrip")
      ∷ []

abbrev pub items : Kind → List Row → Hook → ℕ → Row → List Item
items remove rows hook i row = remove_items rows hook i row
items add rows hook i row = add_items rows hook i row
items patch rows hook i row = patch_items rows hook i row

-- `data.map((val, i) => ...)` from an index on.
abbrev pub items_from : Kind → List Row → Hook → ℕ → List Row → List (List Item)
items_from k rows hook i [] = []
items_from k rows hook i (r ∷ later) = items k rows hook i r ∷ items_from k rows hook (suc i) later

-- `RemoveVuln`, `AddVuln` and `PatchVuln`: their title, and the items of each row.
pub record ListView : Type 0 where
  pub title : Text
  pub rows : List (List Item)

unfoldable pub remove_vuln : List Row → Hook → ListView
remove_vuln rows hook = record {
  title = codes "Remove vulnerabilities";
  rows = items_from remove rows hook 0 rows;
}

unfoldable pub add_vuln : List Row → Hook → ListView
add_vuln rows hook = record {
  title = codes "Add vulnerabilities";
  rows = items_from add rows hook 0 rows;
}

unfoldable pub patch_vuln : List Row → Hook → ListView
patch_vuln rows hook = record {
  title = codes "Patch vulnerabilities";
  rows = items_from patch rows hook 0 rows;
}

abbrev pub view : Kind → List Row → Hook → ListView
view remove = remove_vuln
view add = add_vuln
view patch = patch_vuln

-- What the user does: the button `+`, the button `-` of a row, a change of an input, and the leaving
-- of an input.
pub data RowEvent : Type 0 where
  plus : RowEvent
  minus_at : ℕ → RowEvent
  typed : ℕ → Text → Text → RowEvent
  left_field : ℕ → Text → RowEvent

abbrev pub with_hook : Hook → Option (List Row) → Option (List Row × Hook)
with_hook hook none = none
with_hook hook (some rows) = some (rows, hook)

-- The rows and the hook after it; none where the handler throws.
unfoldable pub on_event : Kind → RowEvent → List Row → Hook → Option (List Row × Hook)
on_event k plus rows hook = some (add_row k rows, hook)
on_event k (minus_at i) rows hook = some (delete_row i rows, hook)
on_event k (typed i name value) rows hook = with_hook hook (change_row i name value rows)
on_event k (left_field i name) rows hook = some (rows, handle_blur (field_of name i) hook)

-- The choice of a tool in the menu of a row.
unfoldable pub on_tool : ℕ → Text → List Row → Hook → Option (List Row × Hook)
on_tool i value rows hook = with_hook hook (change_row i (codes "tool") value rows)

-- The dialog of the button.
pub record Dialog : Type 0 where
  pub is_open : Bool
  pub draft : Draft
  pub disabled_remove : Bool
  pub disabled_add : Bool
  pub disabled_patch : Bool

unfoldable pub on_open : Dialog → Dialog
on_open d = record d { is_open = true }

-- `closeClear`, at Cancel, at the close of the dialog and when the extrinsic is in a block.
unfoldable pub close_clear : Dialog → Dialog
close_clear d = record d { is_open = false; draft = initial }

-- Whether the button of the open dialog that sends the challenge can be pressed.
unfoldable pub can_send : Dialog → Option Bool
can_send d =
    if d.is_open
    then some
        (if is_disabled d.disabled_remove d.disabled_add d.disabled_patch then false else true)
    else none

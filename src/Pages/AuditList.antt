-- ===== src/Pages/AuditList.antt =====
-- The list of audits with its dialog (AuditList.js and BasicModal.js). Layout and style are left
-- out.
use qrucial_dao.Common.{
  Bool, true, false, Option, none, some, List, [], ◌∷◌, ◌++◌, map, if◌then◌else◌,
}
use qrucial_dao.Common.Text.{Text, codes}
use qrucial_dao.Forms.{Object, get}

-- An audit of the server by its values, as texts.
abbrev pub Audit : Type 0
Audit = Object Text

-- `modalValue`: the empty text, or an object.
pub record ModalValue : Type 0 where
  pub content : Audit
  pub header : Option Text

pub record State : Type 0 where
  pub modal_open : Bool
  pub modal_value : Option ModalValue

abbrev pub initial : State
initial = record { modal_open = false; modal_value = none }

-- What the page that has the list gives it: its own `onClick`, or else a `handleClick` or none, and
-- whether there is a button for a report.
pub record Props : Type 0 where
  pub has_on_click : Bool
  pub has_handle_click : Bool
  pub report_button : Bool

-- A click on an audit calls the page's `onClick`, or opens the dialog and calls `handleClick`.
pub data Called : Type 0 where
  on_click handle_click : Audit → Called

unfoldable pub on_audit : Props → Audit → State → State × List Called
on_audit p audit s = if p.has_on_click then (s, on_click audit ∷ []) else (
  record {
    modal_open = true;
    modal_value = some (record { content = audit; header = get (codes "projectUrl") audit });
  },
  if p.has_handle_click then handle_click audit ∷ [] else [],
)

unfoldable pub handle_close : State → State
handle_close s = record s { modal_open = false }

-- A line of the list: the hash, and whether `SendReportButton` stands below.
unfoldable pub lines : Props → List Audit → List (Option Text × Bool)
lines p audits = map (λ a. (get (codes "hash") a, p.report_button)) audits

-- `renderObject`.
abbrev pub entry_lines : Audit → List Text
entry_lines [] = []
entry_lines ((key, value) ∷ later) = (key ++ codes ": " ++ value) ∷ entry_lines later

unfoldable pub render_object : Option ModalValue → List Text
render_object none = codes "No content yet" ∷ []
render_object (some v) = entry_lines v.content

-- The open dialog: its header and its lines.
unfoldable pub modal : State → Option (Option Text × List Text)
modal s =
    if s.modal_open
    then some (elim s.modal_value [ none ↦ none | some v ↦ v.header ], render_object s.modal_value)
    else none

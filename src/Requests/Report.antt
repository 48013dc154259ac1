-- ===== src/Requests/Report.antt =====
-- The url of a report that an auditor sends (`SendReportButton`,
-- frontend/substrate-front-end-template/src/ReportButton.js).
pub mod View
use qrucial_dao.Common.{Bool, true, false, Option, none, some, List, [], ◌∷◌, ◌++◌, if◌then◌else◌}
use qrucial_dao.Common.Text.{Text, codes, is_empty}
use qrucial_dao.Forms.{FormValue, Object, text}
use qrucial_dao.Chain.{Effect, post, toast_error}
use qrucial_dao.Http.{Answer, Reply, caught, fetched, read_json, on_reply}

-- `formState` and `open`.
pub record Dialog : Type 0 where
  pub report_url : Text
  pub is_open : Bool

abbrev pub initial : Dialog
initial = record { report_url = []; is_open = false }

unfoldable pub on_change : Text → Dialog → Dialog
on_change value d = record d { report_url = value }

-- `isDisabled`, from the `disabled` of the validation.
unfoldable pub is_disabled : Bool → Dialog → Bool
is_disabled disabled d = if is_empty d.report_url then true else disabled

abbrev pub body : Text → Dialog → Object FormValue
body hash d = (codes "audit_hash", text hash) ∷ (codes "reportUrl", text d.report_url) ∷ []

-- `sendData` with the answer: the dialog, the hash that the page's state is set to, and the
-- effects. The dialog closes on every reply but null, an error of the server included.
unfoldable pub send_data : Text → Answer Reply → Dialog → Dialog × (Option Text × List Effect)
send_data hash a d = elim (read_json a) [
  | caught message ↦ (d, (none, request ∷ toast_error (codes "ERROR " ++ message) ∷ []))
  | fetched (Reply.null message) ↦
      (d, (none, request ∷ toast_error (codes "ERROR " ++ message) ∷ []))
  | fetched r ↦ (record d { is_open = false }, (some hash, request ∷ on_reply false r))
]
  where
    request : Effect
    request = post (codes "/lar/send_report") (body hash d)

-- ===== src/Requests/Report/View.antt =====
-- What the dialog with the url of a report draws (ReportButton.js). Layout and style are left out.
use qrucial_dao.Common.{Bool, true, false, Option, none, some, if◌then◌else◌}
use qrucial_dao.Common.Text.{Text, codes}
use qrucial_dao.Requests.Report.{Dialog, is_disabled}

-- The trigger and both buttons that end the dialog.
unfoldable pub on_open : Dialog → Dialog
on_open d = record d { is_open = true }

unfoldable pub on_close : Dialog → Dialog
on_close d = record d { is_open = false }

-- The input with its error, the label of the error, and whether the button is disabled.
pub record Fields : Type 0 where
  pub error : Bool
  pub value : Text
  pub label : Option Text
  pub disabled : Bool

-- `disabled` and `showError` are those of the validation.
unfoldable pub view : Bool → (Text → Bool) → Dialog → Option Fields
view disabled show_error d =
    if d.is_open
    then some (record {
      error = show_error (codes "reportUrl");
      value = d.report_url;
      label =
          if show_error (codes "reportUrl") then some (codes "Needs to be a valid url") else none;
      disabled = is_disabled disabled d;
    })
    else none

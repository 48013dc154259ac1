-- ===== src/Requests/View.antt =====
-- What the page with the audits to take draws (AuditRequests.js). Layout and style are left out.
use qrucial_dao.Common.{Bool, Option, none, some, List, [], ◌∷◌, if◌then◌else◌}
use qrucial_dao.Common.Text.{Text, codes}
use qrucial_dao.Requests.{Audit, TakePage, non_taken, my_audits}

-- The two lists, which are not drawn when they are empty, the text on what a click does, the input
-- and the button.
pub record View : Type 0 where
  pub non_taken_audits : Option (List Audit)
  pub description : Text
  pub selected : Text
  pub button_text : Text
  pub own_audits : Option (List Audit)

abbrev pub shown_list : List Audit → Option (List Audit)
shown_list [] = none
shown_list (a ∷ audits) = some (a ∷ audits)

-- `handleChange`, a click on an audit of the first list.
unfoldable pub handle_change : Audit → TakePage → TakePage
handle_change a p = record p { selected = a.hash }

-- Any typing empties the input.
unfoldable pub on_input : Text → TakePage → TakePage
on_input value p = record p { selected = [] }

abbrev pub drawn : Bool → List Audit → List Audit → TakePage → View
drawn reports audits mine p = record {
  non_taken_audits = shown_list (non_taken audits);
  description =
      if reports
      then codes "you can choose the report you would like to challenge."
      else codes "you can choose the audit to take.";
  selected = p.selected;
  button_text = if reports then codes "Challenge report" else codes "Take it";
  own_audits = shown_list mine;
}

-- Without an account the first audit throws, as none.
unfoldable pub view : Bool → Option Text → List Audit → TakePage → Option View
view reports none [] p = some (drawn reports [] [] p)
view reports none (a ∷ audits) p = none
view reports (some address) audits p = some (drawn reports audits (my_audits address audits) p)

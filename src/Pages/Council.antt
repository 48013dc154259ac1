-- ===== src/Pages/Council.antt =====
-- The page of the council (CouncilPage.js) and the challenge that it shows (ViewChallenge.js).
use qrucial_dao.Common.{ℕ, Bool, false, ◌&&◌, Option, none, some, List, ◌==◌, find}
use qrucial_dao.Common.Text.{Text, text_eq, includes}
use qrucial_dao.Proposal.{Challenge}

-- `isCouncil`: the text of the members, or null, holds the account's address.
unfoldable pub is_council : Option Text → Text → Bool
is_council none address = false
is_council (some details) address = includes details address

-- A report by its keys, with what is shown of it.
pub record Report : Type 0 where
  pub audit_hash : Text
  pub report_id : ℕ
  pub auditor : Text
  pub kind : Text

-- The report that the challenge is about, if it has come yet.
unfoldable pub report_of : Challenge → List Report → Option Report
report_of c = find (λ r. text_eq r.audit_hash c.audit_hash && r.report_id == c.report_id)

-- An audit of the server.
pub record Audit : Type 0 where
  pub hash : Text
  pub project_url : Text

unfoldable pub audit_url : Challenge → List Audit → Option Text
audit_url c audits = elim (find (λ a. text_eq a.hash c.audit_hash) audits) [
  | none ↦ none
  | some a ↦ some a.project_url
]

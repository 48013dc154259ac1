-- ===== src/Reports/View.antt =====
-- What the page of the reports draws (frontend/substrate-front-end-template/src/Reports.js) and when
-- it asks the server. Layout and style are left out.
use qrucial_dao.Common.{
  ℕ, suc, Bool, true, false, not, Option, none, some, List, [], ◌∷◌, ◌++◌, if◌then◌else◌,
}
use qrucial_dao.Common.Text.{Text, codes, is_empty, text_eq}
use qrucial_dao.Pages.Refetch
use qrucial_dao.Reports.{Report, Shown, Total, reports_of}

-- An audit of the list as far as it is drawn; a value that is missing draws nothing.
pub record ShownAudit : Type 0 where
  pub hash : Text
  pub project_url : Option Text
  pub state : Option Text
  pub auto_report : Option Text
  pub manual_report : Option Text

-- `reportsOfAudit`: an empty array before an audit is shown.
unfoldable pub reports_of_audit : Option ShownAudit → Total → Option (List (Option Shown))
reports_of_audit none t = some []
reports_of_audit (some a) t = if is_empty a.hash then some [] else reports_of a.hash t

-- A vulnerability by the texts that are drawn of it.
pub record Vulnerability : Type 0 where
  pub tool : Text
  pub classification : Text
  pub risk : Text
  pub description : Text

unfoldable pub audit_rows : ShownAudit → List (Text × Option Text)
audit_rows a =
    (codes "Project Url", a.project_url)
    ∷ (codes "State", a.state)
    ∷ (codes "Auto Report", a.auto_report)
    ∷ (codes "Manual Report", a.manual_report)
    ∷ []

-- A row of the table of a report.
pub data Row : Type 0 where
  cell : Text → Text → Row
  title : Text → Row
  vulnerability : ℕ → List (Text × Text) → Row
  -- `ChallengeReportButton` with its properties.
  challenge_button : (audit_hash : Text) (report_id : ℕ) → Row

abbrev pub vulnerability_rows : (Text → Vulnerability) → ℕ → List Text → List Row
vulnerability_rows read i [] = []
vulnerability_rows read i (t ∷ later) =
    (let v = read t in
      vulnerability i (
        (codes "tool", v.tool)
        ∷ (codes "classification", v.classification)
        ∷ (codes "risk", v.risk)
        ∷ (codes "description", v.description)
        ∷ []))
    ∷ vulnerability_rows read (suc i) later

-- `rep.auditor !== currentAccount.address`.
unfoldable pub can_challenge : Text → Report → Bool
can_challenge address r = not (text_eq r.auditor address)

-- The table of a report; `read` takes a vulnerability apart.
unfoldable pub report_rows : (Text → Vulnerability) → Text → Text → Shown → List Row
report_rows read address hash s =
    (cell (codes "auditor") s.report.auditor ∷ cell (codes "kind") s.report.kind ∷ [])
    ++ (elim s.vulnerabilities [
      | none ↦ []
      | some vs ↦ title (codes "vulnerabilities") ∷ vulnerability_rows read 0 vs
    ])
    ++ (if can_challenge address s.report then challenge_button hash s.report_id ∷ [] else [])

-- `map` passes the holes of an array over.
abbrev pub tables : (Text → Vulnerability) → Text → Text → List (Option Shown) → List (List Row)
tables read address hash [] = []
tables read address hash (none ∷ later) = tables read address hash later
tables read address hash (some s ∷ later) =
    report_rows read address hash s ∷ tables read address hash later

-- What is drawn: whether the list of the audits is, and for an audit that is shown its rows and
-- the tables of its reports.
pub record View : Type 0 where
  pub has_list : Bool
  pub shown : Option (List (Text × Option Text) × List (List Row))

unfoldable pub view : (Text → Vulnerability) → Text → Option ShownAudit → Total → View
view read address none t = record {
  has_list = (elim t.records [ [] ↦ false | r ∷ rs ↦ true ]);
  shown = none;
}
view read address (some a) t = record {
  has_list = elim t.records [ [] ↦ false | r ∷ rs ↦ true ];
  shown = some (
    audit_rows a,
    elim (reports_of_audit (some a) t) [ none ↦ [] | some rs ↦ tables read address a.hash rs ],
  );
}

-- When the audits are fetched: at once as the page opens, and later as the account changes, by the
-- same effects as on the page of the requestor.
unfoldable pub on_account : Option Text → Refetch.State → Refetch.State × List Refetch.Fetch
on_account none = Refetch.set_change Refetch.absent
on_account (some address) = Refetch.set_change (Refetch.text address)

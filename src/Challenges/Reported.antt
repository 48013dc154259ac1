-- ===== src/Challenges/Reported.antt =====
-- The reports that have challenges: `getReportData` of
-- frontend/substrate-front-end-template/src/Challenges.js.
use qrucial_dao.Common.{ℕ, suc, Option, none, some, List, [], ◌∷◌, ◌++◌, get_elem?, set}
use qrucial_dao.Common.Text.{Text}

-- A report of the node.
pub record Report : Type 0 where
  pub auditor : Text
  pub kind : Text

-- The object that the handlers share; before the answer on them the vulnerabilities are undefined,
-- as none, and then null or a list.
pub record Reported : Type 0 where
  pub report : Report
  pub audit_hash : Text
  pub report_id : ℕ
  pub vulnerabilities : Option (Option (List Text))

-- The objects that were made, and `auditReports` by the places of its objects, so that a later
-- write to an object shows wherever it stands.
pub record Store : Type 0 where
  pub objects : List Reported
  pub audit_reports : List ℕ

abbrev pub objects_from : Text → ℕ → List Report → List Reported
objects_from hash index [] = []
objects_from hash index (r ∷ reports) =
    record { report = r; audit_hash = hash; report_id = index; vulnerabilities = none }
    ∷ objects_from hash (suc index) reports

-- The handler of the reports of a hash: the queries that it makes go by the new objects.
unfoldable pub on_reports : Text → Option (List Report) → Store → Store
on_reports hash none s = s
on_reports hash (some reports) s = record s { objects = s.objects ++ objects_from hash 0 reports }

-- The handler of the vulnerabilities of an object: it is pushed at each answer.
unfoldable pub on_vulnerabilities : ℕ → Option (List Text) → Store → Store
on_vulnerabilities place vulns s = elim (get_elem? s.objects place) [
  | none ↦ s
  | some o ↦ record {
    objects = set s.objects place (record o { vulnerabilities = some vulns });
    audit_reports = s.audit_reports ++ (place ∷ []);
  }
]

-- `reportsState`.
unfoldable pub reports_state : Store → List Reported
reports_state s = read s.audit_reports
  where
    read : List ℕ → List Reported
    read [] = []
    read (p ∷ places) = elim (get_elem? s.objects p) [
      | none ↦ read places
      | some o ↦ o ∷ read places
    ]

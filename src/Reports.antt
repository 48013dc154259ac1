-- ===== src/Reports.antt =====
-- The page of the reports (frontend/substrate-front-end-template/src/Reports.js): the audits that
-- have reports, and the reports of each with their vulnerabilities.
pub mod Laws
pub mod Runs
pub mod View
use qrucial_dao.Common.{
  ℕ, zero, suc, Bool, true, false, Option, none, some, List, [], ◌∷◌, any, upsert, find, assign,
  ◌++◌, set, get_elem?,
}
use qrucial_dao.Common.Text.{Text, text_eq}

-- An audit of the server, by its hash and the texts among its other values.
pub record Audit : Type 0 where
  pub hash : Text
  pub more : List Text

-- A report of the node, and the list of the vulnerabilities or null.
pub record Report : Type 0 where
  pub auditor : Text
  pub kind : Text

pub record Shown : Type 0 where
  pub report : Report
  pub report_id : ℕ
  pub vulnerabilities : Option (List Text)

-- `auditClone` with its reports.
pub record Detail : Type 0 where
  pub audit : Audit
  pub reports : List Report

-- `Object.values(elem).includes(auditHash)`; the array of the reports is no text.
unfoldable pub holds : Text → Detail → Bool
holds hash d = any (λ v. text_eq v hash) (d.audit.hash ∷ d.audit.more)

-- The handler of `getData` for an answer on an audit.
unfoldable pub on_reports : Audit → Option (List Report) → List Detail → List Detail
on_reports a none details = details
on_reports a (some []) details = details
on_reports a (some (r ∷ rs)) details =
    upsert (holds (a.hash)) (record { audit = a; reports = r ∷ rs }) details

-- `auditsReports`, one array for each audit that the effect walks; a record of `totalReports`
-- holds the hash and this very array, so that it shows every later write.
abbrev pub Arrays : Type 0
Arrays = List (List (Option Shown))

-- An array of the store, and the write to it.
abbrev pub array_at : ℕ → Arrays → List (Option Shown)
array_at i [] = []
array_at zero (a ∷ others) = a
array_at (suc i) (a ∷ others) = array_at i others

abbrev pub write_at : ℕ → ℕ → Shown → Arrays → Arrays
write_at i j v [] = []
write_at zero j v (a ∷ others) = assign j v a ∷ others
write_at (suc i) j v (a ∷ others) = a ∷ write_at i j v others

-- `totalReports` with the arrays by their places.
pub record Total : Type 0 where
  pub arrays : Arrays
  pub records : List (Text × ℕ)

-- The handler of `setReportData` for the vulnerabilities of a report: `place` is that of the
-- audit among those the effect walks.
unfoldable pub on_vulnerabilities : ℕ → Text → Report → ℕ → Option (List Text) → Total → Total
on_vulnerabilities place hash r id vulns t = record {
  arrays =
      write_at place id (record { report = r; report_id = id; vulnerabilities = vulns }) (t.arrays);
  records = upsert (λ e. text_eq (e.0) hash) (hash, place) (t.records);
}

-- `setReportData` for so many audits begins with an empty array for each.
abbrev pub empty_arrays : ℕ → Arrays
empty_arrays zero = []
empty_arrays (suc n) = [] ∷ empty_arrays n

abbrev pub start : ℕ → Total
start n = record { arrays = empty_arrays n; records = [] }

-- The `totalReports` of each run of the effect, none of which ends its subscriptions, and `reports`,
-- which is a copy of the one that was written last; the arrays of that are written only with it.
pub record State : Type 0 where
  pub totals : List Total
  pub reports : Total

-- The effect as the list of the audits changes, to so many.
unfoldable pub on_audit_data : ℕ → State → State
on_audit_data n s = record s { totals = s.totals ++ (start n ∷ []) }

-- What an answer to a run does to its `totalReports`, which it has from its beginning on, and then
-- to the page.
abbrev pub write_run : ℕ → (Total → Total) → Option Total → State → State
write_run run f none s = s
write_run run f (some t) s = record { totals = set s.totals run (f t); reports = f t }

-- An answer to a run, with the place and the hash of the audit.
unfoldable pub on_run : ℕ → ℕ → Text → Report → ℕ → Option (List Text) → State → State
on_run run place hash r id vulns s =
    write_run run (on_vulnerabilities place hash r id vulns) (get_elem? s.totals run) s

-- `reports.find(elem => elem.auditHash === auditHash)?.reports` of what is shown.
unfoldable pub reports_of : Text → Total → Option (List (Option Shown))
reports_of hash t = elim (find (λ e. text_eq (e.0) hash) (t.records)) [
  | none ↦ none
  | some e ↦ some (array_at (e.1) (t.arrays))
]

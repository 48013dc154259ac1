-- ===== src/Node/Reviews.antt =====
-- The reviews on the chain (qdao-node/exo-pallet/src/lib.rs): their requests, the reports of the
-- auditors and the challenges of these. Accounts and hashes are texts. The decoding of a call
-- refuses a list that is longer than its type allows, before these handlers run.
pub mod Calls
pub mod Names
pub mod Sound
pub mod Keep
pub mod Told
pub mod Laws
pub mod Listed
use qrucial_dao.Common.{
  ℕ, zero, suc, ◌+◌, Bool, true, false, not, Option, none, some, List, [], ◌∷◌, ◌++◌, if◌then◌else◌,
  leb, ltb, ◌==◌, any, length, is_some, get_elem?, set, map, ◌&&◌,
}
use qrucial_dao.Common.Text.{Text, text_eq}
use qrucial_dao.Node.{
  Origin, Error, Dispatch, ok, err, ◌>>=◌, ◌>>◌, ensure, ok_or, ensure_signed, Storage, insert,
}
use qrucial_dao.Node.Auditors.{Winner}

abbrev pub max_url_length : ℕ
max_url_length = 256

abbrev pub max_reports_per_review : ℕ
max_reports_per_review = 10

abbrev pub max_challenges_per_report : ℕ
max_challenges_per_report = 10

pub record Review : Type 0 where
  pub requestor : Text
  pub min_auditor_score : ℕ
  pub bounty : ℕ
  pub hash : Text
  pub url : Text

pub data Tool : Type 0 where
  manual clippy cargo_audit octopus : Tool

pub record Vulnerability : Type 0 where
  pub tool : Tool
  pub classification : ℕ
  pub risk : ℕ
  pub description : Text

pub data ReportKind : Type 0 where
  invalid success : ReportKind

pub record Report : Type 0 where
  pub auditor : Text
  pub kind : ReportKind

pub data ChallengeState : Type 0 where
  removed pending accepted rejected : ChallengeState

pub record PatchVulnerability : Type 0 where
  pub vulnerability_id : ℕ
  pub risk : Option ℕ
  pub classification : Option ℕ
  pub description : Option Text

pub record Challenge : Type 0 where
  pub auditor : Text
  pub state : ChallengeState
  pub remove_vulnerabilities : List ℕ
  pub add_vulnerabilities : List Vulnerability
  pub patch_vulnerabilities : List PatchVulnerability

pub data Event : Type 0 where
  review_request : Review → Event
  review_invalid_event review_report_created :
      (hash : Text) (report_id : ℕ) (auditor : Text) → Event
  vulnerability_added : (hash : Text) (report_id vulnerability_id : ℕ) → Vulnerability → Event
  challenge_started : (hash : Text) (report_id challenge_id : ℕ) (auditor : Text) → Event
  challenge_accepted challenge_removed challenge_rejected :
      (hash : Text) (report_id challenge_id : ℕ) → Event

-- The runtime around the pallet: `T::Currency` and `T::Game` with their state, and the origins.
pub record Runtime : Type 1 where
  pub World : Type 0
  pub reserve : Text → ℕ → World → Option World
  pub has_enough_rank : Text → ℕ → World → Bool
  pub apply_result : Text → Text → Winner → World → Dispatch World
  pub approve_challenge_origin : Origin → Dispatch (Unit {0})
  pub reject_challenge_origin : Origin → Dispatch (Unit {0})
  pub remove_challenge_origin : Origin → Dispatch (Unit {0})

-- The maps with default values give an empty list where nothing is stored.
pub record State (runtime : Runtime) : Type 0 where
  pub reviews : Storage Review
  pub reports : Text → List Report
  pub vulnerabilities : Text → ℕ → Option (List Vulnerability)
  pub challenges : Text → ℕ → List Challenge
  pub world : runtime.World
  pub events : List Event

abbrev pub write : {V : Type 0} → Text → V → (Text → V) → Text → V
write k v m j = if text_eq k j then v else m j

abbrev pub write_at : {V : Type 0} → Text → ℕ → V → (Text → ℕ → V) → Text → ℕ → V
write_at k i v m j l = if text_eq k j && i == l then v else m j l

-- `try_append` to a list of `max` at most.
abbrev pub try_append : {A : Type 0} → ℕ → A → List A → Option (List A)
try_append max x xs = if ltb (length xs) max then some (xs ++ (x ∷ [])) else none

abbrev pub reporters : List Report → List Text
reporters [] = []
reporters (r ∷ rs) = r.auditor ∷ reporters rs

abbrev pub challengers : List Challenge → List Text
challengers [] = []
challengers (c ∷ cs) = c.auditor ∷ challengers cs

-- The events of the vulnerabilities from an id on, the latest first.
unfoldable pub added : Text → ℕ → ℕ → List Vulnerability → List Event → List Event
added hash report_id id [] events = events
added hash report_id id (v ∷ vs) events =
    added hash report_id (id + 1) vs (vulnerability_added hash report_id id v ∷ events)

abbrev pub set_state : ℕ → ChallengeState → List Challenge → List Challenge
set_state i st [] = []
set_state zero st (c ∷ cs) = record c { state = st } ∷ cs
set_state (suc i) st (c ∷ cs) = c ∷ set_state i st cs

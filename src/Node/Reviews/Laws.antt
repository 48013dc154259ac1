-- ===== src/Node/Reviews/Laws.antt =====
-- The states of the chain, and what they keep.
use mathlib.Core.Path.{subst}
use qrucial_dao.Common.{ℕ, ◌≡◌, refl, none, List, [], arith}
use qrucial_dao.Common.Text.{Text}
use qrucial_dao.Node.{Origin, Dispatch, ok, Holds}
use qrucial_dao.Node.Reviews.{Vulnerability, PatchVulnerability, Runtime, State}
use qrucial_dao.Node.Reviews.Calls.{
  request_review, review_invalid, review_report, challenge_report, approve_challenge,
  reject_challenge, remove_challenge,
}
use qrucial_dao.Node.Reviews.Sound.{IsSound}
use qrucial_dao.Node.Reviews.Keep.{
  request_review-IsSound, review_invalid-IsSound, review_report-IsSound, challenge_report-IsSound,
  approve_challenge-IsSound, reject_challenge-IsSound, remove_challenge-IsSound,
}

pub data Call : Type 0 where
  request : Origin → (url hash : Text) (bounty score : ℕ) → Call
  invalid_by : Origin → Text → Call
  report_by : Origin → Text → List Vulnerability → Call
  challenge_by : Origin → Text → ℕ → List ℕ → List Vulnerability → List PatchVulnerability → Call
  approve_by reject_by remove_by : Origin → Text → ℕ → ℕ → Call

module _ (runtime : Runtime) where
  unfoldable pub dispatch : Call → State runtime → Dispatch (State runtime)
  dispatch (request o url hash bounty score) = request_review runtime o url hash bounty score
  dispatch (invalid_by o hash) = review_invalid runtime o hash
  dispatch (report_by o hash vs) = review_report runtime o hash vs
  dispatch (challenge_by o hash r removes adds patches) =
      challenge_report runtime o hash r removes adds patches
  dispatch (approve_by o hash r c) = approve_challenge runtime o hash r c
  dispatch (reject_by o hash r c) = reject_challenge runtime o hash r c
  dispatch (remove_by o hash r c) = remove_challenge runtime o hash r c

  dispatch-IsSound : (c : Call) (s : State runtime) → IsSound s → Holds IsSound (dispatch c s)
  unfolding dispatch
  dispatch-IsSound (request o url hash bounty score) =
      request_review-IsSound runtime o url hash bounty score
  dispatch-IsSound (invalid_by o hash) = review_invalid-IsSound runtime o hash
  dispatch-IsSound (report_by o hash vs) = review_report-IsSound runtime o hash vs
  dispatch-IsSound (challenge_by o hash r removes adds patches) =
      challenge_report-IsSound runtime o hash r removes adds patches
  dispatch-IsSound (approve_by o hash r c) = approve_challenge-IsSound runtime o hash r c
  dispatch-IsSound (reject_by o hash r c) = reject_challenge-IsSound runtime o hash r c
  dispatch-IsSound (remove_by o hash r c) = remove_challenge-IsSound runtime o hash r c

  -- The storage without a review.
  abbrev pub empty : runtime.World → State runtime
  empty world = record {
    reviews = λ _. none;
    reports = λ _. [];
    vulnerabilities = λ _ _. none;
    challenges = λ _ _. [];
    world = world;
    events = [];
  }

  -- The states of the chain: the world around the pallet may change at any time.
  pub data Reach : State runtime → Type 0 where
    start : (world : runtime.World) → Reach (empty world)
    call : {s s' : State runtime} (c : Call) → Reach s → dispatch c s ≡ ok s' → Reach s'
    other :
        {s : State runtime} (world : runtime.World) → Reach s → Reach (record s { world = world })

-- In every state of the chain the reports of a review have distinct auditors, ten at most, as have
-- the challenges of a report, and the auditor of a challenge is not the one of the report, which
-- exists.
pub Reach-IsSound : (runtime : Runtime) (s : State runtime) → Reach runtime s → IsSound s
Reach-IsSound runtime s (start world) = record {
  reports_few = λ _. record { distinct = refl; few = omega arith };
  challenges_few = λ _ _. record { distinct = refl; few = omega arith };
  apart = λ _ _. refl;
}
Reach-IsSound runtime s (call {s = before} c reach eq) =
    subst (Holds IsSound) eq
      (dispatch-IsSound runtime c before (Reach-IsSound runtime before reach))
Reach-IsSound runtime s (other {s = before} world reach) =
    let sound = Reach-IsSound runtime before reach in
    record {
      reports_few = sound.reports_few;
      challenges_few = sound.challenges_few;
      apart = sound.apart;
    }

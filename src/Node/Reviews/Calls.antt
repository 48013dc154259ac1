-- ===== src/Node/Reviews/Calls.antt =====
-- The calls of the pallet of the reviews, and what they share
-- (qdao-node/exo-pallet/src/lib.rs).
use qrucial_dao.Common.{ℕ, not, some, List, ◌∷◌, leb, any, length, is_some, get_elem?}
use qrucial_dao.Common.Text.{Text, text_eq}
use qrucial_dao.Node.{
  Origin, Error, Dispatch, ok, ◌>>=◌, ◌>>◌, ensure, ok_or, ensure_signed, insert,
}
use qrucial_dao.Node.Auditors.{Winner}
use qrucial_dao.Node.Reviews.{
  max_url_length, max_reports_per_review, max_challenges_per_report, Review, Vulnerability, invalid,
  success, ChallengeState, removed, pending, accepted, rejected, PatchVulnerability, Challenge,
  review_request, review_invalid_event, review_report_created, challenge_started,
  challenge_accepted, challenge_removed, challenge_rejected, Runtime, State, write, write_at,
  try_append, reporters, challengers, added, set_state,
}

module _ (runtime : Runtime) where
  unfoldable pub audit_review : Origin → Text → State runtime → Dispatch Text
  audit_review origin hash s = do
    auditor ← ensure_signed origin
    review ← ok_or (s.reviews hash) Error.review_not_found
    ensure (runtime.has_enough_rank auditor review.min_auditor_score s.world)
        Error.not_enough_reputation
    ok auditor

  unfoldable pub new_report_id : Text → Text → State runtime → Dispatch ℕ
  new_report_id auditor hash s = do
    ensure (not (any (text_eq auditor) (reporters (s.reports hash)))) Error.duplicate_report_found
    ok (length (s.reports hash))

  unfoldable pub report_auditor : Text → ℕ → State runtime → Dispatch Text
  report_auditor hash report_id s = do
    report ← ok_or (get_elem? (s.reports hash) report_id) Error.report_not_found
    ok report.auditor

  unfoldable pub new_challenge_id : Text → Text → ℕ → State runtime → Dispatch ℕ
  new_challenge_id auditor hash report_id s = do
    ensure (not (any (text_eq auditor) (challengers (s.challenges hash report_id))))
        Error.duplicate_challenge_found
    ok (length (s.challenges hash report_id))

  unfoldable pub close_challenge :
      Text → ℕ → ℕ → ChallengeState → Winner → State runtime → Dispatch (State runtime)
  unfolding report_auditor
  close_challenge hash report_id challenge_id state winner s = do
    auditor ← report_auditor hash report_id s
    challenge ←
        ok_or (get_elem? (s.challenges hash report_id) challenge_id) Error.challenge_not_found
    world ← runtime.apply_result challenge.auditor auditor winner s.world
    ok (record s {
      challenges =
          write_at hash report_id (set_state challenge_id state (s.challenges hash report_id))
            s.challenges;
      world = world;
    })

  unfoldable pub request_review :
      Origin → Text → Text → ℕ → ℕ → State runtime → Dispatch (State runtime)
  request_review origin url hash bounty min_auditor_score s = do
    requestor ← ensure_signed origin
    ensure (not (is_some (s.reviews hash))) Error.duplicate_review_found
    reserved ← ok_or (runtime.reserve requestor bounty s.world) Error.insufficient_balance
    ensure (leb (length url) max_url_length) Error.url_too_long
    let review : Review = record {
      requestor = requestor;
      min_auditor_score = min_auditor_score;
      bounty = bounty;
      hash = hash;
      url = url;
    }
    ok (record s {
      reviews = insert hash review s.reviews;
      world = reserved;
      events = review_request review ∷ s.events;
    })

  unfoldable pub review_invalid : Origin → Text → State runtime → Dispatch (State runtime)
  unfolding audit_review new_report_id
  review_invalid origin hash s = do
    auditor ← audit_review origin hash s
    report_id ← new_report_id auditor hash s
    reports ←
        ok_or
          (try_append max_reports_per_review (record { auditor = auditor; kind = invalid })
            (s.reports hash))
          Error.too_many_reports
    ok (record s {
      reports = write hash reports s.reports;
      events = review_invalid_event hash report_id auditor ∷ s.events;
    })

  unfoldable pub review_report :
      Origin → Text → List Vulnerability → State runtime → Dispatch (State runtime)
  unfolding audit_review new_report_id
  review_report origin hash vulnerabilities s = do
    auditor ← audit_review origin hash s
    report_id ← new_report_id auditor hash s
    reports ←
        ok_or
          (try_append max_reports_per_review (record { auditor = auditor; kind = success })
            (s.reports hash))
          Error.too_many_reports
    ok (record s {
      reports = write hash reports s.reports;
      vulnerabilities = write_at hash report_id (some vulnerabilities) s.vulnerabilities;
      events =
          added hash report_id 0 vulnerabilities
            (review_report_created hash report_id auditor ∷ s.events);
    })

  unfoldable pub challenge_report :
      Origin
      → Text
      → ℕ
      → List ℕ
      → List Vulnerability
      → List PatchVulnerability
      → State runtime
      → Dispatch (State runtime)
  unfolding audit_review report_auditor new_challenge_id
  challenge_report origin hash report_id removes adds patches s = do
    auditor ← audit_review origin hash s
    reporter ← report_auditor hash report_id s
    ensure (not (text_eq reporter auditor)) Error.cannot_challenge_self
    challenge_id ← new_challenge_id auditor hash report_id s
    let challenge : Challenge = record {
      auditor = auditor;
      state = pending;
      remove_vulnerabilities = removes;
      add_vulnerabilities = adds;
      patch_vulnerabilities = patches;
    }
    challenges ←
        ok_or (try_append max_challenges_per_report challenge (s.challenges hash report_id))
          Error.too_many_challenges
    ok (record s {
      challenges = write_at hash report_id challenges s.challenges;
      events = challenge_started hash report_id challenge_id auditor ∷ s.events;
    })

  unfoldable pub approve_challenge :
      Origin → Text → ℕ → ℕ → State runtime → Dispatch (State runtime)
  unfolding close_challenge
  approve_challenge origin hash report_id challenge_id s = do
    runtime.approve_challenge_origin origin
    closed ← close_challenge hash report_id challenge_id accepted Winner.player0 s
    ok (record closed { events = challenge_accepted hash report_id challenge_id ∷ closed.events })

  unfoldable pub reject_challenge : Origin → Text → ℕ → ℕ → State runtime → Dispatch (State runtime)
  unfolding close_challenge
  reject_challenge origin hash report_id challenge_id s = do
    runtime.reject_challenge_origin origin
    closed ← close_challenge hash report_id challenge_id rejected Winner.player1 s
    ok (record closed { events = challenge_rejected hash report_id challenge_id ∷ closed.events })

  unfoldable pub remove_challenge : Origin → Text → ℕ → ℕ → State runtime → Dispatch (State runtime)
  unfolding close_challenge
  remove_challenge origin hash report_id challenge_id s = do
    runtime.remove_challenge_origin origin
    closed ← close_challenge hash report_id challenge_id removed Winner.draw s
    ok (record closed { events = challenge_removed hash report_id challenge_id ∷ closed.events })

-- ===== src/Node/Reviews/Keep.antt =====
-- What the calls of the pallet of the reviews keep.
use mathlib.Core.Path.{subst}
use qrucial_dao.Common.{ℕ, refl, not, List, ◌∷◌, length, get_elem?, is_some, leb}
use qrucial_dao.Common.Text.{Text, text_eq}
use qrucial_dao.Node.{
  Origin, Error, Dispatch, ok, ensure, ok_or, ensure_signed, Holds, Holds-bind, ◌>>=◌, ◌>>◌,
  ok_or-eq, ensure-eq,
}
use qrucial_dao.Node.Auditors.{Winner}
use qrucial_dao.Node.Reviews.{
  Vulnerability, Report, invalid, success, Challenge, ChallengeState, accepted, rejected, removed,
  pending, PatchVulnerability, Event, challenge_accepted, challenge_rejected, challenge_removed,
  Runtime, State, try_append, reporters, challengers, set_state, max_reports_per_review,
  max_challenges_per_report, max_url_length,
}
use qrucial_dao.Node.Reviews.Calls.{
  audit_review, new_report_id, report_auditor, new_challenge_id, close_challenge, request_review,
  review_invalid, review_report, challenge_report, approve_challenge, reject_challenge,
  remove_challenge,
}
use qrucial_dao.Node.Reviews.Names.{
  is_apart, all-push, challengers-set_state, challengers-try_append,
}
use qrucial_dao.Node.Reviews.Sound.{
  IsSound, new_report_id-eq, new_challenge_id-eq, report_auditor-eq, reported-IsSound,
  challenged-IsSound,
}

module _ (runtime : Runtime) where
  pub request_review-IsSound :
      (o : Origin) (url hash : Text) (bounty score : ℕ) (s : State runtime)
      → IsSound s
      → Holds IsSound (request_review runtime o url hash bounty score s)
  unfolding request_review
  request_review-IsSound o url hash bounty score s sound =
      Holds-bind IsSound (ensure_signed o) _ (λ a _.
        Holds-bind IsSound (ensure (not (is_some (s.reviews hash))) Error.duplicate_review_found) _
          (λ _ _.
            Holds-bind IsSound (ok_or (runtime.reserve a bounty s.world) Error.insufficient_balance)
              _
              (λ _ _.
                Holds-bind IsSound (ensure (leb (length url) max_url_length) Error.url_too_long) _
                  (λ _ _. record {
                    reports_few = sound.reports_few;
                    challenges_few = sound.challenges_few;
                    apart = sound.apart;
                  }))))

  pub review_invalid-IsSound :
      (o : Origin) (hash : Text) (s : State runtime)
      → IsSound s
      → Holds IsSound (review_invalid runtime o hash s)
  unfolding review_invalid
  review_invalid-IsSound o hash s sound =
      Holds-bind IsSound (audit_review runtime o hash s) _ (λ a _.
        Holds-bind IsSound (new_report_id runtime a hash s) _ (λ id new.
          let report : Report = record { auditor = a; kind = invalid } in
          Holds-bind IsSound
            (ok_or (try_append max_reports_per_review report (s.reports hash))
              Error.too_many_reports)
            _
            (λ out e.
              reported-IsSound s _ hash report out sound (new_report_id-eq a hash s id new)
                (ok_or-eq (try_append max_reports_per_review report (s.reports hash)) _ out e) refl
                refl)))

  pub review_report-IsSound :
      (o : Origin) (hash : Text) (vs : List Vulnerability) (s : State runtime)
      → IsSound s
      → Holds IsSound (review_report runtime o hash vs s)
  unfolding review_report
  review_report-IsSound o hash vs s sound =
      Holds-bind IsSound (audit_review runtime o hash s) _ (λ a _.
        Holds-bind IsSound (new_report_id runtime a hash s) _ (λ id new.
          let report : Report = record { auditor = a; kind = success } in
          Holds-bind IsSound
            (ok_or (try_append max_reports_per_review report (s.reports hash))
              Error.too_many_reports)
            _
            (λ out e.
              reported-IsSound s _ hash report out sound (new_report_id-eq a hash s id new)
                (ok_or-eq (try_append max_reports_per_review report (s.reports hash)) _ out e) refl
                refl)))

  pub challenge_report-IsSound :
      (o : Origin) (hash : Text) (r : ℕ) (removes : List ℕ) (adds : List Vulnerability)
      (patches : List PatchVulnerability) (s : State runtime)
      → IsSound s
      → Holds IsSound (challenge_report runtime o hash r removes adds patches s)
  unfolding challenge_report
  challenge_report-IsSound o hash r removes adds patches s sound =
      Holds-bind IsSound (audit_review runtime o hash s) _ (λ a _.
        Holds-bind IsSound (report_auditor runtime hash r s) _ (λ reporter there.
          Holds-bind IsSound (ensure (not (text_eq reporter a)) Error.cannot_challenge_self) _
            (λ u other. Holds-bind IsSound (new_challenge_id runtime a hash r s) _ (λ id new.
              let c : Challenge = record {
                auditor = a;
                state = pending;
                remove_vulnerabilities = removes;
                add_vulnerabilities = adds;
                patch_vulnerabilities = patches;
              } in
              Holds-bind IsSound
                (ok_or (try_append max_challenges_per_report c (s.challenges hash r))
                  Error.too_many_challenges)
                _
                (λ out e.
                  let (names, few) =
                    challengers-try_append c (s.challenges hash r) out (sound.challenges_few hash r)
                      (new_challenge_id-eq a hash r s id new)
                      (ok_or-eq (try_append max_challenges_per_report c (s.challenges hash r)) _ out
                        e) in
                  challenged-IsSound s _ hash r out sound few
                    (rw (← names) (
                      all-push (is_apart (get_elem? (reporters (s.reports hash)) r)) a
                        (challengers (s.challenges hash r)) (sound.apart hash r)
                        (rw (report_auditor-eq hash r s reporter there) (ensure-eq _ _ u other))))
                    refl refl)))))

  close_challenge-IsSound :
      (hash : Text) (r c : ℕ) (st : ChallengeState) (w : Winner) (s : State runtime)
      → IsSound s
      → Holds IsSound (close_challenge runtime hash r c st w s)
  unfolding close_challenge
  close_challenge-IsSound hash r c st w s sound =
      Holds-bind IsSound (report_auditor runtime hash r s) _ (λ a _.
        Holds-bind IsSound (ok_or (get_elem? (s.challenges hash r) c) Error.challenge_not_found) _
          (λ ch _. Holds-bind IsSound (runtime.apply_result ch.auditor a w s.world) _ (λ world _.
            challenged-IsSound s _ hash r (set_state c st (s.challenges hash r)) sound
              (rw (challengers-set_state c st (s.challenges hash r)) (sound.challenges_few hash r))
              (rw (challengers-set_state c st (s.challenges hash r)) (sound.apart hash r)) refl
              refl)))

  -- A close by an origin, and its event.
  noted-IsSound :
      (origin : Dispatch (Unit {0})) (hash : Text) (r c : ℕ) (st : ChallengeState) (w : Winner)
      (note : Event) (s : State runtime)
      → IsSound s
      → Holds IsSound (
          origin
          >> (close_challenge runtime hash r c st w s >>= λ closed.
              ok (record closed { events = note ∷ closed.events })))
  noted-IsSound origin hash r c st w note s sound = Holds-bind IsSound origin _ (λ _ _.
      Holds-bind IsSound (close_challenge runtime hash r c st w s) _ (λ closed e.
        let after = subst (Holds IsSound) e (close_challenge-IsSound hash r c st w s sound) in
        record {
          reports_few = after.reports_few;
          challenges_few = after.challenges_few;
          apart = after.apart;
        }))

  pub approve_challenge-IsSound :
      (o : Origin) (hash : Text) (r c : ℕ) (s : State runtime)
      → IsSound s
      → Holds IsSound (approve_challenge runtime o hash r c s)
  unfolding approve_challenge
  approve_challenge-IsSound o hash r c s =
      noted-IsSound (runtime.approve_challenge_origin o) hash r c accepted Winner.player0
        (challenge_accepted hash r c) s

  pub reject_challenge-IsSound :
      (o : Origin) (hash : Text) (r c : ℕ) (s : State runtime)
      → IsSound s
      → Holds IsSound (reject_challenge runtime o hash r c s)
  unfolding reject_challenge
  reject_challenge-IsSound o hash r c s =
      noted-IsSound (runtime.reject_challenge_origin o) hash r c rejected Winner.player1
        (challenge_rejected hash r c) s

  pub remove_challenge-IsSound :
      (o : Origin) (hash : Text) (r c : ℕ) (s : State runtime)
      → IsSound s
      → Holds IsSound (remove_challenge runtime o hash r c s)
  unfolding remove_challenge
  remove_challenge-IsSound o hash r c s =
      noted-IsSound (runtime.remove_challenge_origin o) hash r c removed Winner.draw
        (challenge_removed hash r c) s

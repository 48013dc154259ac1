-- ===== src/Node/Auditors/Moves.antt =====
-- The calls move each account by the machine of Status.antt.
use mathlib.Core.Path.{subst}
use qrucial_dao.Common.{
  ℕ, ◌≡◌, sym, ◌∙◌, ap, true, false, true≢false, not, Option, none, some, List, [], ◌∷◌,
  if◌then◌else◌, any, length, length-append, is_some, arith, ◌==◌, leb,
}
use qrucial_dao.Common.Text.{Text, text_eq}
use qrucial_dao.Node.{
  Origin, Error, ok, ensure, ok_or, ensure_signed, ensure_root, Storage, Holds, Holds-bind,
  ok_or-eq, ensure-eq,
}
use qrucial_dao.Node.Auditors.{
  AuditorData, Winner, Config, State, sign_up, update_profile, cancel_account, is_burnt, try_push,
  approved, approve_auditor, new_scores, write_scores, apply_result, game_result_call,
}
use qrucial_dao.Node.Auditors.Fine.{try_push-some}
use qrucial_dao.Node.Auditors.Laws.{
  Call, sign_up_by, update_by, cancel_by, approve_by, result_by, applied, dispatch,
}
use qrucial_dao.Node.Auditors.Status.{
  applicant, status_of, status, Step, stays, applies, Steps, Steps-insert, Steps-remove, from,
  scored, unscored,
}

module _ (config : Config) where
  -- Each account moves by the machine.
  abbrev pub Moves : State config → State config → Type 0
  Moves s s' = Steps config.initial_auditor_score s.auditor_map s'.auditor_map

  sign_up-Moves :
      (o : Origin) (hash : Text) (s : State config) → Holds (Moves s) (sign_up config o hash s)
  unfolding sign_up
  sign_up-Moves o hash s = Holds-bind (Moves s) (ensure_signed o) _ (λ sender _.
      Holds-bind (Moves s) (ensure (not (is_some (s.auditor_map sender))) Error.already_signed_up) _
        (λ u absent.
          Holds-bind (Moves s)
            (ok_or (config.currency.reserve sender config.min_auditor_stake s.balances)
              Error.insufficient_balance)
            _
            (λ reserved _.
              Steps-insert config.initial_auditor_score sender _ s.auditor_map s.auditor_map
                (fresh (s.auditor_map sender) (ensure-eq _ _ u absent)) (λ x. stays))))
    where
      fresh :
          (o : Option AuditorData)
          → not (is_some o) ≡ true
          → Step config.initial_auditor_score (status o) (applicant 0)
      fresh none h = applies
      fresh (some d) h = absurd (true≢false (sym h))

  update_profile-Moves :
      (o : Origin) (hash : Text) (s : State config)
      → Holds (Moves s) (update_profile config o hash s)
  unfolding update_profile
  update_profile-Moves o hash s = Holds-bind (Moves s) (ensure_signed o) _ (λ sender _.
      Holds-bind (Moves s) (ok_or (s.auditor_map sender) Error.unknown_auditor) _ (λ d e.
        Steps-insert config.initial_auditor_score sender _ s.auditor_map s.auditor_map
          (from config.initial_auditor_score (s.auditor_map sender) d _
            (ok_or-eq (s.auditor_map sender) _ d e) stays)
          (λ x. stays)))

  cancel_account-Moves :
      (o : Origin) (s : State config) → Holds (Moves s) (cancel_account config o s)
  unfolding cancel_account
  cancel_account-Moves o s = Holds-bind (Moves s) (ensure_signed o) _ (λ sender _.
      Holds-bind (Moves s) (ok_or (s.auditor_map sender) Error.unknown_auditor) _ (λ d _.
        Holds-bind (Moves s)
          (if is_burnt config d.score
            then ok_or
                (config.currency.withdraw sender config.min_auditor_stake
                  (config.currency.unreserve sender config.min_auditor_stake s.balances))
                Error.insufficient_balance
            else ok (config.currency.unreserve sender config.min_auditor_stake s.balances))
          _ (λ left _. Steps-remove config.initial_auditor_score sender s.auditor_map)))

  approved-Step :
      (sender : Text) (a : AuditorData) (approvers : List Text)
      → is_some a.score ≡ false
      → try_push sender a.approved_by ≡ some approvers
      → Step config.initial_auditor_score
          (status (some a))
          (status (some (approved config a approvers)))
  approved-Step sender a approvers none_yet pushed =
      let (eq, less) = try_push-some sender a.approved_by approvers pushed in
      subst
        (λ n.
          Step config.initial_auditor_score (status_of a.score (length a.approved_by))
            (status_of (if n == 3 then some config.initial_auditor_score else a.score) n))
        (sym (length-append a.approved_by (sender ∷ [])) ∙ ap length eq)
        (unscored config.initial_auditor_score a.score (length a.approved_by) none_yet less)

  approve_auditor-Moves :
      (o : Origin) (x : Text) (s : State config) → Holds (Moves s) (approve_auditor config o x s)
  unfolding approve_auditor
  approve_auditor-Moves o x s = Holds-bind (Moves s) (ensure_signed o) _ (λ sender _.
      Holds-bind (Moves s) (ok_or (s.auditor_map sender) Error.unknown_auditor) _ (λ d _.
        Holds-bind (Moves s) (ok_or d.score Error.unapproved_auditor) _ (λ n _.
          Holds-bind (Moves s)
            (ensure (leb config.minimal_approver_score n) Error.reputation_too_low) _
            (λ _ _. Holds-bind (Moves s) (ok_or (s.auditor_map x) Error.unknown_approvee) _ (λ a e.
              Holds-bind (Moves s) (ensure (not (is_some a.score)) Error.already_auditor) _
                (λ u none_yet.
                  Holds-bind (Moves s)
                    (ensure (not (any (text_eq sender) a.approved_by)) Error.already_approved) _
                    (λ _ _.
                      Holds-bind (Moves s)
                        (ok_or (try_push sender a.approved_by) Error.storage_overflow) _
                        (λ approvers pushed.
                          Steps-insert config.initial_auditor_score x _ s.auditor_map s.auditor_map
                            (from config.initial_auditor_score (s.auditor_map x) a _
                              (ok_or-eq (s.auditor_map x) _ a e)
                              (approved-Step sender a approvers
                                (ground (arith, ensure-eq _ _ u none_yet))
                                (ok_or-eq (try_push sender a.approved_by) _ approvers pushed)))
                            (λ x. stays)))))))))

  write_scores-Moves :
      (p0 p1 : Text) (d0 d1 : AuditorData) (w : Winner) (n0 n1 a b : ℕ) (m : Storage AuditorData)
      → m p0 ≡ some d0
      → d0.score ≡ some n0
      → m p1 ≡ some d1
      → d1.score ≡ some n1
      → Steps config.initial_auditor_score m (write_scores config p0 p1 d0 d1 w (a, b) m)
  write_scores-Moves p0 p1 d0 d1 Winner.draw n0 n1 a b m h0 s0 h1 s1 = λ x. stays
  write_scores-Moves p0 p1 d0 d1 Winner.player0 n0 n1 a b m h0 s0 h1 s1 =
      Steps-insert config.initial_auditor_score p1 _ m _
        (from config.initial_auditor_score (m p1) d1 _ h1
          (scored config.initial_auditor_score d1 n1 b s1))
        (Steps-insert config.initial_auditor_score p0 _ m m
          (from config.initial_auditor_score (m p0) d0 _ h0
            (scored config.initial_auditor_score d0 n0 a s0))
          (λ x. stays))
  write_scores-Moves p0 p1 d0 d1 Winner.player1 n0 n1 a b m h0 s0 h1 s1 =
      Steps-insert config.initial_auditor_score p1 _ m _
        (from config.initial_auditor_score (m p1) d1 _ h1
          (scored config.initial_auditor_score d1 n1 b s1))
        (Steps-insert config.initial_auditor_score p0 _ m m
          (from config.initial_auditor_score (m p0) d0 _ h0
            (scored config.initial_auditor_score d0 n0 a s0))
          (λ x. stays))

  apply_result-Moves :
      (p0 p1 : Text) (w : Winner) (s : State config)
      → Holds (Moves s) (apply_result config p0 p1 w s)
  unfolding apply_result
  apply_result-Moves p0 p1 w s =
      Holds-bind (Moves s) (ok_or (s.auditor_map p0) Error.unknown_auditor) _ (λ d0 e0.
        Holds-bind (Moves s) (ok_or d0.score Error.unapproved_auditor) _ (λ n0 s0.
          Holds-bind (Moves s) (ok_or (s.auditor_map p1) Error.unknown_auditor) _ (λ d1 e1.
            Holds-bind (Moves s) (ok_or d1.score Error.unapproved_auditor) _ (λ n1 s1.
              Holds-bind (Moves s) (ok_or (new_scores config n0 n1 w) Error.unexpected_elo_overflow)
                _
                (λ scores _.
                  write_scores-Moves p0 p1 d0 d1 w n0 n1 scores.0 scores.1 s.auditor_map
                    (ok_or-eq (s.auditor_map p0) _ d0 e0) (ok_or-eq d0.score _ n0 s0)
                    (ok_or-eq (s.auditor_map p1) _ d1 e1) (ok_or-eq d1.score _ n1 s1))))))

  game_result_call-Moves :
      (o : Origin) (p0 p1 : Text) (w : Winner) (s : State config)
      → Holds (Moves s) (game_result_call config o p0 p1 w s)
  unfolding game_result_call
  game_result_call-Moves o p0 p1 w s =
      Holds-bind (Moves s) (ensure_root o) _ (λ _ _. apply_result-Moves p0 p1 w s)

-- Every call that succeeds moves each account by the machine: from nothing to an applicant without
-- approvals, from a first or second approval to one more, with the third to an auditor of the
-- initial score, from a score to another, or to nothing.
pub dispatch-Moves :
    (config : Config) (c : Call) (s s' : State config)
    → dispatch config c s ≡ ok s'
    → (x : Text)
    → Step config.initial_auditor_score (status (s.auditor_map x)) (status (s'.auditor_map x))
unfolding dispatch
dispatch-Moves config (sign_up_by o hash) s s' h =
    subst (Holds (Moves config s)) h (sign_up-Moves config o hash s)
dispatch-Moves config (update_by o hash) s s' h =
    subst (Holds (Moves config s)) h (update_profile-Moves config o hash s)
dispatch-Moves config (cancel_by o) s s' h =
    subst (Holds (Moves config s)) h (cancel_account-Moves config o s)
dispatch-Moves config (approve_by o x) s s' h =
    subst (Holds (Moves config s)) h (approve_auditor-Moves config o x s)
dispatch-Moves config (result_by o p0 p1 w) s s' h =
    subst (Holds (Moves config s)) h (game_result_call-Moves config o p0 p1 w s)
dispatch-Moves config (applied p0 p1 w) s s' h =
    subst (Holds (Moves config s)) h (apply_result-Moves config p0 p1 w s)

-- ===== src/Node/Auditors/Laws.antt =====
-- Which entries the calls leave.
use mathlib.Core.Path.{subst}
use qrucial_dao.Common.{◌≡◌, refl, not, if◌then◌else◌, any, is_some, arith, leb}
use qrucial_dao.Common.Text.{Text, text_eq}
use qrucial_dao.Node.Auditors.Fine.{
  AllFine, AllFine-insert, AllFine-remove, IsFine-approved, write_scores-Fine,
}
use qrucial_dao.Node.{
  Origin, Error, Dispatch, ok, ensure, ok_or, ensure_signed, ensure_root, Holds, Holds-bind,
  ok_or-eq, ensure-eq,
}
use qrucial_dao.Node.Auditors.{
  Winner, Config, State, sign_up, update_profile, cancel_account, is_burnt, try_push,
  approve_auditor, new_scores, apply_result, game_result_call,
}

module _ (config : Config) where
  abbrev pub Fine : State config → Type 0
  Fine s = AllFine s.auditor_map

  sign_up-Fine :
      (o : Origin) (hash : Text) (s : State config) → Fine s → Holds Fine (sign_up config o hash s)
  unfolding sign_up
  sign_up-Fine o hash s fine = Holds-bind Fine (ensure_signed o) _ (λ sender _.
      Holds-bind Fine (ensure (not (is_some (s.auditor_map sender))) Error.already_signed_up) _
        (λ _ _.
          Holds-bind Fine
            (ok_or (config.currency.reserve sender config.min_auditor_stake s.balances)
              Error.insufficient_balance)
            _
            (λ reserved _.
              AllFine-insert sender _ s.auditor_map
                (record { distinct = refl; few = omega arith; fewer = λ _. omega arith }) fine)))

  update_profile-Fine :
      (o : Origin) (hash : Text) (s : State config)
      → Fine s
      → Holds Fine (update_profile config o hash s)
  unfolding update_profile
  update_profile-Fine o hash s fine = Holds-bind Fine (ensure_signed o) _ (λ sender _.
      Holds-bind Fine (ok_or (s.auditor_map sender) Error.unknown_auditor) _ (λ d e.
        let old = fine sender d (ok_or-eq (s.auditor_map sender) _ d e) in
        AllFine-insert sender _ s.auditor_map
          (record { distinct = old.distinct; few = old.few; fewer = old.fewer }) fine))

  cancel_account-Fine :
      (o : Origin) (s : State config) → Fine s → Holds Fine (cancel_account config o s)
  unfolding cancel_account
  cancel_account-Fine o s fine = Holds-bind Fine (ensure_signed o) _ (λ sender _.
      Holds-bind Fine (ok_or (s.auditor_map sender) Error.unknown_auditor) _ (λ d _.
        Holds-bind Fine
          (if is_burnt config d.score
            then ok_or
                (config.currency.withdraw sender config.min_auditor_stake
                  (config.currency.unreserve sender config.min_auditor_stake s.balances))
                Error.insufficient_balance
            else ok (config.currency.unreserve sender config.min_auditor_stake s.balances))
          _ (λ left _. AllFine-remove sender s.auditor_map fine)))

  approve_auditor-Fine :
      (o : Origin) (x : Text) (s : State config)
      → Fine s
      → Holds Fine (approve_auditor config o x s)
  unfolding approve_auditor
  approve_auditor-Fine o x s fine = Holds-bind Fine (ensure_signed o) _ (λ sender _.
      Holds-bind Fine (ok_or (s.auditor_map sender) Error.unknown_auditor) _ (λ d _.
        Holds-bind Fine (ok_or d.score Error.unapproved_auditor) _ (λ n _.
          Holds-bind Fine (ensure (leb config.minimal_approver_score n) Error.reputation_too_low) _
            (λ _ _. Holds-bind Fine (ok_or (s.auditor_map x) Error.unknown_approvee) _ (λ a e.
              Holds-bind Fine (ensure (not (is_some a.score)) Error.already_auditor) _ (λ _ _.
                Holds-bind Fine
                  (ensure (not (any (text_eq sender) a.approved_by)) Error.already_approved) _
                  (λ u fresh.
                    Holds-bind Fine (ok_or (try_push sender a.approved_by) Error.storage_overflow) _
                      (λ approvers pushed.
                        AllFine-insert x _ s.auditor_map
                          (IsFine-approved config sender a approvers
                            (fine x a (ok_or-eq (s.auditor_map x) _ a e))
                            (ground (arith, ensure-eq _ _ u fresh))
                            (ok_or-eq (try_push sender a.approved_by) _ approvers pushed))
                          fine))))))))

  apply_result-Fine :
      (p0 p1 : Text) (w : Winner) (s : State config)
      → Fine s
      → Holds Fine (apply_result config p0 p1 w s)
  unfolding apply_result
  apply_result-Fine p0 p1 w s fine =
      Holds-bind Fine (ok_or (s.auditor_map p0) Error.unknown_auditor) _ (λ d0 e0.
        Holds-bind Fine (ok_or d0.score Error.unapproved_auditor) _ (λ n0 _.
          Holds-bind Fine (ok_or (s.auditor_map p1) Error.unknown_auditor) _ (λ d1 e1.
            Holds-bind Fine (ok_or d1.score Error.unapproved_auditor) _ (λ n1 _.
              Holds-bind Fine (ok_or (new_scores config n0 n1 w) Error.unexpected_elo_overflow) _
                (λ scores _.
                  write_scores-Fine config p0 p1 d0 d1 w scores.0 scores.1 s.auditor_map
                    (fine p0 d0 (ok_or-eq (s.auditor_map p0) _ d0 e0))
                    (fine p1 d1 (ok_or-eq (s.auditor_map p1) _ d1 e1)) fine)))))

  game_result_call-Fine :
      (o : Origin) (p0 p1 : Text) (w : Winner) (s : State config)
      → Fine s
      → Holds Fine (game_result_call config o p0 p1 w s)
  unfolding game_result_call
  game_result_call-Fine o p0 p1 w s fine =
      Holds-bind Fine (ensure_root o) _ (λ _ _. apply_result-Fine p0 p1 w s fine)

-- A call of the pallet, or a result that the pallet of the reviews applies.
pub data Call : Type 0 where
  sign_up_by update_by : Origin → Text → Call
  cancel_by : Origin → Call
  approve_by : Origin → Text → Call
  result_by : Origin → Text → Text → Winner → Call
  applied : Text → Text → Winner → Call

module _ (config : Config) where
  unfoldable pub dispatch : Call → State config → Dispatch (State config)
  dispatch (sign_up_by o hash) = sign_up config o hash
  dispatch (update_by o hash) = update_profile config o hash
  dispatch (cancel_by o) = cancel_account config o
  dispatch (approve_by o x) = approve_auditor config o x
  dispatch (result_by o p0 p1 w) = game_result_call config o p0 p1 w
  dispatch (applied p0 p1 w) = apply_result config p0 p1 w

  dispatch-Fine : (c : Call) (s : State config) → Fine config s → Holds (Fine config) (dispatch c s)
  unfolding dispatch
  dispatch-Fine (sign_up_by o hash) s fine = sign_up-Fine config o hash s fine
  dispatch-Fine (update_by o hash) s fine = update_profile-Fine config o hash s fine
  dispatch-Fine (cancel_by o) s fine = cancel_account-Fine config o s fine
  dispatch-Fine (approve_by o x) s fine = approve_auditor-Fine config o x s fine
  dispatch-Fine (result_by o p0 p1 w) s fine = game_result_call-Fine config o p0 p1 w s fine
  dispatch-Fine (applied p0 p1 w) s fine = apply_result-Fine config p0 p1 w s fine

  -- The states after the genesis: other pallets may change the balances at any time.
  pub data Reach (genesis : State config) : State config → Type 0 where
    start : Reach genesis genesis
    call :
        {s s' : State config} (c : Call) → Reach genesis s → dispatch c s ≡ ok s' → Reach genesis s'
    other :
        {s : State config} (b : config.currency.Balances)
        → Reach genesis s
        → Reach genesis (record s { balances = b })

-- Where every auditor of the genesis has distinct approvers, three at most, and less than three
-- without a score, every auditor has that after any calls, results and changes of the balances.
pub Reach-AllFine :
    (config : Config) (genesis s : State config)
    → AllFine genesis.auditor_map
    → Reach config genesis s
    → AllFine s.auditor_map
Reach-AllFine config genesis s fine start = fine
Reach-AllFine config genesis s fine (call {s = before} c reach eq) =
    subst (Holds (Fine config)) eq
      (dispatch-Fine config c before (Reach-AllFine config genesis before fine reach))
Reach-AllFine config genesis s fine (other {s = before} b reach) =
    Reach-AllFine config genesis before fine reach

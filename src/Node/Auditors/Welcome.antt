-- ===== src/Node/Auditors/Welcome.antt =====
-- What the page of an auditor (AuditorsPage.js) says, by the state of the chain.
use qrucial_dao.Common.{
  ℕ, ◌+◌, ◌<◌, ◌≡◌, refl, sym, ◌∙◌, ap, not, Option, none, some, List, [], ◌∷◌, if◌then◌else◌, any,
  length, length-append, is_some, arith, ◌==◌, leb, Bool-cases, inl, inr,
}
use qrucial_dao.Common.Text.{Text, text_eq, text_eq_refl}
use qrucial_dao.Pages.Auditors.{Details, on_details, View, waiting, view}
use qrucial_dao.Node.{
  Origin, Error, ok, ensure, ok_or, ensure_signed, ok_injective, ok_or-eq, bind-ok,
}
use qrucial_dao.Node.Auditors.{AuditorData, Config, State, try_push, approved, approve_auditor}
use qrucial_dao.Node.Auditors.Fine.{try_push-some}

-- The entry as the node tells it.
unfoldable pub told : Option AuditorData → Option Details
told none = none
told (some d) = some (record { score = d.score; approved_by = d.approved_by })

-- What the page of an account shows once it has the answer of the chain.
unfoldable pub shown : Option AuditorData → View
shown e = view (on_details (told e))

waiting-unscored :
    (score : Option ℕ) (approvers : List Text) (n : ℕ)
    → view (some (record { score = score; approved_by = approvers })) ≡ waiting n
    → (score ≡ none) × (length approvers ≡ n)
unfolding view
waiting-unscored none approvers n h = (refl, cc)
waiting-unscored (some score) approvers n h = cc

-- The entry of an account whose page waits.
shown-waiting :
    (d : AuditorData) (n : ℕ)
    → shown (some d) ≡ waiting n
    → (d.score ≡ none) × (length d.approved_by ≡ n)
unfolding shown told on_details
shown-waiting d n h = waiting-unscored d.score d.approved_by n h

shown-approved :
    (config : Config) (d : AuditorData) (approvers : List Text) (n : ℕ)
    → d.score ≡ none
    → length approvers ≡ n + 1
    → shown (some (approved config d approvers))
      ≡ (if n + 1 == 3 then View.approved config.initial_auditor_score else waiting (n + 1))
unfolding shown told on_details view
shown-approved config d approvers n unscored count =
    rw (count, unscored)
      (elim (Bool-cases (n + 1 == 3)) [
        | inl last ↦ rw last refl
        | inr more ↦ rw (more, count) refl
      ])

shown-push :
    (config : Config) (d : AuditorData) (sender : Text) (approvers : List Text) (n : ℕ)
    → shown (some d) ≡ waiting n
    → try_push sender d.approved_by ≡ some approvers
    → (n < 3)
      × (shown (some (approved config d approvers))
          ≡ (if n + 1 == 3 then View.approved config.initial_auditor_score else waiting (n + 1)))
shown-push config d sender approvers n before pushed =
    let (unscored, count) = shown-waiting d n before in
    let (eq, less) = try_push-some sender d.approved_by approvers pushed in
    let more : length approvers ≡ n + 1 =
      ap length (sym eq) ∙ (length-append d.approved_by (sender ∷ []) ∙ ap (λ m. m + 1) count) in
    (ground arith, shown-approved config d approvers n unscored more)

-- Where an account's page waits with so many approvals and the approval of that account succeeds,
-- of whatever origin, there were less than three, so that the page asked for one at least; and
-- afterwards the page waits with one more, or shows the initial score where that is the third.
pub shown-approve_auditor :
    (config : Config) (o : Origin) (x : Text) (n : ℕ) (s s' : State config)
    → shown (s.auditor_map x) ≡ waiting n
    → approve_auditor config o x s ≡ ok s'
    → (n < 3)
      × (shown (s'.auditor_map x)
          ≡ (if n + 1 == 3 then View.approved config.initial_auditor_score else waiting (n + 1)))
unfolding approve_auditor
shown-approve_auditor config o x n s s' before done =
    let (sender, _, k) = bind-ok (ensure_signed o) _ s' done in
    let (mine, _, k) = bind-ok (ok_or (s.auditor_map sender) Error.unknown_auditor) _ s' k in
    let (score, _, k) = bind-ok (ok_or mine.score Error.unapproved_auditor) _ s' k in
    let (_, _, k) =
      bind-ok (ensure (leb config.minimal_approver_score score) Error.reputation_too_low) _ s' k in
    let (d, there, k) = bind-ok (ok_or (s.auditor_map x) Error.unknown_approvee) _ s' k in
    let (_, _, k) = bind-ok (ensure (not (is_some d.score)) Error.already_auditor) _ s' k in
    let (_, _, k) =
      bind-ok (ensure (not (any (text_eq sender) d.approved_by)) Error.already_approved) _ s' k in
    let (approvers, pushed, k) =
      bind-ok (ok_or (try_push sender d.approved_by) Error.storage_overflow) _ s' k in
    let (less, after) =
      shown-push config d sender approvers n
        (ap shown (sym (ok_or-eq (s.auditor_map x) _ d there)) ∙ before)
        (ok_or-eq _ _ approvers pushed) in
    (less, rw (← ok_injective k, text_eq_refl x) after)

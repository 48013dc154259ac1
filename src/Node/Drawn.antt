-- ===== src/Node/Drawn.antt =====
-- What the pages of the reports and of the council offer, by the state of the chain.
use mathlib.Core.Path.{subst}
use qrucial_dao.Common.{
  ℕ, zero, suc, ◌≡◌, ◌≢◌, refl, sym, ap, ◌∙◌, Bool, true, false, not, Option, none, some, List, [],
  ◌∷◌, any, get_elem?, some_injective, none-ne-some, ==_refl,
}
use qrucial_dao.Common.Text.{Text, codes, text_eq, text_eq_refl}
use qrucial_dao.Node.{
  Origin, Error, Dispatch, ok, err, ◌>>=◌, ensure, ok_or, ok_injective, bind-ok,
  cannot_challenge_self,
}
use qrucial_dao.Node.Auditors.{Winner}
use qrucial_dao.Node.Reviews.{
  Runtime, State, Vulnerability, PatchVulnerability, Challenge, ChallengeState, pending, accepted,
  removed, rejected, try_append, challengers, set_state, write_at, max_challenges_per_report,
}
use qrucial_dao.Node.Reviews.Calls.{
  audit_review, report_auditor, new_challenge_id, challenge_report, close_challenge,
}
use qrucial_dao.Node.Reviews.Told.{state_text}
use qrucial_dao.Reports.{Report}
use qrucial_dao.Reports.View.{can_challenge}
use qrucial_dao.Pages.Challenge.{
  Details, is_pending, view, View, Vulnerability as ShownVulnerability,
}
use qrucial_dao.Pages.Council
use qrucial_dao.Node.Reviews

-- What holds of the error of a call.
abbrev pub Raises : {A : Type 0} → (Error → Type 0) → Dispatch A → Type 0
Raises P (ok a) = Unit
Raises P (err e) = P e

Raises-bind :
    {A B : Type 0} (P : Error → Type 0) (m : Dispatch A) (f : A → Dispatch B)
    → Raises P m
    → ((a : A) → m ≡ ok a → Raises P (f a))
    → Raises P (m >>= f)
Raises-bind P (ok a) f h g = g a refl
Raises-bind P (err e) f h g = h

Raises-ok_or :
    {A : Type 0} (P : Error → Type 0) (o : Option A) (e : Error) → P e → Raises P (ok_or o e)
Raises-ok_or P none e h = h
Raises-ok_or P (some a) e h = tt

Raises-ensure : (P : Error → Type 0) (b : Bool) (e : Error) → P e → Raises P (ensure b e)
Raises-ensure P true e h = tt
Raises-ensure P false e h = h

-- The error that a challenge of one's own report raises.
abbrev pub is_self : Error → Bool
is_self cannot_challenge_self = true
is_self _ = false

abbrev pub IsOther : Error → Type 0
IsOther e = is_self e ≡ false

-- A report as the node tells it.
unfoldable pub told : Reviews.Report → Report
told r = record {
  auditor = r.auditor;
  kind = elim r.kind [ Reviews.invalid ↦ codes "Invalid" | Reviews.success ↦ codes "Success" ];
}

module _ (runtime : Runtime) where
  audit_review-IsOther :
      (o : Origin) (hash : Text) (s : State runtime)
      → Raises IsOther (audit_review runtime o hash s)
  unfolding audit_review
  audit_review-IsOther Origin.root hash s = refl
  audit_review-IsOther Origin.unsigned hash s = refl
  audit_review-IsOther (Origin.signed a) hash s =
      Raises-bind IsOther (ok_or (s.reviews hash) Error.review_not_found) _
        (Raises-ok_or IsOther (s.reviews hash) _ refl)
        (λ review _.
          Raises-bind IsOther
            (ensure (runtime.has_enough_rank a review.min_auditor_score s.world)
              Error.not_enough_reputation)
            _
            (Raises-ensure IsOther (runtime.has_enough_rank a review.min_auditor_score s.world) _
              refl)
            (λ _ _. tt))

  -- Where the account that signs is the one that audits.
  audit_review-signed :
      (a b : Text) (hash : Text) (s : State runtime)
      → audit_review runtime (Origin.signed a) hash s ≡ ok b
      → a ≡ b
  unfolding audit_review
  audit_review-signed a b hash s h =
      let (review, _, checked) = bind-ok (ok_or (s.reviews hash) Error.review_not_found) _ b h in
      let (_, _, done) =
        bind-ok
          (ensure (runtime.has_enough_rank a review.min_auditor_score s.world)
            Error.not_enough_reputation)
          _ b checked in
      ok_injective done

  new_challenge_id-IsOther :
      (a hash : Text) (r : ℕ) (s : State runtime)
      → Raises IsOther (new_challenge_id runtime a hash r s)
  unfolding new_challenge_id
  new_challenge_id-IsOther a hash r s =
      Raises-bind IsOther
        (ensure (not (any (text_eq a) (challengers (s.challenges hash r))))
          Error.duplicate_challenge_found)
        _ (Raises-ensure IsOther (not (any (text_eq a) (challengers (s.challenges hash r)))) _ refl)
        (λ _ _. tt)

  report_auditor-stored :
      (hash : Text) (r : ℕ) (s : State runtime) (report : Reviews.Report)
      → get_elem? (s.reports hash) r ≡ some report
      → report_auditor runtime hash r s ≡ ok report.auditor
  unfolding report_auditor
  report_auditor-stored hash r s report h = rw h refl

-- Where the page of the reports draws the button of a challenge under a report as the chain tells
-- it, the account's challenge of that report never fails as one of the account's own report.
pub can_challenge-IsOther :
    (runtime : Runtime) (s : State runtime) (address hash : Text) (r : ℕ) (report : Reviews.Report)
    (removes : List ℕ) (adds : List Vulnerability) (patches : List PatchVulnerability)
    → get_elem? (s.reports hash) r ≡ some report
    → can_challenge address (told report) ≡ true
    → Raises IsOther
        (challenge_report runtime (Origin.signed address) hash r removes adds patches s)
unfolding challenge_report can_challenge told
can_challenge-IsOther runtime s address hash r report removes adds patches stored button =
    Raises-bind IsOther (audit_review runtime (Origin.signed address) hash s) _
      (audit_review-IsOther runtime (Origin.signed address) hash s)
      (λ a audits.
        Raises-bind IsOther (report_auditor runtime hash r s) _
          (subst (Raises IsOther) (sym (report_auditor-stored runtime hash r s report stored)) tt)
          (λ reporter there.
            Raises-bind IsOther (ensure (not (text_eq reporter a)) Error.cannot_challenge_self) _
              (other reporter a there (audit_review-signed runtime address a hash s audits))
              (λ _ _.
                Raises-bind IsOther (new_challenge_id runtime a hash r s) _
                  (new_challenge_id-IsOther runtime a hash r s)
                  (λ id _.
                    Raises-bind IsOther
                      (ok_or (try_append max_challenges_per_report _ (s.challenges hash r))
                        Error.too_many_challenges)
                      _
                      (Raises-ok_or IsOther
                        (try_append max_challenges_per_report _ (s.challenges hash r)) _ refl)
                      (λ _ _. tt)))))
  where
    other :
        (reporter a : Text)
        → report_auditor runtime hash r s ≡ ok reporter
        → address ≡ a
        → Raises IsOther (ensure (not (text_eq reporter a)) Error.cannot_challenge_self)
    other reporter a there same =
        let named =
          ok_injective (sym (report_auditor-stored runtime hash r s report stored) ∙ there) in
        let apart : not (text_eq reporter a) ≡ true = rw (← named, ← same) button in
        subst (λ b. Raises IsOther (ensure b Error.cannot_challenge_self)) (sym apart) tt

set_state-get :
    (i : ℕ) (st : ChallengeState) (cs : List Challenge) (c : Challenge)
    → get_elem? (set_state i st cs) i ≡ some c
    → c.state ≡ st
set_state-get i st [] c h = absurd (none-ne-some h)
set_state-get zero st (x ∷ cs) c h = sym (ap (λ c. c.state) (some_injective h))
set_state-get (suc i) st (x ∷ cs) c h = set_state-get i st cs c h

pending_only : (st : ChallengeState) → st ≢ pending → is_pending (state_text st) ≡ false
unfolding is_pending
pending_only removed h = refl
pending_only pending h = absurd (h refl)
pending_only accepted h = refl
pending_only rejected h = refl

-- Whether the form of a proposal is drawn.
abbrev pub has_form : Option View → Bool
has_form none = false
has_form (some v) = v.proposal

-- Once the chain has closed a challenge with a state other than pending, the page that has the
-- challenge as the chain tells it draws no form of a proposal about it.
pub close_challenge-has_form :
    (runtime : Runtime) (s s' : State runtime) (hash : Text) (r i : ℕ) (st : ChallengeState)
    (w : Winner) (c : Challenge) (url m n : Option Text) (report : Option Council.Report)
    (vs : Option (List ShownVulnerability)) (d : Details)
    → st ≢ pending
    → close_challenge runtime hash r i st w s ≡ ok s'
    → get_elem? (s'.challenges hash r) i ≡ some c
    → d.state ≡ state_text c.state
    → has_form (view url m n report vs d) ≡ false
unfolding close_challenge view
close_challenge-has_form runtime s s' hash r i st w c url m n none vs d ended close stored shown =
    refl
close_challenge-has_form runtime s s' hash r i st w c url m n (some report) vs d ended close stored
      shown =
    let (a, _, k) = bind-ok (report_auditor runtime hash r s) _ s' close in
    let (ch, _, k') =
      bind-ok (ok_or (get_elem? (s.challenges hash r) i) Error.challenge_not_found) _ s' k in
    let (world, _, done) = bind-ok (runtime.apply_result ch.auditor a w s.world) _ s' k' in
    let written : set_state i st (s.challenges hash r) ≡ s'.challenges hash r =
      sym (rw (text_eq_refl hash, ==_refl r) refl)
      ∙ ap (λ x. x.challenges hash r) (ok_injective done) in
    let closed = set_state-get i st (s.challenges hash r) c (rw written stored) in
    rw (shown, closed) (pending_only st ended)

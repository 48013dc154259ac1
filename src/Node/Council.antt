-- ===== src/Node/Council.antt =====
-- What a proposal of the council does on the chain: CreateProposal.js of the page and
-- qdao-node/exo-pallet/src/lib.rs together.
use qrucial_dao.Common.{
  ℕ, zero, suc, ◌≡◌, refl, sym, ◌∙◌, ap, ◌&&◌, Option, some, List, [], ◌∷◌, if◌then◌else◌,
  get_elem?, Bool-cases, inl, inr, arith, some_injective, none-ne-some, ◌==◌, ==_iff, and_split,
}
use qrucial_dao.Common.Text.{Text, text_eq, text_eq→eq}
use qrucial_dao.TxButton.Send.{Session, Outcome}
use qrucial_dao.Proposal.{Action, approve, reject, Extrinsic}
use qrucial_dao.Proposal.Laws.{Page, Reach, signs, signs-about}
use qrucial_dao.Node.{
  Origin, Error, Dispatch, ok, ◌>>=◌, ◌>>◌, ok_or, ok_injective, ok_or-eq, bind-ok,
}
use qrucial_dao.Node.Auditors.{Winner}
use qrucial_dao.Node.Reviews.{
  Runtime, State, Event, Challenge, ChallengeState, accepted, removed, rejected, set_state,
  write_at,
}
use qrucial_dao.Node.Reviews.Calls.{
  report_auditor, close_challenge, approve_challenge, reject_challenge, remove_challenge,
}

-- The state that an action gives to a challenge.
abbrev pub state_after : Action → ChallengeState
state_after approve = accepted
state_after reject = rejected
state_after Action.remove = removed

suc-== : (i j : ℕ) → (suc i == suc j) ≡ (i == j)
suc-== i j = ground arith

set_state-get_elem? :
    (i j : ℕ) (st : ChallengeState) (cs : List Challenge) (c : Challenge)
    → get_elem? cs i ≡ some c
    → get_elem? (set_state i st cs) j
      ≡ (if i == j then some (record c { state = st }) else get_elem? cs j)
set_state-get_elem? i j st [] c h = absurd (none-ne-some h)
set_state-get_elem? zero zero st (x ∷ cs) c h = rw (some_injective h) refl
set_state-get_elem? zero (suc j) st (x ∷ cs) c h = ground arith
set_state-get_elem? (suc i) zero st (x ∷ cs) c h = ground arith
set_state-get_elem? (suc i) (suc j) st (x ∷ cs) c h =
    rw (suc-== i j) (set_state-get_elem? i j st cs c h)

written :
    (hash : Text) (r i : ℕ) (st : ChallengeState) (m : Text → ℕ → List Challenge) (h : Text)
    (q j : ℕ) (c : Challenge)
    → get_elem? (m hash r) i ≡ some c
    → get_elem? (write_at hash r (set_state i st (m hash r)) m h q) j ≡ (
        if (text_eq hash h && r == q) && i == j
        then some (record c { state = st })
        else get_elem? (m h q) j)
written hash r i st m h q j c there = elim (Bool-cases (text_eq hash h && r == q)) [
  | inr n ↦ rw n refl
  | inl y ↦
      let (front, back) = and_split y in
      rw (y, ← text_eq→eq hash h front, ← (==_iff r q).0 back)
        (set_state-get_elem? i j st (m hash r) c there)
]

module _ (runtime : Runtime) where
  -- The call that an action names.
  unfoldable pub run : Action → Origin → Text → ℕ → ℕ → State runtime → Dispatch (State runtime)
  run approve = approve_challenge runtime
  run reject = reject_challenge runtime
  run Action.remove = remove_challenge runtime

  -- The challenge is there, it has the state afterwards, and the challenge at any other place is
  -- as it was; reports and reviews are.
  abbrev pub Closes :
      Text → ℕ → ℕ → ChallengeState → State runtime → State runtime → Text → ℕ → ℕ → Type 0
  Closes hash r i st s s' h q j =
      (c : Challenge) × (get_elem? (s.challenges hash r) i ≡ some c)
      × (get_elem? (s'.challenges h q) j ≡ (
          if (text_eq hash h && r == q) && i == j
          then some (record c { state = st })
          else get_elem? (s.challenges h q) j))
      × (s'.reports ≡ s.reports)
      × (s'.reviews ≡ s.reviews)

  close_challenge-Closes :
      (hash : Text) (r i : ℕ) (st : ChallengeState) (w : Winner) (s s' : State runtime) (h : Text)
      (q j : ℕ)
      → close_challenge runtime hash r i st w s ≡ ok s'
      → Closes hash r i st s s' h q j
  unfolding close_challenge
  close_challenge-Closes hash r i st w s s' h q j close =
      let (a, _, k) = bind-ok (report_auditor runtime hash r s) _ s' close in
      let (c, there, k') =
        bind-ok (ok_or (get_elem? (s.challenges hash r) i) Error.challenge_not_found) _ s' k in
      let (world, _, done) = bind-ok (runtime.apply_result c.auditor a w s.world) _ s' k' in
      (
        c,
        ok_or-eq (get_elem? (s.challenges hash r) i) Error.challenge_not_found c there,
        ap (λ x. get_elem? (x.challenges h q) j) (sym (ok_injective done))
            ∙ written hash r i st s.challenges h q j c
                (ok_or-eq (get_elem? (s.challenges hash r) i) Error.challenge_not_found c there),
        ap (λ x. x.reports) (sym (ok_injective done)),
        ap (λ x. x.reviews) (sym (ok_injective done)),
      )

  closed_by :
      (allowed : Dispatch Unit) (hash : Text) (r i : ℕ) (st : ChallengeState) (w : Winner)
      (told : State runtime → List Event) (s s' : State runtime) (h : Text) (q j : ℕ)
      → (do
        allowed
        closed ← close_challenge runtime hash r i st w s
        ok (record closed { events = told closed }))
        ≡ ok s'
      → Closes hash r i st s s' h q j
  closed_by allowed hash r i st w told s s' h q j done =
      let (_, _, k) = bind-ok allowed _ s' done in
      let (s'', close, k') = bind-ok (close_challenge runtime hash r i st w s) _ s' k in
      rw (← ok_injective k') (close_challenge-Closes hash r i st w s s'' h q j close)

  run-Closes :
      (a : Action) (o : Origin) (hash : Text) (r i : ℕ) (s s' : State runtime) (h : Text) (q j : ℕ)
      → run a o hash r i s ≡ ok s'
      → Closes hash r i (state_after a) s s' h q j
  unfolding run approve_challenge reject_challenge remove_challenge
  run-Closes approve o hash r i s s' h q j done =
      closed_by (runtime.approve_challenge_origin o) hash r i accepted Winner.player0 _ s s' h q j
        done
  run-Closes reject o hash r i s s' h q j done =
      closed_by (runtime.reject_challenge_origin o) hash r i rejected Winner.player1 _ s s' h q j
        done
  run-Closes Action.remove o hash r i s s' h q j done =
      closed_by (runtime.remove_challenge_origin o) hash r i removed Winner.draw _ s s' h q j done

  -- On every page that is reached, what a press signs names, unless its ids are empty, the
  -- challenge that is shown. Where the chain carries it out, from whatever state and origin, that
  -- challenge is there and gets the state of the action, the challenge at any other place stays as
  -- it was, and so do all reports and reviews.
  pub signs-Closes :
      {p : Page}
      → Reach p
      → (details : Option Text) (address : Text) (o : Outcome) (session : Session) (x : Extrinsic)
        (r i : ℕ) (origin : Origin) (s s' : State runtime) (h : Text) (q j : ℕ)
      → signs details address p.form o session ≡ some x
      → x.report_id ≡ some r
      → x.challenge_id ≡ some i
      → run x.action origin x.hash r i s ≡ ok s'
      → Closes p.challenge.audit_hash p.challenge.report_id p.challenge.challenge_id
          (state_after x.action)
          s
          s'
          h
          q
          j
  signs-Closes {p} reach details address o session x r i origin s s' h q j signed rid cid done =
      let (_, _, _, keys) = signs-about reach details address o session x signed in
      elim keys [
        | inr (_, none_r, _) ↦ absurd (none-ne-some (sym none_r ∙ rid))
        | inl (hash, r', i') ↦
            rw (← hash, some_injective (sym r' ∙ rid), some_injective (sym i' ∙ cid))
              (run-Closes x.action origin x.hash r i s s' h q j done)
      ]

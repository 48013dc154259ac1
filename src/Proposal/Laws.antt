-- ===== src/Proposal/Laws.antt =====
-- The page of the challenges with its form, and what it proposes.
use qrucial_dao.Common.{
  ◌≡◌, refl, ◌∙◌, true, Option, none, some, [], ◌⊎◌, inl, inr, arith, Bool-cases, none-ne-some,
}
use qrucial_dao.Common.Text.{Text, includes}
use qrucial_dao.Chain.{TxStatus, in_block, is_in_block, DispatchError, Registry}
use qrucial_dao.TxButton.Send.{Session, Outcome}
use qrucial_dao.Proposal.{
  Challenge, Form, form_of, Action, approve, reject, method, lookup, Extrinsic, propose, on_click,
  on_status,
}

-- The challenge that is shown and the form.
pub record Page : Type 0 where
  pub challenge : Challenge
  pub form : Form

-- The pages that a user reaches: a click on a challenge, a choice in the menu, and the callback of
-- a transaction. Before the first click there is no form.
pub data Reach : Page → Type 0 where
  click : (c : Challenge) → Reach (record { challenge = c; form = form_of c })
  click_other :
      (c : Challenge) {p : Page} → Reach p → Reach (record { challenge = c; form = form_of c })
  choose :
      (a : Action) {p : Page}
      → Reach p
      → Reach (record p { form = record (p.form) { proposal = method a } })
  report :
      (find : Registry) (status : TxStatus) (e : Option DispatchError) {p : Page}
      → Reach p
      → Reach (record p { form = (on_status find status e p.form).0 })

-- The keys of a form are those of a challenge, or all empty; the numbers never change.
abbrev pub IsAbout : Challenge → Form → Type 0
IsAbout c f =
    (f.hash ≡ c.audit_hash)
    × (f.report_id ≡ some (c.report_id))
    × (f.challenge_id ≡ some (c.challenge_id))

abbrev pub IsEmpty : Form → Type 0
IsEmpty f = (f.hash ≡ []) × (f.report_id ≡ none) × (f.challenge_id ≡ none)

abbrev pub IsValid : Page → Type 0
IsValid p =
    (p.form.threshold ≡ 1)
    × (p.form.length_bound ≡ 5000)
    × (IsAbout p.challenge p.form ⊎ IsEmpty p.form)

Reach-about : {p : Page} → Reach p → IsValid p
unfolding form_of on_status
Reach-about (click c) = (refl, refl, inl (refl, refl, refl))
Reach-about (click_other c r) = (refl, refl, inl (refl, refl, refl))
Reach-about (choose a r) = Reach-about r
Reach-about (report find status (some e) r) = Reach-about r
Reach-about (report find status none {p} r) = elim (Bool-cases (is_in_block status)) [
  | inl h ↦ rw h (refl, refl, inr (refl, refl, refl))
  | inr h ↦ rw h (Reach-about r)
]

-- What a press signs has the values of the form and an action of the menu, and the account is in
-- the text of the members.
abbrev pub IsSigned : Option Text → Text → Form → Extrinsic → Type 0
IsSigned details address f x =
    (members : Text) × (details ≡ some members)
    × (includes members address ≡ true)
    × (lookup f.proposal ≡ some x.action)
    × (x.threshold ≡ f.threshold)
    × (x.length_bound ≡ f.length_bound)
    × (x.hash ≡ f.hash)
    × (x.report_id ≡ f.report_id)
    × (x.challenge_id ≡ f.challenge_id)

-- What `signs` reads of a press.
abbrev pub signs : Option Text → Text → Form → Outcome → Session → Option Extrinsic
signs details address f o s = (on_click details address f o s).0

signs-IsSigned :
    (details : Option Text) (address : Text) (f : Form) (o : Outcome) (s : Session) (x : Extrinsic)
    → signs details address f o s ≡ some x
    → IsSigned details address f x
unfolding on_click propose
signs-IsSigned none address f o s x h = absurd (none-ne-some h)
signs-IsSigned (some members) address f o s x h = ground arith

-- On every page that is reached, what a press signs asks for one approval at a length of 5000,
-- the account stands in the text of the members, and the keys of the extrinsic are those of the
-- challenge that is shown, unless they are all empty.
pub signs-about :
    {p : Page}
    → Reach p
    → (details : Option Text) (address : Text) (o : Outcome) (s : Session) (x : Extrinsic)
    → signs details address p.form o s ≡ some x
    → (x.threshold ≡ 1)
      × (x.length_bound ≡ 5000)
      × ((members : Text) × (details ≡ some members) × (includes members address ≡ true))
      × (((x.hash ≡ p.challenge.audit_hash)
            × (x.report_id ≡ some (p.challenge.report_id))
            × (x.challenge_id ≡ some (p.challenge.challenge_id)))
          ⊎ ((x.hash ≡ []) × (x.report_id ≡ none) × (x.challenge_id ≡ none)))
signs-about {p} r details address o s x h =
    let (members, d, i, _, t, l, k, rid, cid) = signs-IsSigned details address (p.form) o s x h in
    let (t', l', keys) = Reach-about r in
    (
      t ∙ t',
      l ∙ l',
      (members, d, i),
      elim keys [
        | inl (k', rid', cid') ↦ inl (k ∙ k', rid ∙ rid', cid ∙ cid')
        | inr (k', rid', cid') ↦ inr (k ∙ k', rid ∙ rid', cid ∙ cid')
      ],
    )

-- From one page to another without a click on a challenge.
pub data Stay (p : Page) : Page → Type 0 where
  here : Stay p p
  chosen :
      (a : Action) {q : Page}
      → Stay p q
      → Stay p (record q { form = record (q.form) { proposal = method a } })
  reported :
      (find : Registry) (status : TxStatus) (e : Option DispatchError) {q : Page}
      → Stay p q
      → Stay p (record q { form = (on_status find status e q.form).0 })

Stay-IsEmpty : {p q : Page} → Stay p q → IsEmpty (p.form) → IsEmpty (q.form)
unfolding on_status
Stay-IsEmpty here e = e
Stay-IsEmpty (chosen a s) e = Stay-IsEmpty s e
Stay-IsEmpty (reported find status (some er) s) e = Stay-IsEmpty s e
Stay-IsEmpty (reported find status none s) e = elim (Bool-cases (is_in_block status)) [
  | inl h ↦ rw h (refl, refl, refl)
  | inr h ↦ rw h (Stay-IsEmpty s e)
]

-- After a proposal that got into a block, the challenge is shown as before, and until the user
-- clicks on a challenge again everything that is signed has an empty hash and empty ids.
pub signs-after_success :
    (find : Registry) (h : Text) (p : Page) {q : Page}
    → Stay (record p { form = (on_status find (in_block h) none p.form).0 }) q
    → (details : Option Text) (address : Text) (o : Outcome) (s : Session) (x : Extrinsic)
    → signs details address q.form o s ≡ some x
    → (x.hash ≡ []) × (x.report_id ≡ none) × (x.challenge_id ≡ none)
unfolding on_status
signs-after_success find h p {q} stay details address o s x e =
    let (members, d, i, _, t, l, k, rid, cid) = signs-IsSigned details address (q.form) o s x e in
    let (k', rid', cid') = Stay-IsEmpty stay (refl, refl, refl) in (k ∙ k', rid ∙ rid', cid ∙ cid')

propose-method :
    (f : Form) (a : Action)
    → (x : Extrinsic) × (propose (record f { proposal = method a }) ≡ some x)
      × (x.action ≡ a)
      × (x.hash ≡ f.hash)
unfolding propose lookup
propose-method f approve = (_, refl, refl, refl)
propose-method f reject = (_, refl, refl, refl)
propose-method f Action.remove = (_, refl, refl, refl)

-- A member's press with an action of the menu signs an extrinsic of that action, with the hash of
-- the form.
pub signs-choose :
    (members address : Text) (f : Form) (a : Action) (o : Outcome) (s : Session)
    → includes members address ≡ true
    → (x : Extrinsic) × (signs (some members) address (record f { proposal = method a }) o s
        ≡ some x)
      × (x.action ≡ a)
      × (x.hash ≡ f.hash)
unfolding on_click
signs-choose members address f a o s m =
    let (x, e, action, hash) = propose-method f a in (x, ground arith, action, hash)

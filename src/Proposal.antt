-- ===== src/Proposal.antt =====
-- A proposal of the council about a challenge: `CreateProposal`
-- (frontend/substrate-front-end-template/src/CreateProposal.js), whose form state is kept by
-- Challenges.js and set by its `handleClick`.
pub mod Laws
pub mod View
use qrucial_dao.Common.{
  ℕ, Bool, true, false, not, Option, none, some, List, [], ◌∷◌, ◌++◌, if◌then◌else◌,
}
use qrucial_dao.Common.Text.{Text, codes, is_empty, includes, text_eq}
use qrucial_dao.Chain.{
  TxStatus, is_in_block, is_finalized, DispatchError, Registry, status_text, Effect, set_status,
  toast_error, toast_dispatch_error,
}
use qrucial_dao.TxButton.{signed_tx}
use qrucial_dao.TxButton.Send.{Session, Outcome, drop_previous, after_call}

-- What the list of challenges knows of one: its keys, and who raised it.
pub record Challenge : Type 0 where
  pub audit_hash : Text
  pub report_id : ℕ
  pub challenge_id : ℕ
  pub auditor : Text

-- An id is a number, or the empty text.
pub record Form : Type 0 where
  pub threshold : ℕ
  pub proposal : Text
  pub hash : Text
  pub report_id : Option ℕ
  pub challenge_id : Option ℕ
  pub length_bound : ℕ

abbrev pub initial : Form
initial = record {
  threshold = 1;
  proposal = [];
  hash = [];
  report_id = none;
  challenge_id = none;
  length_bound = 5000;
}

-- The form of `handleClick`.
unfoldable pub form_of : Challenge → Form
form_of c = record {
  threshold = 1;
  proposal = [];
  hash = c.audit_hash;
  report_id = some (c.report_id);
  challenge_id = some (c.challenge_id);
  length_bound = 5000;
}

-- The actions of the menu, by the methods of the pallet.
pub data Action : Type 0 where
  approve reject remove : Action

abbrev pub method : Action → Text
method approve = codes "approveChallenge"
method reject = codes "rejectChallenge"
method remove = codes "removeChallenge"

-- `api.tx.exoSys[name]`, as far as the menu and the empty form reach; calling undefined throws.
unfoldable pub lookup : Text → Option Action
lookup name =
    if text_eq name (method approve)
    then some approve
    else if text_eq name (method reject)
    then some reject
    else if text_eq name (method remove)
    then some remove
    else none

-- The extrinsic `challengeCouncil.propose(threshold, exoSys.action(...), lengthBound)`.
pub record Extrinsic : Type 0 where
  pub threshold : ℕ
  pub action : Action
  pub hash : Text
  pub report_id : Option ℕ
  pub challenge_id : Option ℕ
  pub length_bound : ℕ

unfoldable pub propose : Form → Option Extrinsic
propose f = elim (lookup f.proposal) [
  | none ↦ none
  | some a ↦ some (record {
    threshold = f.threshold;
    action = a;
    hash = f.hash;
    report_id = f.report_id;
    challenge_id = f.challenge_id;
    length_bound = f.length_bound;
  })
]

-- The button.
abbrev pub is_disabled : Form → Bool
is_disabled f = is_empty f.proposal

-- What a press does: the extrinsic that is signed, the session, and the messages. `details` is the
-- text of the council's members, or undefined.
unfoldable pub on_click :
    Option Text → Text → Form → Outcome → Session → Option Extrinsic × (Session × List Effect)
on_click none address f o s =
    (none, (s, toast_error (codes "No permission with this account") ∷ []))
on_click (some details) address f o s =
    if includes details address
    then (let (s', dropped) = drop_previous s in
        elim (propose f) [
          | none ↦ (none, (s', dropped ++ (Effect.throw ∷ [])))
          | some x ↦ let (s'', told) = after_call signed_tx o s' in (some x, (s'', dropped ++ told))
        ])
    else (none, (s, toast_error (codes "No permission with this account") ∷ []))

-- `U+1F609` and a space come before the text of a final block.
abbrev pub face : Text
face = 0xd83d ∷ 0xde09 ∷ codes " "

-- The callback for each status: the form after it, and the messages. The events are shown again
-- when the form is reset.
unfoldable pub on_status : Registry → TxStatus → Option DispatchError → Form → Form × List Effect
on_status find status none f =
    (if is_in_block status then initial else f, set_status (status_text face status) ∷ [])
on_status find status (some e) f = (
  f,
  set_status (status_text face status)
      ∷ (if is_finalized status then toast_dispatch_error find e else []),
)

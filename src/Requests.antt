-- ===== src/Requests.antt =====
-- The request of an audit (frontend/substrate-front-end-template/src/RequestAudit.js), and its
-- taking by an auditor (AuditRequests.js).
pub mod Laws
pub mod Report
pub mod View
use qrucial_dao.Common.{
  ℕ, Bool, true, false, Option, none, some, List, [], ◌∷◌, ◌++◌, if◌then◌else◌, leb, length, keep,
  map,
}
use qrucial_dao.Common.Text.{Text, codes, starts_with, text_eq}
use qrucial_dao.Forms.{FormValue, Object, text, number, undefined}
use qrucial_dao.Chain.{Effect, toast_error}
use qrucial_dao.Http.{Answer, Reply, Fetched, caught, fetched, read_json, on_reply}

abbrev pub default_stake : ℕ
default_stake = 500

-- The form; no input changes the two numbers.
pub record RequestForm : Type 0 where
  pub url : Text
  pub hash : Text
  pub bounty : ℕ
  pub min_auditor_score : ℕ

unfoldable pub initial_form : RequestForm
initial_form = record {
  url = [];
  hash = [];
  bounty = default_stake;
  min_auditor_score = default_stake;
}

-- As the object that `useFormValidation` gets.
unfoldable pub to_object : RequestForm → Object FormValue
to_object f =
    (codes "url", text f.url)
    ∷ (codes "hash", text f.hash)
    ∷ (codes "bounty", number f.bounty)
    ∷ (codes "minAuditorScore", number f.min_auditor_score)
    ∷ []

unfoldable pub h256_hash : Text → Text
h256_hash hash = if starts_with hash (codes "0x") then hash else codes "0x" ++ hash

-- The arguments of `requestReview`.
pub record TxData : Type 0 where
  pub url : Text
  pub hash : Text
  pub bounty : ℕ
  pub min_auditor_score : ℕ

-- What a press hands to `txAndPost`; the account may be missing.
unfoldable pub on_click : Option Text → RequestForm → TxData × Object FormValue
on_click requestor f = (
  record {
    url = f.url;
    hash = h256_hash f.hash;
    bounty = f.bounty;
    min_auditor_score = f.min_auditor_score;
  },
  (codes "requestor", (elim requestor [ none ↦ undefined | some a ↦ text a ]))
      ∷ (codes "hash", text (h256_hash f.hash))
      ∷ (codes "projectUrl", text f.url)
      ∷ [],
)

-- An audit of the server, as far as the lists of an auditor read it.
pub record Audit : Type 0 where
  pub hash : Text
  pub top_auditor : Option Text

-- An audit that is free has a short text, as "None", in the place of an address.
unfoldable pub non_taken : List Audit → List Audit
non_taken = keep (λ a. elim (a.top_auditor) [ none ↦ false | some t ↦ leb (length t) 16 ])

unfoldable pub my_audits : Text → List Audit → List Audit
my_audits address = keep (λ a. elim (a.top_auditor) [ none ↦ false | some t ↦ text_eq t address ])

-- The page of the auditors: the hash that is selected, and what it last asked the list for.
pub record TakePage : Type 0 where
  pub selected : Text
  pub audits_change : Option (Text × Text)

-- `onClick`: the pair signs the hash, none where that throws, and verifies the signature; then the
-- taker and the hash go to the server.
unfoldable pub take_audit :
    {S : Type 0}
    → (Text → Option S)
    → (Text → S → Bool)
    → Text
    → TakePage
    → Option (Text × Text) × List Effect
take_audit sign verify taker p = elim (sign p.selected) [
  | none ↦ (none, Effect.throw ∷ [])
  | some s ↦
      if verify p.selected s
      then (
        some (taker, p.selected),
        Effect.post (codes "/lar/take_audit")
              ((codes "audit_taker", text taker) ∷ (codes "audit_hash", text p.selected) ∷ [])
            ∷ [],
      )
      else (none, toast_error (codes "Signature is not valid") ∷ [])
]

-- What the answer does: the selection goes, and the list is asked for again, unless the request
-- failed.
unfoldable pub on_taken : Text × Text → Answer Reply → TakePage → TakePage × List Effect
on_taken sent a p = elim (read_json a) [
  | caught message ↦ (p, toast_error (codes "ERROR " ++ message) ∷ [])
  | fetched (Reply.null message) ↦ (p, toast_error (codes "ERROR " ++ message) ∷ [])
  | fetched r ↦ (record { selected = []; audits_change = some sent }, on_reply false r)
]

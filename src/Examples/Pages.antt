-- ===== src/Examples/Pages.antt =====
-- The pages and their transactions in concrete runs.
use qrucial_dao.Common.{
  ℕ, ◌⊎◌, inl, ◌≡◌, ◌≤◌, refl, true, false, Option, none, some, List, [], ◌∷◌, map, keep, length,
  All,
}
use qrucial_dao.Common.Text.{Text, codes, starts_with, includes}
use qrucial_dao.Common.Regex.Language.{Matches}
use qrucial_dao.Forms.{text, get}
use qrucial_dao.Forms.Validation.{
  Hook, revalidate, initial_hook, validate, check, rule, is_valid_url, allowed_chars, is_allowed,
}
use qrucial_dao.Common.Text.{is_space}
use qrucial_dao.Common.Regex.{test}
use qrucial_dao.Common.Decimal.{decimal}
use qrucial_dao.Forms.Validation.Url.{url_regex}
use qrucial_dao.Chain.{TxStatus, in_block, finalized, pending, DispatchError, Registry}
use qrucial_dao.TxButton.Send.{Session, no_handle, subscribed}
use qrucial_dao.TxAndPost.{Attrs, on_statuses}
use qrucial_dao.TxAndPost.Laws.{posts, is_included, posts-on_statuses}
use qrucial_dao.Toast
use qrucial_dao.Toast.Laws.{last_text, show_all-transaction}
use qrucial_dao.Proposal
use qrucial_dao.Proposal.{Challenge, Action, approve}
use qrucial_dao.Proposal.Laws.{
  Page, Reach, click, choose, Stay, here, chosen, signs, signs-about, signs-after_success,
}
use qrucial_dao.Interactor
use qrucial_dao.Interactor.Laws.{inputs_typed}
use qrucial_dao.ChallengeReport
use qrucial_dao.ChallengeReport.Laws.{Edited, first, changed, IsEntry, params-Edited}
use qrucial_dao.Requests
use qrucial_dao.Profile
use qrucial_dao.Profile.Json.{stringify}
use qrucial_dao.Profile.Laws.{on_click-hash, get-cancelled}
use qrucial_dao.Forms.{FormValue, Object, delete, put}
use qrucial_dao.Requests.Laws.{on_click-enabled}

abbrev registry : Registry
registry index error = none

abbrev attrs : Attrs
attrs = record { post_url = codes "/lar/request-audit"; has_finish = true }

abbrev calls : List (TxStatus × Option DispatchError)
calls =
    (pending (codes "Ready"), none)
    ∷ (in_block (codes "b"), none)
    ∷ (finalized (codes "b"), none)
    ∷ []

posts-on_statuses_example :
    posts (on_statuses registry attrs [] calls)
    ≡ map (λ _. (codes "/lar/request-audit", [])) (keep is_included calls)
posts-on_statuses_example = posts-on_statuses registry attrs [] calls

abbrev ready : Toast.Shown
ready = Toast.text (codes "Current transaction status: Ready")

ready-middle : Toast.is_last ready ≡ false
unfolding Toast.is_last
ready-middle = refl

abbrev later : List (ℕ × Toast.Shown)
later = (2, ready) ∷ (3, Toast.text (last_text [] (inl (codes "b")))) ∷ []

show_all-transaction_example :
    Toast.show_all none ((1, ready) ∷ later)
    ≡ (none, Toast.create 1 ready ∷ map (λ m. Toast.update 1 m.1) later)
show_all-transaction_example =
    show_all-transaction [] ready ((2, ready) ∷ []) (inl (codes "b")) 1 3 (ready-middle, tt)

abbrev challenge : Challenge
challenge = record { audit_hash = codes "h"; report_id = 0; challenge_id = 1; auditor = codes "A1" }

abbrev idle : Session
idle = record { unsub = no_handle; live = [] }

abbrev page : Page
page = record { challenge = challenge; form = Proposal.form_of challenge }

chosen_page : (p : Page) × Reach p
chosen_page = (_, choose approve (click challenge))

signed :
    (x : Proposal.Extrinsic) × (signs
        (some (codes "A1"))
        (codes "A1")
        chosen_page.0.form
        (subscribed 1)
        idle
      ≡ some x)
unfolding chosen_page Proposal.on_click Proposal.propose Proposal.lookup
signed = (_, refl)

signs-about_example :
    let (x, e) = signed in
    (x.threshold ≡ 1)
    × (x.length_bound ≡ 5000)
    × ((members : Text) × (some (codes "A1") ≡ some members)
        × (includes members (codes "A1") ≡ true))
    × (((x.hash ≡ chosen_page.0.challenge.audit_hash)
          × (x.report_id ≡ some (chosen_page.0.challenge.report_id))
          × (x.challenge_id ≡ some (chosen_page.0.challenge.challenge_id)))
        ⊎ ((x.hash ≡ []) × (x.report_id ≡ none) × (x.challenge_id ≡ none)))
signs-about_example =
    signs-about chosen_page.1 (some (codes "A1")) (codes "A1") (subscribed 1) idle signed.0 signed.1

-- The first proposal is in a block, and another action is chosen.
after_success :
    (q : Page) × Stay
      (record (chosen_page.0) {
        form = (Proposal.on_status registry (in_block (codes "b")) none (chosen_page.0.form)).0;
      })
      q
after_success = (_, chosen approve here)

signed_again :
    (x : Proposal.Extrinsic) × (signs
        (some (codes "A1"))
        (codes "A1")
        after_success.0.form
        (subscribed 1)
        idle
      ≡ some x)
unfolding chosen_page after_success Proposal.on_status Proposal.on_click Proposal.propose
    Proposal.lookup
signed_again = (_, refl)

signs-after_success_example :
    let (x, e) = signed_again in (x.hash ≡ []) × (x.report_id ≡ none) × (x.challenge_id ≡ none)
signs-after_success_example =
    signs-after_success registry (codes "b") (chosen_page.0) after_success.1 (some (codes "A1"))
      (codes "A1") (subscribed 1) idle signed_again.0 signed_again.1

-- A storage map by an account.
abbrev metadata : Interactor.Metadata
metadata = record {
  storage = λ p c. Interactor.map_of (codes "AccountId");
  args = λ p c. none;
  params = λ p c. none;
}

written : (p : Interactor.Laws.Page) × Interactor.Laws.Reach metadata p
unfolding Interactor.param_fields Interactor.on_change Interactor.on_interx_type_change
written = (
  _,
  Interactor.Laws.write 0 (Interactor.field (codes "AccountId") (codes "AccountId") false)
      (codes "5G") refl
      (Interactor.Laws.choose_callable (codes "account") (
        Interactor.Laws.choose_pallet (codes "system")
          (Interactor.Laws.choose_type Interactor.query Interactor.Laws.begin))),
)

inputs_typed_example : Interactor.Laws.IsValid metadata written.0
inputs_typed_example = inputs_typed written.1

filled : (rows : List ChallengeReport.Row) × Edited ChallengeReport.add rows
unfolding ChallengeReport.empty_row ChallengeReport.change_row
filled = (_, changed 0 (codes "tool") (codes "Clippy") refl refl first)

params-Edited_example :
    All
      (λ id. ChallengeReport.truthy id ≡ true)
      (ChallengeReport.remove_param (ChallengeReport.empty_row ChallengeReport.remove ∷ []))
    × All IsEntry (ChallengeReport.add_param filled.0)
    × All IsEntry
        (ChallengeReport.patch_param (ChallengeReport.empty_row ChallengeReport.patch ∷ []))
params-Edited_example = params-Edited first filled.1 first

-- A hash of 64 zeros.
abbrev request : Requests.RequestForm
request = record {
  url = codes "http://a.bc";
  hash = codes "0000000000000000000000000000000000000000000000000000000000000000";
  bounty = 500;
  min_auditor_score = 500;
}

enabled :
    (h : Hook) × (revalidate (Requests.to_object request) (initial_hook []) ≡ some h)
    × (h.disabled ≡ false)
unfolding Requests.to_object revalidate validate check rule is_valid_url allowed_chars is_allowed
    is_space test url_regex decimal
enabled = (_, refl, refl)

on_click-enabled_example :
    let (tx, body) = Requests.on_click none request in
    Matches url_regex tx.url
    × (starts_with tx.hash (codes "0x") ≡ true)
    × (64 ≤ length tx.hash)
    × (get (codes "hash") body ≡ some (text tx.hash))
    × (get (codes "projectUrl") body ≡ some (text tx.url))
on_click-enabled_example = on_click-enabled none request (initial_hook []) enabled.1 enabled.2

abbrev audits : List Requests.Audit
audits =
    record { hash = codes "h"; top_auditor = some (codes "None") }
    ∷ record { hash = codes "g"; top_auditor = some (codes "5GrwvaEF5zXb26Fz9") }
    ∷ []

-- A hash that is the text itself.
abbrev keccak : Text → Text
keccak s = s

edited : (form : Object FormValue) × Profile.Laws.Edited form
edited = (
  _,
  Profile.Laws.typed (codes "name") (codes "ann") refl
      (Profile.Laws.opened_new (some (codes "A1"))),
)

profile :
    (r : Text × Object FormValue) × ((Profile.on_click keccak (some (codes "A1")) edited.0).0
      ≡ some r)
unfolding edited Profile.on_click Profile.on_change Profile.auditor_fields Profile.is_other get put
    delete
profile = (_, refl)

on_click-hash_example :
    (profile.0.0 ≡ keccak (stringify (delete (codes "profileHash") profile.0.1)))
    × (get (codes "profileHash") profile.0.1 ≡ some (text profile.0.0))
    × (Profile.is_other (get (codes "address") profile.0.1) (some (codes "A1")) ≡ false)
on_click-hash_example =
    on_click-hash keccak (some (codes "A1")) edited.1 profile.0.0 profile.0.1 profile.1

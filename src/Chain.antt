-- ===== src/Chain.antt =====
-- What the transaction code of the pages shares: the selected account and its signer
-- (`getFromAcct`), the status of a submitted extrinsic (`setStatusState`, `showStatus`), the text
-- of a dispatch error, and the failure message (`txErrHandler`); in
-- frontend/substrate-front-end-template/src: substrate-lib/components/TxButton.js,
-- hooks/useTxAndPost.js and CreateProposal.js. Sums stand for the library's `is...` flags, of
-- which one holds at a time.
use qrucial_dao.Common.{
  ℕ, Bool, true, false, Option, none, some, List, [], ◌∷◌, ◌++◌, if◌then◌else◌,
}
use qrucial_dao.Common.Text.{Text, codes}
use qrucial_dao.Forms.{FormValue, Object}

-- A pair of the keyring.
pub record Account : Type 0 where
  pub address : Text
  pub name : Text
  pub source : Text
  pub is_injected : Bool

-- Who signs: the pair itself, or the extension `source` for an address.
pub data Sender : Type 0 where
  pair : Account → Sender
  injected : (address source : Text) → Sender

unfoldable pub get_from_acct : Account → Sender
get_from_acct acct = if acct.is_injected then injected acct.address acct.source else pair acct

-- The status of an extrinsic with its block's hash, or the name of another status.
pub data TxStatus : Type 0 where
  in_block finalized : Text → TxStatus
  pending : Text → TxStatus

abbrev pub is_in_block : TxStatus → Bool
is_in_block (in_block h) = true
is_in_block _ = false

abbrev pub is_finalized : TxStatus → Bool
is_finalized (finalized h) = true
is_finalized _ = false

abbrev pub status_type : TxStatus → Text
status_type (in_block h) = codes "InBlock"
status_type (finalized h) = codes "Finalized"
status_type (pending type) = type

-- `prefix` is empty but in CreateProposal.js, which puts a face before the message.
unfoldable pub status_text : Text → TxStatus → Text
status_text prefix (finalized h) = prefix ++ (codes "Finalized. Block hash: " ++ h)
status_text prefix s = codes "Current transaction status: " ++ status_type s

-- Its first two code units are those of U+1F61E.
unfoldable pub failed_text : Text → Text
failed_text err = 0xd83d ∷ 0xde1e ∷ codes " Transaction Failed: " ++ err

-- An error of a pallet by the pallet's index and the first byte of the error, or another one by
-- its text.
pub data DispatchError : Type 0 where
  module_error : (index error : ℕ) → DispatchError
  other_error : Text → DispatchError

pub record MetaError : Type 0 where
  pub docs : List Text
  pub name : Text
  pub section : Text

-- `api.registry.findMetaError`, which throws where it finds none.
abbrev pub Registry : Type 0
Registry = ℕ → ℕ → Option MetaError

-- `docs.join(' ')`.
unfoldable pub join_words : List Text → Text
join_words [] = []
join_words (w ∷ []) = w
join_words (w ∷ x ∷ ws) = w ++ (b' ' ∷ join_words (x ∷ ws))

-- The text of the error toast, none where the look-up throws.
unfoldable pub error_text : Registry → DispatchError → Option Text
error_text find (module_error index error) = elim (find index error) [
  | none ↦ none
  | some m ↦ some (m.section ++ (b'.' ∷ m.name ++ (codes ":\n " ++ join_words m.docs)))
]
error_text find (other_error e) = some e

-- What a handler does, in order.
pub data Effect : Type 0 where
  set_status toast_error toast_success : Text → Effect
  -- An exception leaves the handler.
  throw : Effect
  unsubscribe : ℕ → Effect
  -- A request to a url with a body, and the callbacks `finishEvent` and `resCallback`.
  post : Text → Object FormValue → Effect
  finish callback : Effect

abbrev pub toast_dispatch_error : Registry → DispatchError → List Effect
toast_dispatch_error find e = elim (error_text find e) [
  | none ↦ throw ∷ []
  | some t ↦ toast_error t ∷ []
]

-- ===== src/Context/App.antt =====
-- `Main` of frontend/substrate-front-end-template/src/App.js: what is drawn for a state.

pub mod Laws
pub mod Reached
use qrucial_dao.Common.{Option, none, some}
use qrucial_dao.Common.Text.{Text}
use qrucial_dao.Context.{ApiState, KeyringState, State}

-- The message of a lost connection names the error's address; it throws where there is no error.
pub data View : Type 0 where
  message : Option Text → View
  connecting_loader accounts_loader pages : View

unfoldable pub app_keyring : Option KeyringState → View
app_keyring (some KeyringState.ready) = pages
app_keyring _ = accounts_loader

unfoldable pub app : State → View
unfolding app_keyring
app s = elim s.api_state [
  | none ↦ connecting_loader
  | some ApiState.error ↦ message s.api_error
  | some ApiState.ready ↦ app_keyring s.keyring_state
  | some _ ↦ connecting_loader
]

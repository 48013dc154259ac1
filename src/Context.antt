-- ===== src/Context.antt =====
-- The shared state of the pages
-- (frontend/substrate-front-end-template/src/substrate-lib/SubstrateContext.js): `reducer`, the
-- connection's listeners and `loadAccounts`; the view that App.js draws from it.

pub mod World
pub mod App
use qrucial_dao.Common.{
  ℕ, Bool, true, false, ◌||◌, Option, none, some, List, [], ◌∷◌, ◌++◌, map, if◌then◌else◌,
}
use qrucial_dao.Common.Text.{Text, codes}
use qrucial_dao.Chain.{Account}

pub data ApiState : Type 0 where
  connect_init connecting ready error : ApiState

pub data KeyringState : Type 0 where
  loading ready error : KeyringState

-- `jsonrpc`, a constant, is left out. The connection goes by a number, the keyring by its
-- pairs, and an error by the address that it names.
pub record State : Type 0 where
  pub socket : Text
  pub keyring : Option (List Account)
  pub keyring_state : Option KeyringState
  pub api : Option ℕ
  pub api_error : Option Text
  pub api_state : Option ApiState
  pub current_account : Option Account

abbrev pub initial_state : Text → State
initial_state socket = record {
  socket = socket;
  keyring = none;
  keyring_state = none;
  api = none;
  api_error = none;
  api_state = none;
  current_account = none;
}

pub data Action : Type 0 where
  connect_init connect_success load_keyring keyring_error : Action
  connect : ℕ → Action
  connect_error : Text → Action
  set_keyring : List Account → Action
  set_current_account : Option Account → Action
  unknown : Text → Action

-- None where it throws.
unfoldable pub reducer : State → Action → Option State
reducer s connect_init = some (record s { api_state = some ApiState.connect_init })
reducer s (connect api) = some (record s { api = some api; api_state = some connecting })
reducer s connect_success = some (record s { api_state = some ApiState.ready })
reducer s (connect_error e) =
    some (record s { api_state = some ApiState.error; api_error = some e })
reducer s load_keyring = some (record s { keyring_state = some loading })
reducer s (set_keyring k) =
    some (record s { keyring = some k; keyring_state = some KeyringState.ready })
reducer s keyring_error =
    some (record s { keyring = none; keyring_state = some KeyringState.error })
reducer s (set_current_account a) = some (record s { current_account = a })
reducer s (unknown type) = none

-- What the connection tells its listeners: `ready` as an event, or by the promise `isReady`.
pub data ApiEvent : Type 0 where
  connected : ℕ → ApiEvent
  ready_event ready_promise : ApiEvent
  failed : Text → ApiEvent

unfoldable pub on_api_event : ApiEvent → Action
on_api_event (connected api) = connect api
on_api_event ready_event = connect_success
on_api_event ready_promise = connect_success
on_api_event (failed e) = connect_error e

-- The chain's name, and what its type says.
pub record ChainInfo : Type 0 where
  pub system_chain : Text
  pub is_development : Bool
  pub is_local : Bool

-- `retrieveChainInfo` on the node's answers; a node without `chainType` counts as live.
unfoldable pub retrieve_chain_info : Option Text → Option (Bool × Bool) → ChainInfo
retrieve_chain_info name type = record {
  system_chain = elim name [ none ↦ codes "<unknown>" | some t ↦ t ];
  is_development = elim type [ none ↦ false | some (d, l) ↦ d ];
  is_local = elim type [ none ↦ false | some (d, l) ↦ l ];
}

-- An account of the extension, shown with the name of its wallet.
unfoldable pub with_source : Account → Account
with_source a = record a { name = a.name ++ (codes " (" ++ (a.source ++ codes ")")) }

-- What the asynchronous part of `loadAccounts` meets: an exception, or the extension's accounts
-- and the node's answers.
pub data Fetched : Type 0 where
  raised : Fetched
  fetched : List Account → Option Text → Option (Bool × Bool) → Fetched

-- `isTestChain` and `Keyring.loadAll` belong to libraries.
module _ (is_test_chain : Text → Bool) (load_all : Bool → List Account → List Account) where
  unfoldable pub is_development : ChainInfo → Bool
  is_development c = c.is_development || (c.is_local || is_test_chain c.system_chain)

  unfoldable pub finish_load : Fetched → Action
  unfolding is_development
  finish_load raised = keyring_error
  finish_load (fetched accounts name type) =
      set_keyring
        (load_all (is_development (retrieve_chain_info name type)) (map with_source accounts))

-- ===== src/Context/World.antt =====
-- The provider at work: renders, its effect, and what the connection and the loading send it.
pub mod Laws
use qrucial_dao.Common.{
  ℕ, ◌+◌, ◌-◌, Bool, true, false, not, ◌&&◌, Option, none, some, List, [], ◌∷◌, if◌then◌else◌,
  is_some, ◌<◌, ◌≡◌,
}
use qrucial_dao.Common.Text.{Text}
use qrucial_dao.Chain.{Account}
use qrucial_dao.Context.{
  ApiState, KeyringState, State, initial_state, Action, reducer, ApiEvent, connected, ready_event,
  ready_promise, failed, on_api_event, connect_init, load_keyring, set_current_account, set_keyring,
  keyring_error,
}

-- The state, the flag `keyringLoadAll` of the module, and counts: the connections that `connect`
-- made, the calls of `loadAccounts`, and those that have not finished. `was_connected` is set by
-- the first `connected` event.
pub record World : Type 0 where
  pub state : State
  pub keyring_load_all : Bool
  pub connections : ℕ
  pub loads : ℕ
  pub unfinished : ℕ
  pub was_connected : Bool

abbrev pub start : Text → World
start socket = record {
  state = initial_state socket;
  keyring_load_all = false;
  connections = 0;
  loads = 0;
  unfinished = 0;
  was_connected = false;
}

pub data Event : Type 0 where
  -- A render calls `connect`; the effect of `useEffect` runs after it.
  render effect : Event
  api : ApiEvent → Event
  -- `loadAccounts` ends in one of its two actions.
  loaded : List Account → Event
  load_failed : Event
  account : Option Account → Event

abbrev pub dispatch : Action → World → Option World
dispatch a w = elim (reducer w.state a) [ none ↦ none | some s ↦ some (record w { state = s }) ]

-- `connect`: once.
unfoldable pub connect_step : World → Option World
connect_step w =
    if is_some w.state.api_state
    then some w
    else dispatch Action.connect_init (record w { connections = w.connections + 1 })

abbrev pub is_ready : Option ApiState → Bool
is_ready (some ApiState.ready) = true
is_ready _ = false

abbrev pub is_loaded : Option KeyringState → Bool
is_loaded (some KeyringState.ready) = true
is_loaded _ = false

-- The effect of the provider.
unfoldable pub load_step : World → Option World
load_step w =
    if is_ready w.state.api_state && (not (is_some w.state.keyring_state) && not w.keyring_load_all)
    then dispatch load_keyring
        (record w { keyring_load_all = true; loads = w.loads + 1; unfinished = w.unfinished + 1 })
    else some w

abbrev pub is_connected : ApiEvent → Bool
is_connected (connected n) = true
is_connected _ = false

abbrev pub note_connected : ApiEvent → World → World
note_connected e w = if is_connected e then record w { was_connected = true } else w

abbrev pub finished : World → World
finished w = record w { unfinished = w.unfinished - 1 }

unfoldable pub step : World → Event → Option World
unfolding connect_step load_step
step w render = connect_step w
step w effect = load_step w
step w (api e) = dispatch (on_api_event e) (note_connected e w)
step w (loaded k) = dispatch (set_keyring k) (finished w)
step w load_failed = dispatch keyring_error (finished w)
step w (account a) = dispatch (set_current_account a) w

-- What an event supposes: a connection speaks only after it was made, it is ready only after it
-- was connected, and a load ends only after it began.
abbrev pub CanHappen : World → Event → Type 0
CanHappen w (api (connected n)) = 0 < w.connections
CanHappen w (api (failed e)) = 0 < w.connections
CanHappen w (api _) = w.was_connected ≡ true
CanHappen w (loaded k) = 0 < w.unfinished
CanHappen w load_failed = 0 < w.unfinished
CanHappen w _ = Unit

-- The worlds that a page goes through.
pub data Reach (socket : Text) : World → Type 0 where
  here : Reach socket (start socket)
  next :
      {w w' : World} (e : Event)
      → Reach socket w
      → CanHappen w e
      → step w e ≡ some w'
      → Reach socket w'

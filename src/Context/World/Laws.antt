-- ===== src/Context/World/Laws.antt =====
-- What holds of every world that the page goes through.
use qrucial_dao.Common.{◌≤◌, ◌<◌, ◌≡◌, Bool, true, false, Option, some, is_some, arith}
use qrucial_dao.Common.Text.{Text}
use qrucial_dao.Context.{ApiState, KeyringState, reducer, on_api_event, loading}
use qrucial_dao.Context.World.{
  World, start, Event, load_failed, step, CanHappen, Reach, here, next, is_ready, is_loaded,
}

abbrev pub is_error : Option ApiState → Bool
is_error (some ApiState.error) = true
is_error _ = false

abbrev pub is_loading : Option KeyringState → Bool
is_loading (some loading) = true
is_loading _ = false

pub record IsValid (w : World) : Type 0 where
  -- One connection, made with the first render.
  pub one_connection : w.connections ≤ 1
  pub connects : is_some w.state.api_state ≡ false → w.connections ≡ 0
  -- What the pages take from a state that is ready is there.
  pub has_api : w.was_connected ≡ true → is_some w.state.api ≡ true
  pub was_ready : is_ready w.state.api_state ≡ true → w.was_connected ≡ true
  pub has_error : is_error w.state.api_state ≡ true → is_some w.state.api_error ≡ true
  pub has_keyring : is_loaded w.state.keyring_state ≡ is_some w.state.keyring
  -- The accounts are loaded once.
  pub flagged : w.keyring_load_all ≡ false → (w.loads ≡ 0) × (is_some w.state.keyring_state ≡ false)
  pub one_load : w.loads ≤ 1
  pub in_flight : w.unfinished ≤ 1
  pub still_loading : 0 < w.unfinished → is_loading w.state.keyring_state ≡ true
  pub load_after_connect : 0 < w.loads → w.was_connected ≡ true

step-IsValid :
    (w : World) (e : Event) {w' : World}
    → IsValid w
    → CanHappen w e
    → step w e ≡ some w'
    → IsValid w'
unfolding step reducer on_api_event
step-IsValid w e v c h = ground arith

start-IsValid : (socket : Text) → IsValid (start socket)
start-IsValid socket = ground arith

-- Every world that the page goes through has one connection at most, loads the accounts once at
-- most and only when connected, and holds what its state says that it holds.
pub Reach-IsValid : {socket : Text} {w : World} → Reach socket w → IsValid w
Reach-IsValid {socket} here = start-IsValid socket
Reach-IsValid (next {w} e r c h) = step-IsValid w e (Reach-IsValid r) c h

-- No event that the provider handles makes its reducer throw.
pub step_total : (w : World) (e : Event) → is_some (step w e) ≡ true
unfolding step reducer on_api_event
step_total w e = ground arith

-- A load that failed, with none under way.
pub record HasFailed (w : World) : Type 0 where
  pub flag : w.keyring_load_all ≡ true
  pub idle : w.unfinished ≡ 0
  pub failed_state : w.state.keyring_state ≡ some KeyringState.error

step-HasFailed :
    (w : World) (e : Event) {w' : World}
    → HasFailed w
    → CanHappen w e
    → step w e ≡ some w'
    → HasFailed w'
unfolding step reducer on_api_event
step-HasFailed w e f c h = ground arith

load_failed-HasFailed :
    (w : World) {w' : World}
    → IsValid w
    → CanHappen w load_failed
    → step w load_failed ≡ some w'
    → HasFailed w'
unfolding step reducer on_api_event
load_failed-HasFailed w v c h = ground arith

-- The worlds after one.
pub data Later (v : World) : World → Type 0 where
  same : Later v v
  later : {w w' : World} (e : Event) → Later v w → CanHappen w e → step w e ≡ some w' → Later v w'

Later-HasFailed : {v w : World} → HasFailed v → Later v w → HasFailed w
Later-HasFailed f same = f
Later-HasFailed f (later {w} e l c h) = step-HasFailed w e (Later-HasFailed f l) c h

-- After a load that failed the keyring's state stays an error, whatever happens: the accounts are
-- never loaded again.
pub load_failed-Later :
    {socket : Text} {w v u : World}
    → Reach socket w
    → CanHappen w load_failed
    → step w load_failed ≡ some v
    → Later v u
    → u.state.keyring_state ≡ some KeyringState.error
load_failed-Later {w} r c h l =
    (Later-HasFailed (load_failed-HasFailed w (Reach-IsValid r) c h) l).failed_state

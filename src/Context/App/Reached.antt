-- ===== src/Context/App/Reached.antt =====
-- From where the pages can still be drawn.
use qrucial_dao.Common.{
  ℕ, ◌+◌, ◌-◌, ◌<◌, ◌≡◌, refl, ap, ◌∙◌, Bool, true, false, Option, none, some, List, is_some, arith,
  if◌then◌else◌, Bool-cases, inl, inr,
}
use qrucial_dao.Common.Text.{Text}
use qrucial_dao.Chain.{Account}
use qrucial_dao.Context.{
  State, ApiState, KeyringState, loading, reducer, connected, ready_event, on_api_event,
}
use qrucial_dao.Context.World.{
  World, Event, render, effect, api, loaded, step, CanHappen, Reach, here, next, is_ready,
  is_loaded,
}
use qrucial_dao.Context.World.Laws.{IsValid, Reach-IsValid, Later, same, later, is_loading}
use qrucial_dao.Context.App.{pages, app}

abbrev pub is_failed : Option KeyringState → Bool
is_failed (some KeyringState.error) = true
is_failed _ = false

-- What was begun is under way or done.
record IsLive (w : World) : Type 0 where
  connecting : is_some w.state.api_state ≡ true → 0 < w.connections
  joined : w.was_connected ≡ true → 0 < w.connections
  in_flight : is_loading w.state.keyring_state ≡ true → 0 < w.unfinished
  begun : w.keyring_load_all ≡ true → is_some w.state.keyring_state ≡ true

step-IsLive :
    (w : World) (e : Event) {w' : World}
    → IsValid w
    → IsLive w
    → CanHappen w e
    → step w e ≡ some w'
    → IsLive w'
unfolding step reducer on_api_event
step-IsLive w e v l c h = ground arith

Reach-IsLive : {socket : Text} {w : World} → Reach socket w → IsLive w
Reach-IsLive here = ground arith
Reach-IsLive (next {w} e r c h) = step-IsLive w e (Reach-IsValid r) (Reach-IsLive r) c h

-- A render makes the connection, if there is none.
rendered :
    (w : World)
    → IsLive w
    → (v : World) × (step w render ≡ some v)
      × (0 < v.connections)
      × (v.state.keyring_state ≡ w.state.keyring_state)
      × (v.state.keyring ≡ w.state.keyring)
unfolding step reducer
rendered w l = elim (Bool-cases (is_some w.state.api_state)) [
  | inl y ↦ (w, rw y refl, l.connecting y, refl, refl)
  | inr n ↦ (
    record w {
      state = record w.state { api_state = some ApiState.connect_init };
      connections = w.connections + 1;
    },
    rw n refl,
    omega arith,
    refl,
    refl,
  )
]

-- A connection that is there is made anew and is ready.
abbrev ready_with : ℕ → World → World
ready_with n v = record v {
  state = record v.state { api = some n; api_state = some ApiState.ready };
  was_connected = true;
}

made_ready : (n : ℕ) (w v : World) → Later w v → 0 < v.connections → Later w (ready_with n v)
unfolding step reducer on_api_event
made_ready n w v l c = later (api ready_event) (later (api (connected n)) l c refl) refl refl

-- The effect begins the load, if that was not begun.
abbrev loading_now : World → World
loading_now v = record v {
  state = record v.state { keyring_state = some loading };
  keyring_load_all = true;
  loads = v.loads + 1;
  unfinished = v.unfinished + 1;
}

began :
    (v : World)
    → is_ready v.state.api_state ≡ true
    → is_some v.state.keyring_state ≡ false
    → v.keyring_load_all ≡ false
    → step v effect ≡ some (loading_now v)
unfolding step reducer
began v a k f = rw (a, k, f) refl

-- The load ends well.
abbrev loaded_with : List Account → World → World
loaded_with k v = record v {
  state = record v.state { keyring = some k; keyring_state = some KeyringState.ready };
  unfinished = v.unfinished - 1;
}

ended : (k : List Account) (w v : World) → Later w v → 0 < v.unfinished → Later w (loaded_with k v)
unfolding step reducer
ended k w v l u = later (loaded k) l u refl

-- The cases of the keyring.
abbrev Stage : Option KeyringState → World → Type 0
Stage none v = v.keyring_load_all ≡ false
Stage (some loading) v = 0 < v.unfinished
Stage (some KeyringState.ready) v = Unit
Stage (some KeyringState.error) v = ⊥

finish :
    (o : Option KeyringState) (k : List Account) (w v : World)
    → Later w v
    → v.state.keyring_state ≡ o
    → is_ready v.state.api_state ≡ true
    → Stage o v
    → (u : World) × Later w u
      × (is_ready u.state.api_state ≡ true)
      × (is_loaded u.state.keyring_state ≡ true)
      × (u.state.api ≡ v.state.api)
      × (u.state.keyring ≡ (if is_loaded o then v.state.keyring else some k))
finish none k w v l e a f = (
  loaded_with k (loading_now v),
  ended k w (loading_now v) (later effect l tt (began v a (rw e refl) f)) (omega arith),
  a,
  refl,
  refl,
  refl,
)
finish (some loading) k w v l e a u = (loaded_with k v, ended k w v l u, a, refl, refl, refl)
finish (some KeyringState.ready) k w v l e a u = (v, l, a, rw e refl, refl, refl)
finish (some KeyringState.error) k w v l e a u = absurd u

stage :
    (o : Option KeyringState) (w : World)
    → w.state.keyring_state ≡ o
    → is_failed o ≡ false
    → IsLive w
    → Stage o w
stage none w e h l = ground (arith, l.begun)
stage (some loading) w e h l = l.in_flight (rw e refl)
stage (some KeyringState.ready) w e h l = tt
stage (some KeyringState.error) w e h l = cc

app-pages :
    (s : State) → is_ready s.api_state ≡ true → is_loaded s.keyring_state ≡ true → app s ≡ pages
unfolding app
app-pages s a k = ground arith

-- From every world that the page goes through in which no load of the accounts has failed, whatever
-- became of the connection, the pages can still be drawn, with whatever connection comes next, and
-- with the accounts that were loaded, or whatever accounts the load then gives.
pub pages_reached :
    {socket : Text} {w : World} (n : ℕ) (k : List Account)
    → Reach socket w
    → is_failed w.state.keyring_state ≡ false
    → (u : World) × Later w u
      × (app u.state ≡ pages)
      × (u.state.api ≡ some n)
      × (u.state.keyring ≡ (if is_loaded w.state.keyring_state then w.state.keyring else some k))
pages_reached {socket} {w} n k r ok =
    let (v, drawn, there, state, keyring) = rendered w (Reach-IsLive r) in
    let live = Reach-IsLive (next render r tt drawn) in
    let connected_so : IsLive (ready_with n v) = record {
      connecting = λ _. there;
      joined = λ _. there;
      in_flight = live.in_flight;
      begun = live.begun;
    } in
    let (u, l, a, loaded_so, its_api, its_keyring) =
      finish w.state.keyring_state k w (ready_with n v)
        (made_ready n w v (later render same tt drawn) there) state refl
        (stage w.state.keyring_state (ready_with n v) state ok connected_so) in
    (
      u,
      l,
      app-pages u.state a loaded_so,
      its_api,
      its_keyring ∙ ap (λ x. if is_loaded w.state.keyring_state then x else some k) keyring,
    )

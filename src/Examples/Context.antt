-- ===== src/Examples/Context.antt =====
-- The provider (SubstrateContext.js) and the view of App.js in concrete runs.
use qrucial_dao.Common.{◌≡◌, ◌≢◌, refl, true, some, [], ◌∷◌, arith, is_some, false, if◌then◌else◌}
use qrucial_dao.Common.Text.{Text, codes}
use qrucial_dao.Context.{KeyringState, reducer, on_api_event, connected, ready_event, failed}
use qrucial_dao.Context.World.{
  World, start, step, Reach, here, next, render, effect, api, loaded, load_failed, is_loaded,
}
use qrucial_dao.Context.World.Laws.{
  IsValid, Reach-IsValid, Later, same, later, load_failed-Later, step_total,
}
use qrucial_dao.Context.App.{app, pages, message}
use qrucial_dao.Context.App.Reached.{is_failed, pages_reached}
use qrucial_dao.Context.App.Laws.{load_failed_no_pages}
use qrucial_dao.Examples.Values.{alice}

abbrev socket : Text
socket = codes "ws://x"

-- A page up to the moment when it loads the accounts.
loading_page : (w : World) × Reach socket w × (w.unfinished ≡ 1) × (is_some w.state.api ≡ true)
unfolding step reducer on_api_event
loading_page = (
  _,
  next effect
      (next (api ready_event)
        (next (api (connected 1)) (next render here tt refl) (omega arith) refl) refl refl)
      tt refl,
  refl,
  refl,
)

loaded_page : (w : World) × Reach socket w × (app w.state ≡ pages)
unfolding app step reducer on_api_event
loaded_page = (
  _,
  next (loaded (alice ∷ []))
      (next effect
        (next (api ready_event)
          (next (api (connected 1)) (next render here tt refl) (omega arith) refl) refl refl)
        tt refl)
      (omega arith) refl,
  refl,
)

Reach-IsValid_example : IsValid loading_page.0
Reach-IsValid_example = Reach-IsValid loading_page.1

-- The connection fails before it is made.
refused_page : (w : World) × Reach socket w × (app w.state ≡ message (some (codes "ws://x")))
unfolding app step reducer on_api_event
refused_page =
    (_, next (api (failed (codes "ws://x"))) (next render here tt refl) (omega arith) refl, refl)

refused_not_failed : is_failed refused_page.0.state.keyring_state ≡ false
unfolding refused_page step reducer on_api_event
refused_not_failed = refl

pages_reached_example :
    (u : World) × Later refused_page.0 u
    × (app u.state ≡ pages)
    × (u.state.api ≡ some 1)
    × (u.state.keyring ≡ (
        if is_loaded refused_page.0.state.keyring_state
        then refused_page.0.state.keyring
        else some (alice ∷ [])))
pages_reached_example = pages_reached 1 (alice ∷ []) refused_page.1 refused_not_failed

-- The load fails, and a render and a ready connection follow.
failed_page : (v : World) × (step loading_page.0 load_failed ≡ some v)
unfolding step reducer on_api_event
failed_page = (_, refl)

after_failure : (u : World) × Later failed_page.0 u
unfolding step reducer on_api_event failed_page loading_page
after_failure =
    (_, later effect (later (api ready_event) (later render same tt refl) refl refl) tt refl)

load_failed-Later_example : after_failure.0.state.keyring_state ≡ some KeyringState.error
load_failed-Later_example =
    load_failed-Later loading_page.1 (omega (arith, loading_page.2)) failed_page.1 after_failure.1

load_failed_no_pages_example : app after_failure.0.state ≢ pages
load_failed_no_pages_example =
    load_failed_no_pages loading_page.1 (omega (arith, loading_page.2)) failed_page.1
      after_failure.1

step_total_example : is_some (step (start socket) effect) ≡ true
step_total_example = step_total (start socket) effect

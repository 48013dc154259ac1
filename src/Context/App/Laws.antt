-- ===== src/Context/App/Laws.antt =====
-- What the drawn view says of a page.
use qrucial_dao.Common.{ℕ, ◌≡◌, ◌≢◌, refl, sym, ◌∙◌, true, Option, none, some, List, is_some, arith}
use qrucial_dao.Common.Text.{Text}
use qrucial_dao.Chain.{Account}
use qrucial_dao.Context.{State}
use qrucial_dao.Context.World.{World, load_failed, step, CanHappen, Reach, is_ready, is_loaded}
use qrucial_dao.Context.World.Laws.{Reach-IsValid, Later, load_failed-Later}
use qrucial_dao.Context.App.{message, pages, app}

get {ℓ} : {A : Type ℓ} (o : Option A) → is_some o ≡ true → (a : A) × (o ≡ some a)
get none h = cc
get (some a) h = (a, refl)

app-pages :
    (s : State) → app s ≡ pages → (is_ready s.api_state ≡ true) × (is_loaded s.keyring_state ≡ true)
unfolding app
app-pages s h = ground arith

-- The pages are drawn only when the connection and the keyring that they use are there.
pub pages_have :
    {socket : Text} {w : World}
    → Reach socket w
    → app w.state ≡ pages
    → (n : ℕ) × (k : List Account) × (w.state.api ≡ some n) × (w.state.keyring ≡ some k)
pages_have {w} r h =
    let v = Reach-IsValid r in
    let (a, k) = app-pages w.state h in
    let (n, has_n) = get (w.state.api) (v.has_api (v.was_ready a)) in
    let (ks, has_ks) = get (w.state.keyring) (sym v.has_keyring ∙ k) in (n, ks, has_n, has_ks)

-- The message of a lost connection always has an error to name.
pub message-error :
    {socket : Text} {w : World} {e : Option Text}
    → Reach socket w
    → app w.state ≡ message e
    → is_some e ≡ true
unfolding app
message-error {w} r h = let v = Reach-IsValid r in ground (arith, v.has_error)

-- After a load of the accounts that failed the pages are never drawn.
pub load_failed_no_pages :
    {socket : Text} {w v u : World}
    → Reach socket w
    → CanHappen w load_failed
    → step w load_failed ≡ some v
    → Later v u
    → app u.state ≢ pages
unfolding app
load_failed_no_pages r c h l = ground (arith, load_failed-Later r c h l)

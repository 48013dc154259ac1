-- ===== src/Pages/Subscription.antt =====
-- The subscription of a page to an entry of the chain: the effects of AuditorsPage.js, CouncilPage.js
-- and `BalanceAnnotation` (AccountSelector.js). The promise of a subscription gives the function that
-- ends it; the node may call back before that, and for as long as the subscription is not ended.
pub mod Laws
use qrucial_dao.Common.{
  ℕ, zero, suc, Bool, true, false, not, ◌&&◌, is_some, Option, none, some, List, [], ◌∷◌,
  if◌then◌else◌,
}
use qrucial_dao.Common.Text.{Text}

-- A run of the effect, with the account that it asks for, or none where there is no account and it
-- asks for nothing: whether its variable `unsub` is a function yet, and whether that function was
-- called.
pub record Run : Type 0 where
  pub address : Option Text
  pub has_unsub : Bool
  pub is_ended : Bool

-- The runs with the latest first, and what is shown.
pub record State (A : Type 0) : Type 0 where
  pub runs : List Run
  pub details : Option A

abbrev pub initial : {A : Type 0} → State A
initial = record { runs = []; details = none }

-- `return () => unsub && unsub()`.
unfoldable pub clean_up : Run → Run
clean_up r = if r.has_unsub then record r { is_ended = true } else r

abbrev pub clean_up_last : List Run → List Run
clean_up_last [] = []
clean_up_last (r ∷ runs) = clean_up r ∷ runs

abbrev pub update_at : ℕ → (Run → Run) → List Run → List Run
update_at i f [] = []
update_at zero f (r ∷ runs) = f r ∷ runs
update_at (suc i) f (r ∷ runs) = r ∷ update_at i f runs

-- A new account, or none: the run before is cleaned up, and a new one begins.
unfoldable pub on_account : {A : Type 0} → Option Text → State A → State A
on_account a s = record s {
  runs = record { address = a; has_unsub = false; is_ended = false } ∷ clean_up_last s.runs;
}

-- `unsub = await ...`.
unfoldable pub on_unsub : {A : Type 0} → ℕ → State A → State A
on_unsub i s = record s { runs = update_at i (λ r. record r { has_unsub = true }) s.runs }

-- A run whose subscription there is and is not ended.
abbrev pub is_open : Run → Bool
is_open r = is_some r.address && not r.is_ended

abbrev pub is_live : ℕ → List Run → Bool
is_live i [] = false
is_live zero (r ∷ runs) = is_open r
is_live (suc i) (r ∷ runs) = is_live i runs

-- A call back to a run, with the entry or none.
unfoldable pub on_result : {A : Type 0} → ℕ → Option A → State A → State A
on_result i result s = if is_live i s.runs then record s { details = result } else s

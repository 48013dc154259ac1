-- ===== src/Pages/Subscription/Laws.antt =====
-- Which runs of the effect can still change the page.
use qrucial_dao.Common.{
  ℕ, zero, suc, ◌≡◌, refl, ◌∙◌, Bool, true, false, not, ◌||◌, is_some, Option, none, some, List, [],
  ◌∷◌, arith, All,
}
use qrucial_dao.Common.Text.{Text}
use qrucial_dao.Pages.Subscription.{
  Run, State, initial, clean_up, clean_up_last, update_at, on_account, on_unsub, is_live, is_open,
  on_result,
}

-- What can happen to the page.
pub data Event (A : Type 0) : Type 0 where
  account : Option Text → Event A
  unsub : ℕ → Event A
  result : ℕ → Option A → Event A

unfoldable pub step : {A : Type 0} → Event A → State A → State A
step (account a) = on_account a
step (unsub i) = on_unsub i
step (result i r) = on_result i r

unfoldable pub steps : {A : Type 0} → List (Event A) → State A → State A
steps [] s = s
steps (e ∷ events) s = steps events (step e s)

-- The promise of the latest run has come, if that asked for an account.
abbrev pub is_settled : List Run → Bool
is_settled [] = true
is_settled (r ∷ runs) = not (is_some r.address) || r.has_unsub

-- Every promise comes before the next change of the account.
pub data Orderly {A : Type 0} : State A → Type 0 where
  opens : Orderly initial
  account_in_turn :
      (a : Option Text) {s : State A}
      → is_settled s.runs ≡ true
      → Orderly s
      → Orderly (on_account a s)
  gets_unsub : (i : ℕ) {s : State A} → Orderly s → Orderly (on_unsub i s)
  gets_result : (i : ℕ) (r : Option A) {s : State A} → Orderly s → Orderly (on_result i r s)

abbrev pub IsEnded : Run → Type 0
IsEnded r = is_open r ≡ false

-- All but the latest are ended.
abbrev pub PastEnded : List Run → Type 0
PastEnded [] = Unit
PastEnded (r ∷ runs) = All IsEnded runs

All-update_at :
    (i : ℕ) (runs : List Run)
    → All IsEnded runs
    → All IsEnded (update_at i (λ r. record r { has_unsub = true }) runs)
All-update_at i [] a = tt
All-update_at zero (r ∷ runs) (e, a) = (e, a)
All-update_at (suc i) (r ∷ runs) (e, a) = (e, All-update_at i runs a)

past-update_at :
    (i : ℕ) (runs : List Run)
    → PastEnded runs
    → PastEnded (update_at i (λ r. record r { has_unsub = true }) runs)
past-update_at i [] a = tt
past-update_at zero (r ∷ runs) a = a
past-update_at (suc i) (r ∷ runs) a = All-update_at i runs a

cleaned :
    (runs : List Run) → is_settled runs ≡ true → PastEnded runs → All IsEnded (clean_up_last runs)
unfolding clean_up
cleaned [] h a = tt
cleaned (r ∷ runs) h a = (ground arith, a)

runs-on_result : {A : Type 0} (i : ℕ) (r : Option A) (s : State A) → (on_result i r s).runs ≡ s.runs
unfolding on_result
runs-on_result i r s = ground arith

Orderly-PastEnded : {A : Type 0} {s : State A} → Orderly s → PastEnded s.runs
unfolding on_account on_unsub
Orderly-PastEnded opens = tt
Orderly-PastEnded (account_in_turn a {s} h o) = cleaned s.runs h (Orderly-PastEnded o)
Orderly-PastEnded (gets_unsub i {s} o) = past-update_at i s.runs (Orderly-PastEnded o)
Orderly-PastEnded (gets_result i r {s} o) = rw (runs-on_result i r s) (Orderly-PastEnded o)

dead : (i : ℕ) (runs : List Run) → All IsEnded runs → is_live i runs ≡ false
dead i [] a = refl
dead zero (r ∷ runs) (e, a) = e
dead (suc i) (r ∷ runs) (e, a) = dead i runs a

past_dead : (i : ℕ) (runs : List Run) → PastEnded runs → is_live (suc i) runs ≡ false
past_dead i [] a = refl
past_dead i (r ∷ runs) a = dead i runs a

-- Where every promise of a subscription comes before the account changes again, no run of the
-- effect but the latest can change what the page shows.
pub is_live-Orderly :
    {A : Type 0} {s : State A} (i : ℕ) → Orderly s → is_live (suc i) s.runs ≡ false
is_live-Orderly {s} i o = past_dead i s.runs (Orderly-PastEnded o)

-- A run of an account that is not ended.
pub data Left (a : Text) : List Run → Type 0 where
  here : (r : Run) (runs : List Run) → r.address ≡ some a → r.is_ended ≡ false → Left a (r ∷ runs)
  there : (r : Run) (runs : List Run) → Left a runs → Left a (r ∷ runs)

-- One that is not the latest.
abbrev pub PastLeft : Text → List Run → Type 0
PastLeft a [] = ⊥
PastLeft a (r ∷ runs) = Left a runs

Left-update_at :
    (a : Text) (i : ℕ) (runs : List Run)
    → Left a runs
    → Left a (update_at i (λ r. record r { has_unsub = true }) runs)
Left-update_at a zero _ (here r runs e n) = here (record r { has_unsub = true }) runs e n
Left-update_at a (suc i) _ (here r runs e n) =
    here r (update_at i (λ r. record r { has_unsub = true }) runs) e n
Left-update_at a zero _ (there r runs l) = there (record r { has_unsub = true }) runs l
Left-update_at a (suc i) _ (there r runs l) =
    there r (update_at i (λ r. record r { has_unsub = true }) runs) (Left-update_at a i runs l)

PastLeft-update_at :
    (a : Text) (i : ℕ) (runs : List Run)
    → PastLeft a runs
    → PastLeft a (update_at i (λ r. record r { has_unsub = true }) runs)
PastLeft-update_at a i [] l = l
PastLeft-update_at a zero (r ∷ runs) l = l
PastLeft-update_at a (suc i) (r ∷ runs) l = Left-update_at a i runs l

PastLeft-account :
    {A : Type 0} (a : Text) (b : Option Text) (s : State A)
    → PastLeft a s.runs
    → PastLeft a (on_account b s).runs
unfolding on_account
PastLeft-account a b s l = deeper s.runs l
  where
    deeper : (runs : List Run) → PastLeft a runs → Left a (clean_up_last runs)
    deeper [] l = absurd l
    deeper (r ∷ runs) l = there (clean_up r) runs l

PastLeft-steps :
    {A : Type 0} (a : Text) (events : List (Event A)) (s : State A)
    → PastLeft a s.runs
    → PastLeft a (steps events s).runs
unfolding steps step on_unsub
PastLeft-steps a [] s l = l
PastLeft-steps a (account b ∷ events) s l =
    PastLeft-steps a events (on_account b s) (PastLeft-account a b s l)
PastLeft-steps a (unsub i ∷ events) s l =
    PastLeft-steps a events (on_unsub i s) (PastLeft-update_at a i s.runs l)
PastLeft-steps a (result i r ∷ events) s l =
    PastLeft-steps a events (on_result i r s) (rw (runs-on_result i r s) l)

-- The place of a run, whose account is this one, that can change the page.
abbrev pub address_at : ℕ → List Run → Option Text
address_at i [] = none
address_at zero (r ∷ runs) = r.address
address_at (suc i) (r ∷ runs) = address_at i runs

live_at :
    (a : Text) (runs : List Run)
    → Left a runs
    → (i : ℕ) × (is_live i runs ≡ true) × (address_at i runs ≡ some a)
live_at a _ (here r runs e n) = (0, rw (e, n) refl, e)
live_at a _ (there r runs l) = let (i, live, at) = live_at a runs l in (suc i, live, at)

live_past :
    (a : Text) (runs : List Run)
    → PastLeft a runs
    → (i : ℕ) × (is_live i runs ≡ true) × (address_at i runs ≡ some a)
live_past a [] l = absurd l
live_past a (r ∷ runs) l = let (i, live, at) = live_at a runs l in (suc i, live, at)

details-on_result :
    {A : Type 0} (i : ℕ) (v : Option A) (s : State A)
    → is_live i s.runs ≡ true
    → (on_result i v s).details ≡ v
unfolding on_result
details-on_result i v s h = rw h refl

address-clean_up : (r : Run) → (clean_up r).address ≡ r.address
unfolding clean_up
address-clean_up r = ground arith

pending_stays : (r : Run) → r.has_unsub ≡ false → r.is_ended ≡ false → (clean_up r).is_ended ≡ false
unfolding clean_up
pending_stays r h e = ground arith

-- Where the account changes to another before the promise of its subscription has come, there is
-- after any later events a run that asked for the first account and whose call backs still change
-- what the page shows: nothing ends that subscription.
pub details-late_unsub :
    {A : Type 0} (r : Run) (runs : List Run) (a : Text) (shown : Option A) (b : Text)
    (events : List (Event A))
    → r.address ≡ some a
    → r.has_unsub ≡ false
    → r.is_ended ≡ false
    → let final =
        steps events (on_account (some b) (record { runs = r ∷ runs; details = shown })) in
      (i : ℕ) × (address_at i final.runs ≡ some a)
      × ((v : Option A) → (on_result i v final).details ≡ v)
unfolding on_account
details-late_unsub r runs a shown b events asked pending open_still =
    let final = steps events (on_account (some b) (record { runs = r ∷ runs; details = shown })) in
    let left : Left a (clean_up r ∷ runs) =
      here (clean_up r) runs (address-clean_up r ∙ asked) (pending_stays r pending open_still) in
    let (i, live, at) = live_past a final.runs (
      PastLeft-steps a events (on_account (some b) (record { runs = r ∷ runs; details = shown }))
        left) in
    (i, at, λ v. details-on_result i v final live)

-- ===== src/Node.antt =====
-- The pallets of the chain that the frontend reads and calls (qdao-node/audit-pallet and
-- qdao-node/exo-pallet): what their extrinsics share. An extrinsic that fails leaves the storage as
-- it was, so that a failure has no state.
pub mod Elo
pub mod Auditors
pub mod Reviews
pub mod Council
pub mod Runtime
pub mod Scores
pub mod Drawn
use qrucial_dao.Common.{ℕ, ◌≡◌, refl, Bool, true, false, Option, none, some, if◌then◌else◌}
use qrucial_dao.Common.Text.{Text, text_eq}

-- The origin of a call.
pub data Origin : Type 0 where
  root unsigned : Origin
  signed : Text → Origin

-- The errors of both pallets, of the currency and of the origins.
pub data Error : Type 0 where
  bad_origin insufficient_balance : Error
  already_signed_up unknown_auditor unapproved_auditor reputation_too_low : Error
  unknown_approvee already_auditor already_approved storage_overflow : Error
  unexpected_elo_overflow : Error
  url_too_long review_not_found duplicate_review_found not_enough_reputation : Error
  report_not_found duplicate_report_found too_many_reports cannot_challenge_self : Error
  too_many_challenges challenge_not_found duplicate_challenge_found : Error

pub data Dispatch (A : Type 0) : Type 0 where
  ok : A → Dispatch A
  err : Error → Dispatch A

infixl 5 ◌>>=◌ ◌>>◌
abbrev pub ◌>>=◌ : {A B : Type 0} → Dispatch A → (A → Dispatch B) → Dispatch B
ok a >>= f = f a
err e >>= f = err e

abbrev pub ◌>>◌ : {B : Type 0} → Dispatch (Unit {0}) → Dispatch B → Dispatch B
m >> k = m >>= λ _. k

-- `ensure!`.
abbrev pub ensure : Bool → Error → Dispatch (Unit {0})
ensure true e = ok tt
ensure false e = err e

-- `ok_or`, `map_err`.
abbrev pub ok_or : {A : Type 0} → Option A → Error → Dispatch A
ok_or none e = err e
ok_or (some a) e = ok a

abbrev pub ensure_signed : Origin → Dispatch Text
ensure_signed (signed a) = ok a
ensure_signed _ = err bad_origin

abbrev pub ensure_root : Origin → Dispatch (Unit {0})
ensure_root root = ok tt
ensure_root _ = err bad_origin

-- A storage map by its keys.
abbrev pub Storage : Type 0 → Type 0
Storage V = Text → Option V

abbrev pub insert : {V : Type 0} → Text → V → Storage V → Storage V
insert k v m j = if text_eq k j then some v else m j

abbrev pub remove : {V : Type 0} → Text → Storage V → Storage V
remove k m j = if text_eq k j then none else m j

-- `T::Currency` with its state, which other pallets change too: each of these fails or gives the
-- state after it.
pub record Currency : Type 1 where
  pub Balances : Type 0
  pub reserve : Text → ℕ → Balances → Option Balances
  pub unreserve : Text → ℕ → Balances → Balances
  pub withdraw : Text → ℕ → Balances → Option Balances

-- What holds of the state after a call, which a failure leaves as it was.
abbrev pub Holds : {A : Type 0} → (A → Type 0) → Dispatch A → Type 0
Holds P (ok a) = P a
Holds P (err e) = Unit

pub Holds-bind :
    {A B : Type 0} (P : B → Type 0) (m : Dispatch A) (f : A → Dispatch B)
    → ((a : A) → m ≡ ok a → Holds P (f a))
    → Holds P (m >>= f)
Holds-bind P (ok a) f h = h a refl
Holds-bind P (err e) f h = tt

pub ok_or-eq : {A : Type 0} (o : Option A) (e : Error) (a : A) → ok_or o e ≡ ok a → o ≡ some a
ok_or-eq none e a h = cc
ok_or-eq (some b) e a h = cc

pub ensure-eq : (b : Bool) (e : Error) (u : Unit {0}) → ensure b e ≡ ok u → b ≡ true
ensure-eq true e u h = refl
ensure-eq false e u h = cc

pub ensure_then-eq :
    {A : Type 0} (b : Bool) (e : Error) (x y : A) → (ensure b e >> ok x) ≡ ok y → b ≡ true
ensure_then-eq true e x y h = refl
ensure_then-eq false e x y h = cc

pub ok_or_then-eq :
    {A B : Type 0} (o : Option A) (e : Error) (f : A → B) (y : B)
    → (ok_or o e >>= λ x. ok (f x)) ≡ ok y
    → (x : A) × (o ≡ some x) × (ok (f x) ≡ ok y)
ok_or_then-eq none e f y h = cc
ok_or_then-eq (some x) e f y h = (x, refl, h)

pub ok_injective : {A : Type 0} {x y : A} → ok x ≡ ok y → x ≡ y
ok_injective h = cc

pub err-ne-ok : {A : Type 0} {e : Error} {x : A} → err e ≡ ok x → ⊥
err-ne-ok h = cc

pub bind-ok :
    {A B : Type 0} (m : Dispatch A) (f : A → Dispatch B) (y : B)
    → (m >>= f) ≡ ok y
    → (x : A) × (m ≡ ok x) × (f x ≡ ok y)
bind-ok (ok a) f y h = (a, refl, h)
bind-ok (err e) f y h = absurd (err-ne-ok h)

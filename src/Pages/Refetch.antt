-- ===== src/Pages/Refetch.antt =====
-- When the audits are fetched: the effects on `auditsChange` of Home.js, Requestor.js and
-- AuditRequests.js.
pub mod Laws
use qrucial_dao.Common.{
  ℕ, suc, ◌+◌, ◌≡◌, refl, Bool, true, false, not, Option, none, some, List, [], ◌∷◌, ◌++◌,
  if◌then◌else◌, ◌==◌, keep, arith, Bool-cases, inl, inr,
}
use qrucial_dao.Common.Text.{Text, text_eq}
use qrucial_dao.Http.{Answer, read_json, caught, fetched}

-- A value of `auditsChange`: undefined, a text, or an object by its identity.
pub data Change : Type 0 where
  absent : Change
  text : Text → Change
  object : ℕ → Change

-- `Object.is`, by which an effect is skipped.
unfoldable pub is_same : Change → Change → Bool
is_same absent absent = true
is_same (text s) (text t) = text_eq s t
is_same (object i) (object j) = i == j
is_same _ _ = false

-- At once, or after 1000 ms.
pub data Fetch : Type 0 where
  now later : Fetch

-- An audit of the server, as far as the lists read it.
pub record Audit : Type 0 where
  pub hash : Text
  pub requestor : Text
  pub project_url : Text

pub record State : Type 0 where
  pub audit_data : List Audit
  pub audits_change : Change
  pub initial_render : Bool

abbrev pub initial : State
initial = record { audit_data = []; audits_change = text []; initial_render = true }

-- The effect, which runs after the first render and after a change.
unfoldable pub on_effect : State → State × Fetch
on_effect s = if s.initial_render then (record s { initial_render = false }, now) else (s, later)

-- `setAuditsChange`, `changeList`.
unfoldable pub set_change : Change → State → State × List Fetch
unfolding on_effect
set_change c s =
    if is_same s.audits_change c
    then (s, [])
    else (let (s', f) = on_effect (record s { audits_change = c }) in (s', f ∷ []))

-- `getData` with the answer; an error is logged and changes nothing.
unfoldable pub get_data : Answer (List Audit) → State → State
get_data a s = elim (read_json a) [
  | caught message ↦ s
  | fetched audits ↦ record s { audit_data = audits }
]

-- `myAudits` of the requestor.
unfoldable pub my_audits : Text → State → List Audit
my_audits address s = keep (λ a. text_eq a.requestor address) s.audit_data

-- A page of the requestor or of the auditors: it is rendered, and its second effect sets the
-- address of the account, when there is one.
unfoldable pub mount : Option Text → State × List Fetch
mount address =
    let (s, f) = on_effect initial in
    let (s', fs) = set_change (elim address [ none ↦ absent | some a ↦ text a ]) s in (s', f ∷ fs)

-- The changes that come one after the other.
unfoldable pub set_all : List Change → State → State × List Fetch
set_all [] s = (s, [])
set_all (c ∷ changes) s =
    let (s', fs) = set_change c s in
    let (s'', later_ones) = set_all changes s' in (s'', fs ++ later_ones)

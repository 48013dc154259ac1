-- ===== src/Pages/Auditors.antt =====
-- What the page of the auditors shows (AuditorsPage.js).
use qrucial_dao.Common.{
  ℕ, Bool, true, false, Option, none, some, List, [], ◌∷◌, if◌then◌else◌, length, is_some,
}
use qrucial_dao.Http.{Answer, Fetched, caught, fetched, read_json}
use qrucial_dao.Pages.Refetch.{Fetch, now, later}
use qrucial_dao.Common.Text.{Text, is_empty}

-- What the node tells of the account.
pub record Details : Type 0 where
  pub score : Option ℕ
  pub approved_by : List Text

-- `onChainDetails`: the empty text where the node has none.
unfoldable pub on_details : Option Details → Option Details
on_details none = none
on_details (some d) = some d

-- The page: the sign-up, an auditor that waits, with the approvals that there are (the page shows
-- 3 less these), or one with a score.
pub data View : Type 0 where
  signup : View
  waiting : ℕ → View
  approved : ℕ → View

unfoldable pub view : Option Details → View
view none = signup
view (some d) = elim d.score [ none ↦ waiting (length d.approved_by) | some n ↦ approved n ]

-- `auditorData?.name || accountName`; a name is missing as none.
unfoldable pub welcome_name : Option Text → Option Text → Option Text
welcome_name none account = account
welcome_name (some name) account = if is_empty name then account else some name

-- The four tabs.
pub data Tab : Type 0 where
  audit_requests reports approve_auditor profile : Tab

-- A tab shows its page; the first three show "Waiting to be approved" before there is a score.
-- `details` undefined or a text has a score that is not null.
unfoldable pub shows_page : Option Details → Tab → Bool
shows_page d profile = true
shows_page none _ = true
shows_page (some d) _ = is_some d.score

-- The profile that the server has of the account, undefined as none, and whether the effect on the
-- details of the chain has yet to run.
pub record Data (A : Type 0) : Type 0 where
  pub auditor_data : Option A
  pub initial_render : Bool

-- A new account asks the server at once.
unfoldable pub on_account : {A : Type 0} → Data A → Data A × List Fetch
on_account d = (d, now ∷ [])

-- New details of the chain ask it again after 1000 ms, but those of the first render do not.
unfoldable pub on_chain_details : {A : Type 0} → Data A → Data A × List Fetch
on_chain_details d =
    if d.initial_render then (record d { initial_render = false }, []) else (d, later ∷ [])

-- `setAuditorData(data[0])`; null throws, and what throws changes nothing.
abbrev pub first_of : {A : Type 0} → Fetched (Option (List A)) → Data A → Data A
first_of (caught message) d = d
first_of (fetched none) d = d
first_of (fetched (some [])) d = record d { auditor_data = none }
first_of (fetched (some (a ∷ others))) d = record d { auditor_data = some a }

unfoldable pub get_data : {A : Type 0} → Answer (Option (List A)) → Data A → Data A
get_data a d = first_of (read_json a) d

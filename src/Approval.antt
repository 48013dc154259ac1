-- ===== src/Approval.antt =====
-- The choice of an auditor to approve (frontend/substrate-front-end-template/src/ApproveAuditor.js).
pub mod Laws
pub mod Page
use qrucial_dao.Common.{
  ℕ, Bool, true, false, not, ◌&&◌, Option, none, some, List, [], ◌∷◌, ◌++◌, if◌then◌else◌, leb, ltb,
  any, keep,
}
use qrucial_dao.Common.Text.{Text, text_eq}

-- An item of the menu, whose key and value are the address.
pub record Choice : Type 0 where
  pub key : Text
  pub name : Text

-- What the node tells of an auditor: a score once the sign-up is approved, and who approved it.
pub record Entry : Type 0 where
  pub score : Option ℕ
  pub approved_by : List Text

abbrev pub remove : Text → List Choice → List Choice
remove address = keep (λ c. not (text_eq c.key address))

abbrev pub listed : Text → List Choice → Bool
listed address = any (λ c. text_eq c.key address)

-- `if (!approved && !listed) push else if (approved) filter`.
unfoldable pub update : Text → Bool → Text → List Choice → List Choice
update address approved name choices =
    if not approved && not (listed address choices)
    then choices ++ (record { key = address; name = name } ∷ [])
    else if approved
    then remove address choices
    else choices

-- `!score.eq(null)`, by the documented `eq` of an optional number, which takes null for 0.
abbrev pub is_scored : Option ℕ → Bool
is_scored none = false
is_scored (some score) = ltb 0 score

-- The handler of an answer: `signedUps` after it, and whether the menu is drawn again.
unfoldable pub on_answer : Text → Text → Text → Option Entry → List Choice → List Choice × Bool
on_answer approvee address name none choices = (choices, false)
on_answer approvee address name (some e) choices =
    let approved = any (text_eq approvee) e.approved_by in
    if is_scored e.score
    then (if approved
        then (update address approved name (remove address choices), true)
        else (choices, false))
    else (update address approved name choices, true)

-- In the comparison null and the empty text are 0, and so is the empty array that the least score
-- is before the effect.
abbrev pub as_number : Option ℕ → ℕ
as_number none = 0
as_number (some n) = n

-- `score >= minScore`, with `details && details.score`, which is null or the empty text as none.
unfoldable pub is_allowed : Option ℕ → Option ℕ → Bool
is_allowed score min = leb (as_number min) (as_number score)

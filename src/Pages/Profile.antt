-- ===== src/Pages/Profile.antt =====
-- The profile of an auditor and the sign-up (AuditorProfile.js and Signup.js). Layout and style are
-- left out.
use qrucial_dao.Common.{
  ℕ, Bool, true, false, Option, none, some, List, [], ◌∷◌, if◌then◌else◌, ◌==◌,
}
use qrucial_dao.Common.Text.{Text, codes, is_empty}
use qrucial_dao.Common.Decimal.{decimal}
use qrucial_dao.Forms.{Object}

-- `details && details.score || '-'`: a score of 0 and none are drawn as a dash.
unfoldable pub score_text : Option ℕ → Text
score_text none = codes "-"
score_text (some n) = if n == 0 then codes "-" else decimal n

-- `editing`, which a new account sets to false.
unfoldable pub on_account : Bool → Bool
on_account editing = false

unfoldable pub on_edit : Bool → Bool
on_edit editing = true

-- When the extrinsic of the form is in a block.
unfoldable pub on_finish : Bool → Bool
on_finish editing = false

-- `value || '-'`.
abbrev pub or_dash : Text → Text
or_dash v = if is_empty v then codes "-" else v

-- The rows of `AuditorTable`; without the data of the auditor it asks to update the profile, as
-- none.
abbrev pub table_rows : Object Text → List (Text × Text)
table_rows [] = []
table_rows ((key, value) ∷ later) = (key, or_dash value) ∷ table_rows later

unfoldable pub auditor_table : Option (Object Text) → Option (List (Text × Text))
auditor_table none = none
auditor_table (some values) = some (table_rows values)

-- The page: for auditors only, the table with its button, or the form whose extrinsic is
-- `updateProfile`.
pub data View : Type 0 where
  for_auditors_only : View
  table : Text → Option (List (Text × Text)) → View
  form : Text → View

-- `details` is none where the node has no entry of the account, and else its score.
unfoldable pub view : Option (Option ℕ) → Option (Object Text) → Bool → View
view none auditor editing = for_auditors_only
view (some score) auditor editing =
    if editing then form (score_text score) else table (score_text score) (auditor_table auditor)

-- The fields of the form of the sign-up.
unfoldable pub signup_fields : Text → Object Text
signup_fields address =
    (codes "name", [])
    ∷ (codes "picUrl", [])
    ∷ (codes "webUrl", [])
    ∷ (codes "bio", [])
    ∷ (codes "address", address)
    ∷ []

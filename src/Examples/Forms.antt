-- ===== src/Examples/Forms.antt =====
-- The form hook (useFormValidation.js) at concrete inputs.
use qrucial_dao.Common.{◌≡◌, ◌↔◌, refl, Bool, true, false, some, [], ◌∷◌, All}
use qrucial_dao.Common.Text.{Text, codes, is_space}
use qrucial_dao.Common.Regex.{test}
use qrucial_dao.Common.Decimal.{decimal}
use qrucial_dao.Forms.{FormValue, text, number, Object, get, put, delete}
use qrucial_dao.Forms.Validation.{
  Hook, validate, check, rule, is_valid_url, allowed_chars, is_allowed, initial_hook, revalidate,
  show_error, flatten,
}
use qrucial_dao.Forms.Validation.Url.{url_regex}
use qrucial_dao.Forms.Validation.Url.Laws.{url_regex-IsUrlChar, IsUrlChar}
use qrucial_dao.Forms.Validation.Laws.{revalidate-disabled_iff, AllAccepted}
use qrucial_dao.Forms.Validation.Errors.{show_error-untouched}

validation : Unit {0}
unfolding validate check rule is_valid_url allowed_chars is_allowed is_space test url_regex decimal
validation = tt

abbrev request : Text → Object FormValue
request url = (codes "url", text url) ∷ (codes "bounty", number 500) ∷ []

abbrev accepted : Object Bool
accepted = (codes "url", false) ∷ (codes "bounty", false) ∷ []

valid_urls :
    (test url_regex (codes "a.io/x") ≡ true)
    × (test url_regex (codes "A.IO") ≡ true)
    × (test url_regex (codes "a.b") ≡ false)
    × (test url_regex (codes "a b.io") ≡ false)
unfolding validation
valid_urls = (refl, refl, refl, refl)

request_validated : validate (request (codes "a.io")) ≡ some accepted
unfolding validation
request_validated = refl

rows_flattened :
    flatten (((codes "id", text []) ∷ []) ∷ ((codes "id", number 3) ∷ []) ∷ [])
    ≡ (codes "id0", text []) ∷ (codes "id1", number 3) ∷ []
unfolding flatten decimal get put delete
rows_flattened = refl

abbrev opened : Hook
opened = initial_hook (request [])

revalidate-disabled_iff_example : (false ≡ false) ↔ AllAccepted (request (codes "a.io"))
unfolding revalidate validation
revalidate-disabled_iff_example =
    revalidate-disabled_iff (request (codes "a.io")) opened
      {h' = record opened { errors = accepted; disabled = false }} refl

url_regex-IsUrlChar_example : All IsUrlChar (codes "a.io/x")
url_regex-IsUrlChar_example = url_regex-IsUrlChar (codes "a.io/x") valid_urls.0

abbrev bad_url : Hook
bad_url = record {
  errors = (codes "url", true) ∷ (codes "bounty", false) ∷ [];
  touched = (codes "url", false) ∷ (codes "bounty", false) ∷ [];
  disabled = true;
}

bad_url_validated : validate (request (codes "nope")) ≡ some bad_url.errors
unfolding validation
bad_url_validated = refl

show_error-untouched_example : show_error (request (codes "nope")) bad_url (codes "url") ≡ false
unfolding get
show_error-untouched_example =
    show_error-untouched (request (codes "nope")) bad_url (codes "url") refl

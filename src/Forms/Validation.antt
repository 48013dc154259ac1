-- ===== src/Forms/Validation.antt =====
-- `useFormValidation` (frontend/substrate-front-end-template/src/hooks/useFormValidation.js).
pub mod Url
pub mod Laws
pub mod Errors
use qrucial_dao.Common.{
  ℕ, zero, suc, ◌+◌, Bool, true, false, not, ◌&&◌, ◌||◌, Option, none, some, List, [], ◌∷◌, ◌++◌,
  map, if◌then◌else◌, ltb, leb, ◌==◌, any, length,
}
use qrucial_dao.Common.Text.{Text, codes, is_space, is_empty, text_eq}
use qrucial_dao.Common.Regex.{Regex, one, star, test}
use qrucial_dao.Common.Decimal.{decimal}
use qrucial_dao.Forms.{
  FormValue, undefined, null, text, number, to_text, truthy, Object, get, put, delete,
}
use Url.{url_regex}

abbrev pub is_letter : ℕ → Bool
is_letter c = (leb b'A' c && leb c b'Z') || (leb b'a' c && leb c b'z')

abbrev pub is_digit : ℕ → Bool
is_digit c = leb b'0' c && leb c b'9'

-- `[A-Za-z0-9\s-:.,/?_&#=]`: next to `\s` the dash stands for itself.
unfoldable pub is_allowed : ℕ → Bool
is_allowed c =
    is_letter c
    || is_digit c
    || is_space c
    || c == b'-'
    || c == b':'
    || c == b'.'
    || c == b','
    || c == b'/'
    || c == b'?'
    || c == b'_'
    || c == b'&'
    || c == b'#'
    || c == b'='

unfoldable pub allowed_chars : FormValue → Bool
allowed_chars (text []) = true
allowed_chars v = truthy v && test (star (one is_allowed)) (to_text v)

unfoldable pub is_valid_url : FormValue → Bool
is_valid_url v = test url_regex (to_text v)

-- The cases of the `switch`.
pub data Rule : Type 0 where
  required_url optional_url hash_length plain : Rule

unfoldable pub rule : Text → Rule
rule key =
    if text_eq key (codes "url") || text_eq key (codes "reportUrl")
    then required_url
    else if text_eq key (codes "webUrl") || text_eq key (codes "picUrl")
    then optional_url
    else if text_eq key (codes "hash")
    then hash_length
    else plain

-- Whether the value is an error; none where reading its length throws.
unfoldable pub check : Rule → FormValue → Option Bool
check required_url v = some (not (is_valid_url v))
check optional_url v = some (not (if truthy v then is_valid_url v else true))
check hash_length (text s) = some (not (ltb 63 (length s)))
check hash_length (number n) = some true
check hash_length v = none
check plain v = some (not (allowed_chars v))

unfoldable pub validate : Object FormValue → Option (Object Bool)
validate [] = some []
validate ((key, v) ∷ o) = elim (check (rule key) v) [
  | none ↦ none
  | some bad ↦ elim (validate o) [ none ↦ none | some errors ↦ some ((key, bad) ∷ errors) ]
]

-- The state of the hook.
pub record Hook : Type 0 where
  pub errors : Object Bool
  pub touched : Object Bool
  pub disabled : Bool

abbrev pub all_false : Object FormValue → Object Bool
all_false [] = []
all_false ((key, v) ∷ o) = (key, false) ∷ all_false o

unfoldable pub initial_hook : Object FormValue → Hook
initial_hook o = record { errors = all_false o; touched = all_false o; disabled = true }

abbrev pub is_disabled : Object Bool → Bool
is_disabled errors = any (λ e. e.1) errors

-- The effect that runs when the form changes.
unfoldable pub revalidate : Object FormValue → Hook → Option Hook
revalidate o h = elim (validate o) [
  | none ↦ none
  | some errors ↦ some (record h { errors = errors; disabled = is_disabled errors })
]

unfoldable pub handle_blur : Text → Hook → Hook
handle_blur field h = record h { touched = put field true h.touched }

abbrev pub is_true : Option Bool → Bool
is_true (some true) = true
is_true _ = false

unfoldable pub show_error : Object FormValue → Hook → Text → Bool
show_error o h field =
    if is_true (get field h.errors)
    then is_true (get field h.touched) && (elim (get field o) [ none ↦ false | some v ↦ truthy v ])
    else false

-- A form that is a list of rows becomes one object; the keys take the row's number.
abbrev pub rename : ℕ → Text → Object FormValue → Object FormValue
rename i key row = elim (get key row) [
  | none ↦ delete key (put (key ++ decimal i) undefined row)
  | some v ↦ delete key (put (key ++ decimal i) v row)
]

unfoldable pub rename_all : ℕ → Object FormValue → Object FormValue → Object FormValue
rename_all i [] row = row
rename_all i ((key, v) ∷ keys) row = rename_all i keys (rename i key row)

unfoldable pub assign : Object FormValue → Object FormValue → Object FormValue
assign target [] = target
assign target ((key, v) ∷ o) = assign (put key v target) o

unfoldable pub flatten_from : ℕ → Object FormValue → List (Object FormValue) → Object FormValue
unfolding rename_all assign
flatten_from i form [] = form
flatten_from i form (row ∷ rows) = flatten_from (i + 1) (assign form (rename_all i row row)) rows

unfoldable pub flatten : List (Object FormValue) → Object FormValue
unfolding flatten_from
flatten rows = flatten_from 0 [] rows

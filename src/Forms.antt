-- ===== src/Forms.antt =====
-- The forms (frontend/substrate-front-end-template/src): objects of named values.
pub mod Validation
pub mod Laws
use qrucial_dao.Common.{
  ℕ, Bool, true, false, not, Option, none, some, List, [], ◌∷◌, ◌==◌, if◌then◌else◌,
}
use qrucial_dao.Common.Text.{Text, codes, text_eq, is_empty}
use qrucial_dao.Common.Decimal.{decimal}

-- The value of a field.
pub data FormValue : Type 0 where
  undefined null : FormValue
  text : Text → FormValue
  number : ℕ → FormValue

-- `String(v)`.
abbrev pub to_text : FormValue → Text
to_text undefined = codes "undefined"
to_text null = codes "null"
to_text (text s) = s
to_text (number n) = decimal n

abbrev pub truthy : FormValue → Bool
truthy undefined = false
truthy null = false
truthy (text s) = not (is_empty s)
truthy (number n) = not (n == 0)

-- An object by its entries, in the order of `Object.entries`; a key stands once.
abbrev pub Object : Type 0 → Type 0
Object V = List (Text × V)

module _ {V : Type 0} where
  -- `o[key]`.
  unfoldable pub get : Text → Object V → Option V
  get key [] = none
  get key ((k, v) ∷ o) = if text_eq k key then some v else get key o

  -- `{ ...o, [key]: v }`.
  unfoldable pub put : Text → V → Object V → Object V
  put key v [] = (key, v) ∷ []
  put key v ((k, w) ∷ o) = if text_eq k key then (k, v) ∷ o else (k, w) ∷ put key v o

  -- `delete o[key]`.
  unfoldable pub delete : Text → Object V → Object V
  delete key [] = []
  delete key ((k, w) ∷ o) = let rest = delete key o in if text_eq k key then o else (k, w) ∷ rest

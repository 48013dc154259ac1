-- ===== src/Profile/Json.antt =====
-- `JSON.stringify` of an object of form values.
use Prim.Native.Nat.{◌/◌, ◌%◌}
use qrucial_dao.Common.{
  ℕ, ◌+◌, ◌-◌, Bool, true, false, ◌&&◌, ◌||◌, Option, none, some, [], ◌∷◌, ◌++◌, if◌then◌else◌, ltb,
  leb, ◌==◌,
}
use qrucial_dao.Common.Text.{Text, codes}
use qrucial_dao.Common.Decimal.{decimal}
use qrucial_dao.Forms.{FormValue, Object, undefined, null, text, number}

abbrev pub hex_digit : ℕ → ℕ
hex_digit d = if ltb d 10 then b'0' + d else b'a' + (d - 10)

-- `\uXXXX` of a code unit.
unfoldable pub unicode_escape : ℕ → Text
unicode_escape c =
    codes "\\u"
    ++ (hex_digit (c / 4096 % 16)
        ∷ hex_digit (c / 256 % 16)
        ∷ hex_digit (c / 16 % 16)
        ∷ hex_digit (c % 16)
        ∷ [])

abbrev pub is_lead : ℕ → Bool
is_lead c = leb 0xd800 c && leb c 0xdbff

abbrev pub is_trail : ℕ → Bool
is_trail c = leb 0xdc00 c && leb c 0xdfff

-- One code unit outside of a pair.
unfoldable pub quote_unit : ℕ → Text
quote_unit c =
    if c == 8
    then codes "\\b"
    else if c == 9
    then codes "\\t"
    else if c == 10
    then codes "\\n"
    else if c == 12
    then codes "\\f"
    else if c == 13
    then codes "\\r"
    else if c == 34
    then codes "\\\""
    else if c == 92
    then codes "\\\\"
    else if ltb c 32 || is_lead c || is_trail c
    then unicode_escape c
    else c ∷ []

-- A pair of a lead and a trail stands as it is, and one alone is escaped.
unfoldable pub quote_units : Text → Text
quote_units [] = []
quote_units (c ∷ []) = quote_unit c
quote_units (c ∷ d ∷ s) =
    let after_pair = quote_units s in
    let rest = quote_units (d ∷ s) in
    if is_lead c && is_trail d then c ∷ d ∷ after_pair else quote_unit c ++ rest

abbrev pub quote : Text → Text
quote s = b'"' ∷ (quote_units s ++ (b'"' ∷ []))

-- The text of a value; undefined has none.
unfoldable pub value_json : FormValue → Option Text
value_json undefined = none
value_json null = some (codes "null")
value_json (text s) = some (quote s)
value_json (number n) = some (decimal n)

-- The members, each after a comma but the first; a member without a text is left out.
unfoldable pub members : Bool → Object FormValue → Text
members first [] = []
members first ((key, v) ∷ o) =
    let others = members false o in
    let same = members first o in
    elim (value_json v) [
      | none ↦ same
      | some t ↦ (if first then [] else b',' ∷ []) ++ (quote key ++ (b':' ∷ (t ++ others)))
    ]

unfoldable pub stringify : Object FormValue → Text
stringify o = b'{' ∷ (members true o ++ (b'}' ∷ []))

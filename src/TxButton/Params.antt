-- ===== src/TxButton/Params.antt =====
-- `transformParams`, `isNumType` and `utils.paramConversion` (substrate-lib/utils.js).
pub mod Laws
pub mod Clean
pub mod Collect
use qrucial_dao.Common.{
  Bool, true, false, Option, none, some, List, [], ◌∷◌, ◌++◌, map, if◌then◌else◌, any, ◌||◌, not,
}
use qrucial_dao.Common.Text.{Text, codes, trim, is_empty, includes, split_on}
use qrucial_dao.TxButton.{
  Numbers, Scalar, Input, plain, obj, ParamField, Arg, Result, ok, throws, ◌>>=◌,
}

-- The type names that are read as numbers.
unfoldable pub num_types : List Text
num_types =
    codes "Compact<Balance>"
    ∷ codes "BalanceOf"
    ∷ codes "u8"
    ∷ codes "u16"
    ∷ codes "u32"
    ∷ codes "u64"
    ∷ codes "u128"
    ∷ codes "i8"
    ∷ codes "i16"
    ∷ codes "i32"
    ∷ codes "i64"
    ∷ codes "i128"
    ∷ []

unfoldable pub is_num_type : Text → Bool
unfolding num_types
is_num_type type = any (includes type) num_types

-- The default of a destructured property.
abbrev pub type_of : ParamField → Text
type_of f = elim f.type [ none ↦ codes "string" | some t ↦ t ]

abbrev pub is_vec : Text → Bool
is_vec type = includes type (codes "Vec<")

-- `s.split(',')`.
abbrev pub pieces : Text → List Text
pieces s = let (first, rest) = split_on b',' s in first ∷ rest

module _ (J : Numbers) where
  open J use {Num, parse_int, parse_float, truthy}

  -- `paramVal`: texts are trimmed, and taken out of the objects that hold them.
  unfoldable pub param_val : Input Num → Input Num
  param_val (obj (Scalar.str s)) = plain (Scalar.str (trim s))
  param_val (plain (Scalar.str s)) = plain (Scalar.str (trim s))
  param_val i = i

  -- `v || null`, as what the reduction then sees: none for null.
  abbrev pub or_null : Input Num → Option (Arg Num)
  or_null (plain Scalar.undefined) = none
  or_null (plain Scalar.null) = none
  or_null (plain (Scalar.str [])) = none
  or_null (plain (Scalar.str (c ∷ s))) = some (Arg.str (c ∷ s))
  or_null (plain (Scalar.num n)) = if truthy n then some (Arg.num n) else none
  or_null (obj v) = some (Arg.obj v)

  -- Each field with `paramVal[ind] || null`.
  unfoldable pub with_values :
      List ParamField → List (Input Num) → List (ParamField × Option (Arg Num))
  with_values [] vs = []
  with_values (f ∷ fs) [] = (f, none) ∷ with_values fs []
  with_values (f ∷ fs) (v ∷ vs) = (f, or_null v) ∷ with_values fs vs

  abbrev pub parse_num : Text → Num
  parse_num s = if includes s (codes ".") then parse_float s else parse_int s

  abbrev pub parse_item : Bool → Text → Scalar Num
  parse_item numeric s = if numeric then Scalar.num (parse_num s) else Scalar.str s

  -- The vector and the single value; `split` and `indexOf` are methods of texts alone.
  unfoldable pub convert_text : Text → Text → Arg Num
  convert_text type s =
      if is_vec type
      then Arg.vec (map (λ e. parse_item (is_num_type type) (trim e)) (pieces s))
      else if is_num_type type
      then Arg.num (parse_num s)
      else Arg.str s

  unfoldable pub convert : Text → Arg Num → Result (Arg Num)
  convert type (Arg.str s) = ok (convert_text type s)
  convert type v = if is_vec type || is_num_type type then throws else ok v

  -- One round of `params.reduce`.
  unfoldable pub reduce_step :
      Bool → List (Arg Num) → ParamField × Option (Arg Num) → Result (List (Arg Num))
  reduce_step empty_as_null memo (f, none) =
      ok (if empty_as_null then memo ++ Arg.null ∷ [] else memo)
  reduce_step empty_as_null memo (f, some v) = do
    converted ← convert (type_of f) v
    ok (memo ++ converted ∷ [])

  unfoldable pub reduce_params :
      Bool → List (Arg Num) → List (ParamField × Option (Arg Num)) → Result (List (Arg Num))
  reduce_params empty_as_null memo [] = ok memo
  reduce_params empty_as_null memo (p ∷ ps) = do
    memo' ← reduce_step empty_as_null memo p
    reduce_params empty_as_null memo' ps

  unfoldable pub transform_params :
      Bool → List ParamField → List (Input Num) → Result (List (Arg Num))
  transform_params empty_as_null fields inputs =
      reduce_params empty_as_null [] (with_values fields (map param_val inputs))

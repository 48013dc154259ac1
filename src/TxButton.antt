-- ===== src/TxButton.antt =====
-- TxButton (frontend/substrate-front-end-template/src/substrate-lib/components/TxButton.js):
-- the JavaScript values that its parameters range over, and the kinds of request.
pub mod Params
pub mod Guard
pub mod Send
use qrucial_dao.Common.{Bool, true, false, Option, List}
use qrucial_dao.Common.Text.{Text}

-- What the page uses of the language's floating-point numbers.
pub record Numbers : Type 1 where
  pub Num : Type 0
  pub parse_int : Text → Num
  pub parse_float : Text → Num
  -- Neither zero nor NaN.
  pub truthy : Num → Bool

-- A value that is no object.
pub data Scalar (N : Type 0) : Type 0 where
  undefined null : Scalar N
  str : Text → Scalar N
  num : N → Scalar N

-- An item of `inputParams`: a scalar, or an object with this `value` property.
pub data Input (N : Type 0) : Type 0 where
  plain : Scalar N → Input N
  obj : Scalar N → Input N

-- An item of `paramFields`; a property that is missing is none, or false.
pub record ParamField : Type 0 where
  pub name : Option Text
  pub type : Option Text
  pub optional : Bool

-- An argument of the call that is made.
pub data Arg (N : Type 0) : Type 0 where
  null : Arg N
  str : Text → Arg N
  num : N → Arg N
  vec : List (Scalar N) → Arg N
  obj : Scalar N → Arg N

-- The property `type` of the button.
pub data TxType : Type 0 where
  query rpc signed_tx unsigned_tx sudo_tx unchecked_sudo_tx constant : TxType

-- A value, or a TypeError.
pub data Result (A : Type 0) : Type 0 where
  throws : Result A
  ok : A → Result A

infixl 5 ◌>>=◌
abbrev pub ◌>>=◌ : {A B : Type 0} → Result A → (A → Result B) → Result B
throws >>= k = throws
ok x >>= k = k x

abbrev pub map_result : {A B : Type 0} → (A → B) → Result A → Result B
map_result f throws = throws
map_result f (ok x) = ok (f x)

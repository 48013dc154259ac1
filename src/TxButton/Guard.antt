-- ===== src/TxButton/Guard.antt =====
-- When the button can be pressed: `allParamsFilled`, `isSudoer`, `loadSudoKey` and the property
-- `disabled`.
pub mod Laws
pub mod Blank
use qrucial_dao.Common.{
  Bool, true, false, not, ◌&&◌, ◌||◌, Option, none, some, List, [], ◌∷◌, if◌then◌else◌, is_some,
}
use qrucial_dao.Common.Text.{Text, text_eq, is_empty}
use qrucial_dao.Chain.{Account}
use qrucial_dao.TxButton.{
  Scalar, Input, plain, obj, ParamField, TxType, query, rpc, signed_tx, unsigned_tx, sudo_tx,
  unchecked_sudo_tx, constant,
}

-- A text that is there and not empty.
abbrev pub truthy_text : Option Text → Bool
truthy_text none = false
truthy_text (some s) = not (is_empty s)

module _ {N : Type 0} where
  -- `v !== null && v !== ''`.
  abbrev pub has_value : Scalar N → Bool
  has_value Scalar.null = false
  has_value (Scalar.str []) = false
  has_value _ = true

  -- `typeof param === 'object' ? param.value : param`, for a parameter that is not null.
  abbrev pub value_of : Input N → Scalar N
  value_of (obj v) = v
  value_of (plain v) = v

  -- `param == null`.
  abbrev pub is_nullish : Input N → Bool
  is_nullish (plain Scalar.undefined) = true
  is_nullish (plain Scalar.null) = true
  is_nullish _ = false

  unfoldable pub param_filled : ParamField → Input N → Bool
  param_filled f i = f.optional || (not (is_nullish i) && has_value (value_of i))

  unfoldable pub all_params_filled : List ParamField → List (Input N) → Bool
  all_params_filled [] is = true
  all_params_filled (f ∷ fs) [] = param_filled f (plain Scalar.undefined) && all_params_filled fs []
  all_params_filled (f ∷ fs) (i ∷ is) = param_filled f i && all_params_filled fs is

-- What the node answers to `api.query.sudo.key()`.
pub data SudoQuery : Type 0 where
  no_api no_sudo : SudoQuery
  key : Option Text → SudoQuery

-- The state `sudoKey` after the effect; an empty key is null.
unfoldable pub load_sudo_key : SudoQuery → Option Text → Option Text
load_sudo_key no_api old = old
load_sudo_key no_sudo old = old
load_sudo_key (key k) old = k

unfoldable pub is_sudoer : Option Text → Option Account → Bool
is_sudoer none acct = false
is_sudoer (some k) none = false
is_sudoer (some k) (some a) = not (is_empty k) && text_eq a.address k

abbrev pub is_sudo : TxType → Bool
is_sudo sudo_tx = true
is_sudo unchecked_sudo_tx = true
is_sudo _ = false

abbrev pub is_signed : TxType → Bool
is_signed signed_tx = true
is_signed _ = false

-- The properties of the button that decide.
pub record Button (N : Type 0) : Type 0 where
  pub type : TxType
  pub disabled : Bool
  pub pallet_rpc : Option Text
  pub callable : Option Text
  pub input_params : List (Input N)
  pub param_fields : List ParamField

unfoldable pub is_disabled : {N : Type 0} → Option Text → Option Account → Button N → Bool
is_disabled sudo_key acct b =
    b.disabled
    || not (truthy_text b.pallet_rpc)
    || not (truthy_text b.callable)
    || not (all_params_filled b.param_fields b.input_params)
    || ((is_sudo b.type || is_signed b.type) && not (is_some acct))
    || (is_sudo b.type && not (is_sudoer sudo_key acct))

-- ===== src/Interactor/Menus.antt =====
-- The menus of the interactor, the effects that fill them, and what is drawn
-- (frontend/substrate-front-end-template/src/template-comps/Interactor.js). Layout and style are
-- left out.
pub mod Laws
use qrucial_dao.Common.{
  ℕ, zero, suc, Bool, true, false, not, ◌&&◌, ◌||◌, Option, none, some, List, [], ◌∷◌,
  if◌then◌else◌, keep,
}
use qrucial_dao.Common.Text.{Text, codes, is_empty, text_eq}
use qrucial_dao.Common.Text.Order.{sort}
use qrucial_dao.TxButton.{ParamField, TxType}
use qrucial_dao.Interactor.{
  InterxType, query, extrinsic, rpc, constant, Metadata, param_fields, InputParam, FormState,
  init_form_state, Change, on_change, on_interx_type_change, submit_buttons,
}

-- `Object.keys` of `api.query`, `api.tx`, `api.rpc` and `api.consts`, and of a pallet of these.
pub record Keys : Type 0 where
  pub pallets : InterxType → List Text
  pub callables : InterxType → Text → List Text

abbrev pub has_some : List Text → Bool
has_some [] = false
has_some (x ∷ xs) = true

-- What `updatePalletRPCs` and `updateCallables` set; the key, the value and the text of an option
-- are the same.
unfoldable pub pallet_options : Keys → InterxType → List Text
pallet_options api t = keep (λ p. has_some (api.callables t p)) (sort (api.pallets t))

unfoldable pub callable_options : Keys → InterxType → Text → List Text
callable_options api t pallet = sort (api.callables t pallet)

pub record State : Type 0 where
  pub interx_type : InterxType
  pub form : FormState
  pub pallet_rpcs : List Text
  pub callables : List Text
  pub param_fields : List ParamField

unfoldable pub update_pallet_rpcs : Keys → State → State
update_pallet_rpcs api s = record s { pallet_rpcs = pallet_options api s.interx_type }

-- Without a pallet the menu stays as it was.
unfoldable pub update_callables : Keys → State → State
update_callables api s =
    if is_empty s.form.pallet_rpc
    then s
    else record s { callables = callable_options api s.interx_type s.form.pallet_rpc }

unfoldable pub update_param_fields : Metadata → State → State
update_param_fields m s = record s {
  param_fields = param_fields m s.interx_type s.form.pallet_rpc s.form.callable;
}

abbrev pub is_type : InterxType → InterxType → Bool
is_type query query = true
is_type extrinsic extrinsic = true
is_type rpc rpc = true
is_type constant constant = true
is_type _ _ = false

-- Whether the dependencies of each effect are those of the render before; the api and `jsonrpc` stay
-- as they are.
abbrev pub same_type : State → State → Bool
same_type before s = is_type before.interx_type s.interx_type

abbrev pub same_pallet : State → State → Bool
same_pallet before s = same_type before s && text_eq before.form.pallet_rpc s.form.pallet_rpc

abbrev pub same_callable : State → State → Bool
same_callable before s = same_pallet before s && text_eq before.form.callable s.form.callable

-- The three effects, in turn, after the first render.
unfoldable pub first_effects : Keys → Metadata → State → State
unfolding update_pallet_rpcs update_callables update_param_fields
first_effects api m s = update_param_fields m (update_callables api (update_pallet_rpcs api s))

-- The effects after a later render, each where one of its dependencies has changed.
unfoldable pub pallets_effect : Keys → State → State → State
pallets_effect api before s = if same_type before s then s else update_pallet_rpcs api s

unfoldable pub callables_effect : Keys → State → State → State
callables_effect api before s = if same_pallet before s then s else update_callables api s

unfoldable pub fields_effect : Metadata → State → State → State
fields_effect m before s = if same_callable before s then s else update_param_fields m s

unfoldable pub effects : Keys → Metadata → State → State → State
unfolding pallets_effect callables_effect fields_effect
effects api m before s =
    fields_effect m before (callables_effect api before (pallets_effect api before s))

abbrev pub first : State
first = record {
  interx_type = extrinsic;
  form = init_form_state;
  pallet_rpcs = [];
  callables = [];
  param_fields = [];
}

-- The page as it opens with an api.
unfoldable pub opening : Keys → Metadata → State
unfolding first_effects
opening api m = first_effects api m first

-- A change of the form or of the type of the interaction, and the effects after it.
unfoldable pub change : Keys → Metadata → Change → State → State
unfolding effects
change api m c s = effects api m s (record s { form = on_change c s.form })

unfoldable pub change_type : Keys → Metadata → InterxType → State → State
unfolding effects
change_type api m t s =
    effects api m s
      (record s { interx_type = (on_interx_type_change t).0; form = (on_interx_type_change t).1 })

-- The input of a field, with a note below it where the parameter is optional.
pub record FieldView : Type 0 where
  pub placeholder : Option Text
  pub label : Option Text
  pub value : Text
  pub note : Option Text

unfoldable pub get_optional_msg : InterxType → Text
get_optional_msg rpc = codes "Optional Parameter"
get_optional_msg _ = codes "Leaving this field as blank will submit a NONE value"

-- `inputParams[ind] ? inputParams[ind].value : ''`.
abbrev pub value_at : ℕ → List (Option InputParam) → Text
value_at i [] = []
value_at zero (none ∷ inputs) = []
value_at zero (some x ∷ inputs) = x.value
value_at (suc i) (x ∷ inputs) = value_at i inputs

abbrev pub fields_from :
    InterxType → List (Option InputParam) → ℕ → List ParamField → List FieldView
fields_from t inputs i [] = []
fields_from t inputs i (f ∷ fields) =
    record {
      placeholder = f.type;
      label = f.name;
      value = value_at i inputs;
      note = if f.optional then some (get_optional_msg t) else none;
    }
    ∷ fields_from t inputs (suc i) fields

-- What is drawn: the labels of the types with whether each is checked, both menus with their values
-- and options, the fields, and the buttons.
pub record View : Type 0 where
  pub radios : List (Text × Bool)
  pub pallet_menu : Text × List Text
  pub callable_menu : Text × List Text
  pub fields : List FieldView
  pub buttons : List TxType

unfoldable pub view : State → View
view s = record {
  radios =
      (codes "Extrinsic", is_type s.interx_type extrinsic)
      ∷ (codes "Query", is_type s.interx_type query)
      ∷ (codes "RPC", is_type s.interx_type rpc)
      ∷ (codes "Constant", is_type s.interx_type constant)
      ∷ [];
  pallet_menu = (s.form.pallet_rpc, s.pallet_rpcs);
  callable_menu = (s.form.callable, s.callables);
  fields = fields_from s.interx_type s.form.input_params 0 s.param_fields;
  buttons = submit_buttons s.interx_type;
}

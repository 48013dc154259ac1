-- ===== src/Interactor.antt =====
-- The pallet interactor
-- (frontend/substrate-front-end-template/src/template-comps/Interactor.js): its form, the
-- parameters that the metadata ask for, and the buttons.
pub mod Laws
pub mod Menus
use qrucial_dao.Common.{
  ℕ, Bool, true, false, ◌||◌, Option, none, some, List, [], ◌∷◌, map, if◌then◌else◌, assign,
}
use qrucial_dao.Common.Text.{Text, codes, is_empty, starts_with}
use qrucial_dao.TxButton.{ParamField, TxType}

pub data InterxType : Type 0 where
  query extrinsic rpc constant : InterxType

-- `meta.type` of a storage item.
pub data Storage : Type 0 where
  plain other : Storage
  map_of : Text → Storage
  double_map : (key1 key2 : Text) → Storage

-- A parameter of a JSON RPC.
pub record RpcParam : Type 0 where
  pub name : Text
  pub type : Text
  pub is_optional : Option Bool

-- The metadata that the node gives of a pallet and a callable: the storage, the arguments (a name
-- and a type each) or undefined, the RPC's parameters where `jsonrpc` has it.
pub record Metadata : Type 0 where
  pub storage : Text → Text → Storage
  pub args : Text → Text → Option (List (Text × Text))
  pub params : Text → Text → Option (List RpcParam)

abbrev pub field : Text → Text → Bool → ParamField
field name type optional = record { name = some name; type = some type; optional = optional }

unfoldable pub arg_is_optional : Text → Bool
arg_is_optional type = starts_with type (codes "Option<")

abbrev pub query_fields : Storage → List ParamField
query_fields (map_of key) = field key key false ∷ []
query_fields (double_map key1 key2) = field key1 key1 false ∷ field key2 key2 false ∷ []
query_fields _ = []

abbrev pub tx_fields : Option (List (Text × Text)) → List ParamField
tx_fields none = []
tx_fields (some args) = map (λ a. field a.0 a.1 (arg_is_optional a.1)) args

abbrev pub or_false : Option Bool → Bool
or_false none = false
or_false (some b) = b

abbrev pub rpc_fields : Option (List RpcParam) → List ParamField
rpc_fields none = []
rpc_fields (some params) = map (λ p. field p.name p.type (or_false p.is_optional)) params

-- The fields that `updateParamFields` sets.
unfoldable pub param_fields : Metadata → InterxType → Text → Text → List ParamField
param_fields m t pallet callable = if is_empty pallet || is_empty callable then [] else (elim t [
  | query ↦ query_fields (m.storage pallet callable)
  | extrinsic ↦ tx_fields (m.args pallet callable)
  | rpc ↦ rpc_fields (m.params pallet callable)
  | constant ↦ []
])

-- An input with the type of the field that it was written in.
pub record InputParam : Type 0 where
  pub type : Option Text
  pub value : Text

pub record FormState : Type 0 where
  pub pallet_rpc : Text
  pub callable : Text
  pub input_params : List (Option InputParam)

abbrev pub init_form_state : FormState
init_form_state = record { pallet_rpc = []; callable = []; input_params = [] }

-- The `state` and the `value` of the element that changed: the input of a field with its index, or
-- one of the two menus.
pub data Change : Type 0 where
  param : ℕ → ParamField → Text → Change
  pallet_rpc callable : Text → Change

unfoldable pub on_change : Change → FormState → FormState
on_change (param ind f value) s = record s {
  input_params = assign ind (record { type = f.type; value = value }) s.input_params;
}
on_change (pallet_rpc value) s = record { pallet_rpc = value; callable = []; input_params = [] }
on_change (callable value) s = record s { callable = value; input_params = [] }

-- `onInterxTypeChange`.
unfoldable pub on_interx_type_change : InterxType → InterxType × FormState
on_interx_type_change t = (t, init_form_state)

-- The buttons of `InteractorSubmit`; a group has three.
unfoldable pub submit_buttons : InterxType → List TxType
submit_buttons query = TxType.query ∷ []
submit_buttons extrinsic = TxType.unsigned_tx ∷ TxType.signed_tx ∷ TxType.sudo_tx ∷ []
submit_buttons rpc = TxType.rpc ∷ []
submit_buttons constant = TxType.constant ∷ []

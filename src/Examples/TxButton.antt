-- ===== src/Examples/TxButton.antt =====
-- The button (TxButton.js) at concrete inputs.
use qrucial_dao.Common.{
  ℕ, ◌≡◌, ◌≢◌, ◌↔◌, refl, true, false, none, some, List, [], ◌∷◌, inl, get_elem?, All, any, ◌==◌,
  arith,
}
use qrucial_dao.Common.Text.{codes}
use qrucial_dao.Common.Text.Trim.{IsBlank}
use qrucial_dao.Chain.{Account}
use qrucial_dao.TxButton.{
  Scalar, Input, ParamField, Arg, ok, TxType, sudo_tx, signed_tx, query, rpc,
}
use qrucial_dao.TxButton.Params.{
  transform_params, with_values, reduce_params, reduce_step, convert, convert_text, is_num_type,
  param_val,
}
use qrucial_dao.TxButton.Params.Clean.{transform_params-IsClean, transform_params_total, IsClean}
use qrucial_dao.TxButton.Guard.{Button, is_disabled, all_params_filled, param_filled, is_sudoer}
use qrucial_dao.TxButton.Guard.Laws.{is_disabled-sudo}
use qrucial_dao.TxButton.Guard.Blank.{transform_params-IsBlank}
use qrucial_dao.TxButton.Send.{Outcome, subscribed, failed, pressed, called}
use qrucial_dao.TxButton.Send.Laws.{
  steps, in_turn, fresh, held, presses-held, presses-sudo_open, presses-overlap_open,
}
use qrucial_dao.Examples.Values.{whole, alice, required, typed}
use qrucial_dao.Common.Text.{trim, split_on}

-- What a test of the conversion computes with.
conversion : Unit {0}
unfolding transform_params with_values reduce_params reduce_step convert convert_text is_num_type
    param_val trim split_on
conversion = tt

abbrev fields : List ParamField
fields = required "u32" ∷ required "Vec<u8>" ∷ required "Text" ∷ required "Text" ∷ []

abbrev inputs : List (Input ℕ)
inputs = typed " 12 " ∷ typed "1, 2" ∷ typed " a b " ∷ typed "  " ∷ []

abbrev arguments : List (Arg ℕ)
arguments =
    Arg.num 12 ∷ Arg.vec (Scalar.num 1 ∷ Scalar.num 2 ∷ []) ∷ Arg.str (codes "a b") ∷ Arg.null ∷ []

converted : transform_params whole true fields inputs ≡ ok arguments
unfolding conversion
converted = refl

converted_rpc :
    transform_params whole false (required "Text" ∷ required "u8" ∷ []) (typed " " ∷ typed "7" ∷ [])
    ≡ ok (Arg.num 7 ∷ [])
unfolding conversion
converted_rpc = refl

transform_params-IsClean_example : All IsClean arguments
transform_params-IsClean_example = transform_params-IsClean whole true fields inputs converted

transform_params_total_example :
    (args : List (Arg ℕ)) × (transform_params whole true fields inputs ≡ ok args)
transform_params_total_example =
    transform_params_total whole true fields inputs (tt, (tt, (tt, (tt, tt))))

-- The last field is required and filled with spaces: the button is not disabled for it, and its
-- argument is null.
transform_params-IsBlank_example : (get_elem? arguments 3 ≡ some Arg.null) ↔ IsBlank (codes "  ")
transform_params-IsBlank_example =
    transform_params-IsBlank whole fields inputs 3 (codes "  ") converted refl refl (inl refl)

filled : all_params_filled fields inputs ≡ true
unfolding all_params_filled param_filled
filled = refl

abbrev button : TxType → Button ℕ
button type = record {
  type = type;
  disabled = false;
  pallet_rpc = some (codes "exoSys");
  callable = some (codes "requestReview");
  input_params = inputs;
  param_fields = fields;
}

sudo_enabled : is_disabled (some (codes "5Grw")) (some alice) (button sudo_tx) ≡ false
unfolding is_disabled all_params_filled param_filled is_sudoer
sudo_enabled = refl

other_key_disabled : is_disabled (some (codes "5Fhn")) (some alice) (button sudo_tx) ≡ true
unfolding is_disabled all_params_filled param_filled is_sudoer
other_key_disabled = refl

is_disabled-sudo_example :
    (a : Account) × (some alice ≡ some a) × (some (codes "5Grw") ≡ some a.address)
is_disabled-sudo_example =
    is_disabled-sudo (some (codes "5Grw")) (some alice) (button sudo_tx) sudo_enabled refl

signed_enabled : is_disabled none (some alice) (button signed_tx) ≡ false
unfolding is_disabled all_params_filled param_filled is_sudoer
signed_enabled = refl

abbrev three : List (TxType × Outcome)
three = (query, subscribed 1) ∷ (signed_tx, failed (codes "x")) ∷ (rpc, subscribed 2) ∷ []

presses-held_example : (steps (in_turn three) fresh).live ≡ held (steps (in_turn three) fresh).unsub
presses-held_example = presses-held three (refl, (refl, (refl, tt)))

other : ◌≢◌ {A = ℕ} 2 1
other h = omega arith

presses-sudo_open_example :
    any
      (λ j. j == 1)
      (steps
        (called sudo_tx (subscribed 1) ∷ pressed ∷ pressed ∷ called signed_tx (subscribed 2) ∷ [])
        fresh).live
    ≡ true
presses-sudo_open_example =
    presses-sudo_open 1 sudo_tx fresh (pressed ∷ pressed ∷ called signed_tx (subscribed 2) ∷ [])
      refl (tt, (tt, (other, tt)))

-- Both presses come before the first call ends, and a third one later.
presses-overlap_open_example :
    any
      (λ k. k == 1)
      (steps
        (called signed_tx (subscribed 1) ∷ called signed_tx (subscribed 2) ∷ pressed ∷ [])
        (steps (pressed ∷ pressed ∷ []) fresh)).live
    ≡ true
presses-overlap_open_example =
    presses-overlap_open 1 2 signed_tx signed_tx (steps (pressed ∷ pressed ∷ []) fresh)
      (pressed ∷ []) refl refl other (tt, tt)

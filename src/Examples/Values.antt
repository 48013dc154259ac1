-- ===== src/Examples/Values.antt =====
-- Numbers and accounts for the tests.
use qrucial_dao.Common.{ℕ, ◌+◌, ◌-◌, ◌*◌, ◌==◌, not, true, false, [], ◌∷◌, String}
use qrucial_dao.Common.Text.{Text, codes}
use qrucial_dao.Chain.{Account}
use qrucial_dao.TxButton.{Numbers, ParamField, Scalar, Input, plain}
use qrucial_dao.Common.{some}

abbrev value_from : ℕ → Text → ℕ
value_from n [] = n
value_from n (c ∷ s) = value_from (n * 10 + (c - b'0')) s

-- Whole numbers in the place of floating-point ones.
abbrev pub whole : Numbers
whole = record {
  Num = ℕ;
  parse_int = value_from 0;
  parse_float = value_from 0;
  truthy = λ n. not (n == 0);
}

abbrev pub alice : Account
alice = record {
  address = codes "5Grw";
  name = codes "alice";
  source = codes "polkadot-js";
  is_injected = true;
}

-- A required field of a type, and a text in its input.
abbrev pub required : String → ParamField
required type = record { name = some (codes "p"); type = some (codes type); optional = false }

abbrev pub typed : String → Input ℕ
typed s = plain (Scalar.str (codes s))

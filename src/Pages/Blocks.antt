-- ===== src/Pages/Blocks.antt =====
-- The number of the block and its timer
-- (frontend/substrate-front-end-template/src/template-comps/BlockNumber.js).
use qrucial_dao.Common.{ℕ, ◌+◌, Option, none, some}
use qrucial_dao.Common.Text.{Text, codes}

-- The number as it is shown, and the seconds since it came.
pub record State : Type 0 where
  pub block_number : Text
  pub block_number_timer : ℕ

abbrev pub initial : State
initial = record { block_number = codes "0"; block_number_timer = 0 }

-- `to_number` is the library's `toNumber`, none where that throws as the number is too large, and
-- `to_locale` the language's `toLocaleString('en-US')`. Where it throws, as none, nothing changes.
module _ {N : Type 0} (to_number : N → Option ℕ) (to_locale : ℕ → Text) where
  abbrev pub new_block : Option ℕ → State → Option State
  new_block none s = none
  new_block (some n) s = some (record { block_number = to_locale n; block_number_timer = 0 })

  unfoldable pub on_number : N → State → Option State
  on_number number s = new_block (to_number number) s

unfoldable pub timer : State → State
timer s = record s { block_number_timer = s.block_number_timer + 1 }

-- ===== src/Node/Runtime.antt =====
-- The runtime of the pallet of the reviews: `T::Game` is the pallet of the auditors, and both
-- pallets have one currency (qdao-node/runtime/src/lib.rs).
use qrucial_dao.Common.{ℕ, Option, none, some}
use qrucial_dao.Common.Text.{Text}
use qrucial_dao.Node.{Origin, Dispatch}
use qrucial_dao.Node.Auditors.{Config, State, apply_result, has_enough_rank}
use qrucial_dao.Node.Reviews.{Runtime}

abbrev pub reserved : (config : Config) → Text → ℕ → State config → Option (State config)
reserved config who amount s = elim (config.currency.reserve who amount s.balances) [
  | none ↦ none
  | some b ↦ some (record s { balances = b })
]

-- With the origins that may approve, reject and remove a challenge.
abbrev pub runtime :
    Config
    → (Origin → Dispatch (Unit {0}))
    → (Origin → Dispatch (Unit {0}))
    → (Origin → Dispatch (Unit {0}))
    → Runtime
runtime config approve reject remove = record {
  World = State config;
  reserve = reserved config;
  has_enough_rank = has_enough_rank config;
  apply_result = apply_result config;
  approve_challenge_origin = approve;
  reject_challenge_origin = reject;
  remove_challenge_origin = remove;
}

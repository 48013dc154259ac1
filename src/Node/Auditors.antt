-- ===== src/Node/Auditors.antt =====
-- The auditors on the chain (qdao-node/audit-pallet/src/lib.rs): their sign-up, their approval by
-- three auditors, and their scores. Scores are of 32 bits; accounts are texts.
pub mod Fine
pub mod Laws
pub mod Menu
pub mod Welcome
pub mod Status
pub mod Moves
use qrucial_dao.Common.{
  ℕ, Bool, true, false, not, Option, none, some, List, [], ◌∷◌, ◌++◌, if◌then◌else◌, leb, ltb, ◌==◌,
  any, length, is_some,
}
use qrucial_dao.Common.Text.{Text, text_eq}
use qrucial_dao.Node.{
  Origin, Error, Dispatch, ok, err, ◌>>=◌, ◌>>◌, ensure, ok_or, ensure_signed, ensure_root, Storage,
  insert, remove, Currency,
}
use qrucial_dao.Node.Elo.{calculate}

pub record AuditorData : Type 0 where
  pub score : Option ℕ
  pub profile_hash : Text
  pub approved_by : List Text

pub data Winner : Type 0 where
  player0 player1 draw : Winner

pub data Event : Type 0 where
  signed_up : Text → Event
  game_result : Text → Text → Winner → Event

-- `Config`, with the powers of the library that elo_comp.rs calls.
pub record Config : Type 1 where
  pub currency : Currency
  pub min_auditor_stake : ℕ
  pub initial_auditor_score : ℕ
  pub minimal_approver_score : ℕ
  pub pow : Bool → ℕ → Option ℕ

-- The storage of the pallet, the balances, and the events with the latest first.
pub record State (config : Config) : Type 0 where
  pub auditor_map : Storage AuditorData
  pub balances : config.currency.Balances
  pub events : List Event

-- `try_push` to a list of three at most.
abbrev pub try_push : Text → List Text → Option (List Text)
try_push x xs = if ltb (length xs) 3 then some (xs ++ (x ∷ [])) else none

module _ (config : Config) where
  unfoldable pub sign_up : Origin → Text → State config → Dispatch (State config)
  sign_up origin profile_hash s = do
    sender ← ensure_signed origin
    ensure (not (is_some (s.auditor_map sender))) Error.already_signed_up
    reserved ←
        ok_or (config.currency.reserve sender config.min_auditor_stake s.balances)
          Error.insufficient_balance
    ok (record {
      auditor_map =
          insert sender (record { score = none; profile_hash = profile_hash; approved_by = [] })
            s.auditor_map;
      balances = reserved;
      events = signed_up sender ∷ s.events;
    })

  unfoldable pub update_profile : Origin → Text → State config → Dispatch (State config)
  update_profile origin profile_hash s = do
    sender ← ensure_signed origin
    d ← ok_or (s.auditor_map sender) Error.unknown_auditor
    ok (record s {
      auditor_map = insert sender (record d { profile_hash = profile_hash }) s.auditor_map;
    })

  -- Whether the stake is burnt.
  abbrev pub is_burnt : Option ℕ → Bool
  is_burnt none = false
  is_burnt (some score) = ltb score config.initial_auditor_score

  unfoldable pub cancel_account : Origin → State config → Dispatch (State config)
  cancel_account origin s = do
    sender ← ensure_signed origin
    account ← ok_or (s.auditor_map sender) Error.unknown_auditor
    let unreserved = config.currency.unreserve sender config.min_auditor_stake s.balances
    left ←
        if is_burnt account.score
        then ok_or (config.currency.withdraw sender config.min_auditor_stake unreserved)
            Error.insufficient_balance
        else ok unreserved
    ok (record s { auditor_map = remove sender s.auditor_map; balances = left })

  abbrev pub approved : AuditorData → List Text → AuditorData
  approved d approvers = record d {
    approved_by = approvers;
    score = if length approvers == 3 then some config.initial_auditor_score else d.score;
  }

  unfoldable pub approve_auditor : Origin → Text → State config → Dispatch (State config)
  approve_auditor origin to_approve s = do
    sender ← ensure_signed origin
    sender_data ← ok_or (s.auditor_map sender) Error.unknown_auditor
    sender_score ← ok_or sender_data.score Error.unapproved_auditor
    ensure (leb config.minimal_approver_score sender_score) Error.reputation_too_low
    d ← ok_or (s.auditor_map to_approve) Error.unknown_approvee
    ensure (not (is_some d.score)) Error.already_auditor
    ensure (not (any (text_eq sender) d.approved_by)) Error.already_approved
    approvers ← ok_or (try_push sender d.approved_by) Error.storage_overflow
    ok (record s { auditor_map = insert to_approve (approved d approvers) s.auditor_map })

  -- The new scores of the two players.
  unfoldable pub new_scores : ℕ → ℕ → Winner → Option (ℕ × ℕ)
  new_scores a b player0 = calculate config.pow a b
  new_scores a b player1 = elim (calculate config.pow b a) [
    | none ↦ none
    | some (w, l) ↦ some (l, w)
  ]
  new_scores a b draw = some (a, b)

  abbrev pub write_scores :
      Text
      → Text
      → AuditorData
      → AuditorData
      → Winner
      → ℕ × ℕ
      → Storage AuditorData
      → Storage AuditorData
  write_scores p0 p1 d0 d1 draw scores m = m
  write_scores p0 p1 d0 d1 _ (a, b) m =
      insert p1 (record d1 { score = some b }) (insert p0 (record d0 { score = some a }) m)

  unfoldable pub apply_result : Text → Text → Winner → State config → Dispatch (State config)
  apply_result p0 p1 winner s = do
    d0 ← ok_or (s.auditor_map p0) Error.unknown_auditor
    score0 ← ok_or d0.score Error.unapproved_auditor
    d1 ← ok_or (s.auditor_map p1) Error.unknown_auditor
    score1 ← ok_or d1.score Error.unapproved_auditor
    scores ← ok_or (new_scores score0 score1 winner) Error.unexpected_elo_overflow
    ok (record s {
      auditor_map = write_scores p0 p1 d0 d1 winner scores s.auditor_map;
      events = game_result p0 p1 winner ∷ s.events;
    })

  unfoldable pub game_result_call :
      Origin → Text → Text → Winner → State config → Dispatch (State config)
  unfolding apply_result
  game_result_call origin p0 p1 winner s = do ensure_root origin; apply_result p0 p1 winner s

  unfoldable pub has_enough_rank : Text → ℕ → State config → Bool
  has_enough_rank player score s = elim (s.auditor_map player) [
    | none ↦ false
    | some d ↦ elim d.score [ none ↦ false | some x ↦ leb score x ]
  ]

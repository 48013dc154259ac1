-- ===== src/Pool.antt =====
-- The pool of auditors (frontend/substrate-front-end-template/src/AuditorPool.js): the server's list
-- of auditors joined with what the node tells of each, and the cards.
pub mod Order
pub mod Laws
pub mod View
use qrucial_dao.Common.{
  ℕ, zero, suc, ◌+◌, Bool, true, false, Option, none, some, List, [], ◌∷◌, ◌++◌, if◌then◌else◌, ltb,
  any, length, take, upsert,
}
use qrucial_dao.Common.Text.{Text, codes, text_eq, is_empty}

-- An auditor of the server: the values of its entry, and two of them by name; the name is missing
-- or null as none.
pub record Auditor : Type 0 where
  pub address : Text
  pub name : Option Text
  -- The other texts among its values.
  pub more : List Text

-- `auditorClone` with what the node tells; the score is null until the sign-up is approved.
pub record Card : Type 0 where
  pub auditor : Auditor
  pub score : Option ℕ
  pub approved_by_count : ℕ

-- `Object.values(elem).includes(address)`: numbers are no texts.
unfoldable pub holds : Text → Card → Bool
holds address c =
    any (λ v. text_eq v address)
      (c.auditor.address
        ∷ (elim (c.auditor.name) [ none ↦ [] | some n ↦ n ∷ [] ] ++ c.auditor.more))

-- An answer for the auditor: none, or its score and who approved it.
pub record Entry : Type 0 where
  pub score : Option ℕ
  pub approved_by : List Text

-- The handler of an answer.
unfoldable pub on_answer : Auditor → Option Entry → List Card → List Card
on_answer a none cards = cards
on_answer a (some e) cards =
    upsert (holds (a.address))
      (record { auditor = a; score = e.score; approved_by_count = length (e.approved_by) }) cards

unfoldable pub on_answers : List (Auditor × Option Entry) → List Card → List Card
unfolding on_answer
on_answers [] cards = cards
on_answers ((a, e) ∷ later) cards = on_answers later (on_answer a e cards)

-- Names that are falsy, or a text.
abbrev pub named : Option Text → Option Text
named none = none
named (some []) = none
named (some (c ∷ n)) = some (c ∷ n)

-- `displayName`.
unfoldable pub display_name : Option Text → Text
display_name name = elim (named name) [
  | none ↦ codes "no name"
  | some n ↦ if ltb 10 (length n) then take 9 n ++ codes "..." else n
]

-- ===== src/Pool/Laws.antt =====
-- Which cards the pool has after the node's answers.
use qrucial_dao.Common.{
  ◌≡◌, refl, sym, ap, ◌∙◌, Bool, Option, none, some, List, [], ◌∷◌, All, find, length, upsert,
  upsert-ext, upsert_all, last_of, IsUnique, KeyLaws, find-upsert_all, IsUnique-upsert_all,
  All-upsert, All-map,
}
use qrucial_dao.Common.Text.{Text, text_eq, text_eq_refl, text_eq→eq}
use qrucial_dao.Pool.{Auditor, Card, Entry, holds, on_answers}

-- Cards of one address.
abbrev pub same : Card → Card → Bool
same c d = text_eq (d.auditor.address) (c.auditor.address)

same-KeyLaws : KeyLaws same
same-KeyLaws = record {
  same_refl = λ c. text_eq_refl (c.auditor.address);
  same_congr = λ u v h x. ap (text_eq (x.auditor.address)) (sym (text_eq→eq _ _ h));
}

-- The card of an answer.
abbrev pub card : Auditor → Entry → Card
card a e = record { auditor = a; score = e.score; approved_by_count = length (e.approved_by) }

abbrev pub cards : List (Auditor × Option Entry) → List Card
cards [] = []
cards ((a, none) ∷ later) = cards later
cards ((a, some e) ∷ later) = card a e ∷ cards later

-- A card holds none of the addresses but its own.
abbrev pub IsOwn : (Text → Type 0) → Card → Type 0
IsOwn Asked c = (x : Text) → Asked x → holds x c ≡ text_eq (c.auditor.address) x

abbrev pub AreOwn : (Text → Type 0) → List (Auditor × Option Entry) → Type 0
AreOwn Asked [] = Unit
AreOwn Asked ((a, none) ∷ later) = AreOwn Asked later
AreOwn Asked ((a, some e) ∷ later) = Asked (a.address) × IsOwn Asked (card a e) × AreOwn Asked later

on_answers-upsert_all :
    (Asked : Text → Type 0) (answers : List (Auditor × Option Entry)) (pool : List Card)
    → AreOwn Asked answers
    → All (IsOwn Asked) pool
    → on_answers answers pool ≡ upsert_all same (cards answers) pool
unfolding on_answers
on_answers-upsert_all Asked [] pool own o = refl
on_answers-upsert_all Asked ((a, none) ∷ later) pool own o =
    on_answers-upsert_all Asked later pool own o
on_answers-upsert_all Asked ((a, some e) ∷ later) pool (asked, mine, own) o =
    ap (on_answers later) (
      upsert-ext (holds (a.address)) (same (card a e)) (card a e) pool
        (All-map (λ c owned. owned (a.address) asked) pool o))
    ∙ on_answers-upsert_all Asked later (upsert (same (card a e)) (card a e) pool) own
        (All-upsert (IsOwn Asked) (same (card a e)) (card a e) pool mine o)

-- Where no auditor's other texts are an address that was asked for, the pool has one card for an
-- address at most, and the card of an address is the one of its last answer that was not none.
pub on_answers-find :
    (Asked : Text → Type 0) (answers : List (Auditor × Option Entry))
    → AreOwn Asked answers
    → let pool = on_answers answers [] in
      IsUnique same pool × ((c : Card) → find (same c) pool ≡ last_of (same c) (cards answers) none)
on_answers-find Asked answers own = rw (on_answers-upsert_all Asked answers [] own tt) (
  IsUnique-upsert_all same same-KeyLaws (cards answers) [] tt,
  λ c. find-upsert_all same same-KeyLaws c (cards answers) [],
)

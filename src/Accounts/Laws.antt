-- ===== src/Accounts/Laws.antt =====
-- The account that is current, and the balances that are shown.
use qrucial_dao.Common.{
  ◌≡◌, ◌≤◌, refl, ap, ◌∙◌, false, Option, none, some, List, [], ◌∷◌, map, length, if◌then◌else◌,
  Bool-cases, inl, inr, arith,
}
use qrucial_dao.Common.Text.{Text, text_eq, text_eq_refl, text_eq→eq, is_empty}
use qrucial_dao.Chain.{Account}
use qrucial_dao.Forms.{Object, get, put}
use qrucial_dao.Forms.Laws.{get-put, get-put_other}
use qrucial_dao.Accounts.{on_effect, balances_from, balances_map}

-- The effect never throws: with accounts that have addresses the first becomes the current one,
-- unless one is current already, which stays.
pub on_effect-first :
    (a : Account) (pairs : List Account) (current : Option Account)
    → is_empty a.address ≡ false
    → on_effect (a ∷ pairs) current ≡ some (some (elim current [ none ↦ a | some c ↦ c ]))
unfolding on_effect
on_effect-first a pairs (some c) h = refl
on_effect-first a pairs none h = rw h (rw (text_eq_refl a.address) refl)

-- The balance at the last place of an address, or what was there before.
abbrev pub last_balance : Text → List Account → List Text → Option Text → Option Text
last_balance key [] balances before = before
last_balance key (a ∷ pairs) [] before = before
last_balance key (a ∷ pairs) (b ∷ balances) before =
    last_balance key pairs balances (if text_eq a.address key then some b else before)

get-put_cases :
    (key a b : Text) (acc : Object Text)
    → get key (put a b acc) ≡ (if text_eq a key then some b else get key acc)
get-put_cases key a b acc = elim (Bool-cases (text_eq a key)) [
  | inl e ↦ rw e (rw (text_eq→eq a key e) (get-put key b acc))
  | inr e ↦ rw e (get-put_other key a b acc e)
]

balances_from-get :
    (pairs : List Account) (balances : List Text) (acc : Object Text)
    → length pairs ≤ length balances
    → (m : Object Text) × (balances_from acc (map (λ a. a.address) pairs) balances ≡ some m)
      × ((key : Text) → get key m ≡ last_balance key pairs balances (get key acc))
unfolding balances_from
balances_from-get [] balances acc l = (acc, refl, λ key. refl)
balances_from-get (a ∷ pairs) [] acc l = absurd (omega arith)
balances_from-get (a ∷ pairs) (b ∷ balances) acc l =
    let (m, e, found) = balances_from-get pairs balances (put a.address b acc) (omega arith) in
    (
      m,
      e,
      λ key. found key ∙ ap (last_balance key pairs balances) (get-put_cases key a.address b acc),
    )

-- Where the node gives a balance for each account, the table has for each address the balance that
-- stands at its place among the accounts, the last place where an address is there twice.
pub balances_map-get :
    (pairs : List Account) (balances : List Text)
    → length pairs ≤ length balances
    → (m : Object Text) × (balances_map pairs balances ≡ some m)
      × ((key : Text) → get key m ≡ last_balance key pairs balances none)
unfolding balances_map get
balances_map-get pairs balances l = balances_from-get pairs balances [] l

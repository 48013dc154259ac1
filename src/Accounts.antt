-- ===== src/Accounts.antt =====
-- The choice of the account (frontend/substrate-front-end-template/src/AccountSelector.js), and the
-- balances of all accounts (template-comps/Balances.js).
pub mod Laws
pub mod View
use qrucial_dao.Common.{
  ℕ, Bool, true, false, not, Option, none, some, List, [], ◌∷◌, ◌++◌, map, if◌then◌else◌, find,
  length,
}
use qrucial_dao.Common.Text.{Text, text_eq, is_empty}
use qrucial_dao.Forms.{Object, put}
use qrucial_dao.Chain.{Account}

abbrev pub acct_addr : Option Account → Text
acct_addr none = []
acct_addr (some a) = a.address

-- `keyring.getPair`, which throws where it finds none.
abbrev pub get_pair : List Account → Text → Option Account
get_pair pairs address = find (λ a. text_eq a.address address) pairs

-- The address of the first option.
unfoldable pub initial_address : List Account → Text
initial_address [] = []
initial_address (a ∷ pairs) = a.address

-- The effect that sets the initial account: the current account after it, or none where it throws.
unfoldable pub on_effect : List Account → Option Account → Option (Option Account)
unfolding initial_address
on_effect pairs (some a) = some (some a)
on_effect pairs none =
    if is_empty (initial_address pairs)
    then some none
    else (elim (get_pair pairs (initial_address pairs)) [ none ↦ none | some a ↦ some (some a) ])

-- `onChange` with the value of the menu, which is the empty text when it is cleared.
unfoldable pub on_change : List Account → Text → Option (Option Account)
on_change pairs address = elim (get_pair pairs address) [ none ↦ none | some a ↦ some (some a) ]

-- `balancesMap`: the balances in the order of the addresses; one that is missing throws.
unfoldable pub balances_from : Object Text → List Text → List Text → Option (Object Text)
balances_from acc [] balances = some acc
balances_from acc (a ∷ addresses) [] = none
balances_from acc (a ∷ addresses) (b ∷ balances) = balances_from (put a b acc) addresses balances

unfoldable pub balances_map : List Account → List Text → Option (Object Text)
balances_map pairs balances = balances_from [] (map (λ a. a.address) pairs) balances

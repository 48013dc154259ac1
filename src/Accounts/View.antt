-- ===== src/Accounts/View.antt =====
-- What the menu of the accounts (AccountSelector.js) and the table of the balances
-- (template-comps/Balances.js) draw. Layout and style are left out.
use qrucial_dao.Common.{Bool, not, Option, none, some, List, [], ◌∷◌, map, is_some}
use qrucial_dao.Common.Text.{Text}
use qrucial_dao.Forms.{Object, get}
use qrucial_dao.Chain.{Account}
use qrucial_dao.Accounts.{acct_addr}

-- An option of the menu; its key is the value.
pub record Choice : Type 0 where
  pub value : Text
  pub text : Text

-- `keyringOptions`; `upper` is the language's `toUpperCase`.
unfoldable pub keyring_options : (Text → Text) → List Account → List Choice
keyring_options upper pairs = map (λ a. record { value = a.address; text = upper a.name }) pairs

-- Whether the hint on the extension is drawn, the text that the button copies and whether it is
-- green, the options and the one that is chosen.
pub record View : Type 0 where
  pub hint : Bool
  pub copied : Text
  pub green : Bool
  pub options : List Choice
  pub value : Text

unfoldable pub view : (Text → Text) → List Account → Option Account → View
view upper pairs account = record {
  hint = not (is_some account);
  copied = acct_addr account;
  green = is_some account;
  options = keyring_options upper pairs;
  value = acct_addr account;
}

-- A row of the table: the name, the address, which the button copies, and the balance.
pub record Row : Type 0 where
  pub name : Text
  pub address : Text
  pub balance : Option Text

-- The table, or none where the page says that there are no accounts.
unfoldable pub balances_table : List Account → Object Text → Option (List Row)
balances_table [] balances = none
balances_table (a ∷ accounts) balances = some (
    map (λ b. record { name = b.name; address = b.address; balance = get b.address balances })
      (a ∷ accounts))

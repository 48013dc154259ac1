-- ===== src/TxButton/Guard/Laws.antt =====
-- What an enabled button guarantees.
use qrucial_dao.Common.{
  and_split, ◌≡◌, refl, sym, ap, true, false, not, Option, none, some, ◌||◌, arith, is_some,
}
use qrucial_dao.Common.Text.{Text, text_eq→eq, is_empty}
use qrucial_dao.Chain.{Account}
use qrucial_dao.TxButton.Guard.{
  all_params_filled, is_sudoer, is_sudo, is_signed, Button, is_disabled, truthy_text,
}

-- The five conditions that an enabled button meets.
pub record IsReady {N : Type 0} (sudo_key : Option Text) (acct : Option Account) (b : Button N)
    : Type 0 where
  pub pallet : truthy_text b.pallet_rpc ≡ true
  pub callable : truthy_text b.callable ≡ true
  pub filled : all_params_filled b.param_fields b.input_params ≡ true
  pub signer : (is_sudo b.type || is_signed b.type) ≡ true → is_some acct ≡ true
  pub sudoer : is_sudo b.type ≡ true → is_sudoer sudo_key acct ≡ true

is_disabled-IsReady :
    {N : Type 0} (k : Option Text) (acct : Option Account) (b : Button N)
    → is_disabled k acct b ≡ false
    → IsReady k acct b
unfolding is_disabled
is_disabled-IsReady k acct b h = ground arith

is_sudoer-address :
    (k : Option Text) (acct : Option Account)
    → is_sudoer k acct ≡ true
    → (a : Account) × (acct ≡ some a) × (k ≡ some a.address)
unfolding is_sudoer
is_sudoer-address none acct h = cc
is_sudoer-address (some k) none h = cc
is_sudoer-address (some k) (some a) h =
    (a, refl, ap some (sym (text_eq→eq a.address k (and_split {a = not (is_empty k)} h).1)))

-- An enabled sudo button belongs to the account whose address is the sudo key.
pub is_disabled-sudo :
    {N : Type 0} (k : Option Text) (acct : Option Account) (b : Button N)
    → is_disabled k acct b ≡ false
    → is_sudo b.type ≡ true
    → (a : Account) × (acct ≡ some a) × (k ≡ some a.address)
is_disabled-sudo k acct b h s = is_sudoer-address k acct ((is_disabled-IsReady k acct b h).sudoer s)

-- ===== src/Toast.antt =====
-- `createToast` (frontend/substrate-front-end-template/src/toastContent.js): one toast that follows
-- the messages of a transaction.
pub mod Laws
use qrucial_dao.Common.{
  ℕ, Bool, true, false, ◌||◌, Option, none, some, List, [], ◌∷◌, if◌then◌else◌,
}
use qrucial_dao.Common.Text.{Text, codes, includes, text_eq}
use qrucial_dao.Common.{any}

-- What is shown: a text, or the list of elements that CreateProposal.js makes of events, by their
-- texts.
pub data Shown : Type 0 where
  text : Text → Shown
  elements : List Text → Shown

-- A call of the library: a new toast, which gets the id, or another content for an id.
pub data ToastCall : Type 0 where
  create update : ℕ → Shown → ToastCall

-- `includes` of a text looks for a part; that of an array compares its items, which are elements.
unfoldable pub is_last : Shown → Bool
is_last (text s) = includes s (codes "Finalized") || includes s (codes "Failed")
is_last (elements es) = false

-- `showToast`: the id that it keeps (a non-empty text in the library, so truthy), the id that a
-- new toast would get, and the message.
unfoldable pub show_toast : Option ℕ → ℕ → Shown → Option ℕ × ToastCall
unfolding is_last
show_toast none fresh s = (some fresh, create fresh s)
show_toast (some id) fresh s = (if is_last s then none else some id, update id s)

unfoldable pub show_all : Option ℕ → List (ℕ × Shown) → Option ℕ × List ToastCall
unfolding show_toast
show_all id [] = (id, [])
show_all id ((fresh, s) ∷ later) =
    let (id', call) = show_toast id fresh s in
    let (id'', calls) = show_all id' later in (id'', call ∷ calls)

-- ===== src/TxAndPost.antt =====
-- `useTxAndPost` (frontend/substrate-front-end-template/src/hooks/useTxAndPost.js): a signed
-- transaction, and a POST to the server when it is in a block.
pub mod Laws
use qrucial_dao.Common.{
  Bool, true, false, not, ◌&&◌, Option, none, some, List, [], ◌∷◌, ◌++◌, if◌then◌else◌,
}
use qrucial_dao.Common.Text.{Text, codes}
use qrucial_dao.Forms.{FormValue, Object}
use qrucial_dao.Chain.{
  TxStatus, is_in_block, DispatchError, Registry, status_text, Effect, set_status, post, finish,
  toast_dispatch_error,
}
use qrucial_dao.TxButton.{signed_tx}
use qrucial_dao.TxButton.Send.{Session, Outcome, drop_previous, after_call}

-- The attributes of the hook: where to post, and whether there is a `finishEvent`.
pub record Attrs : Type 0 where
  pub post_url : Text
  pub has_finish : Bool

-- The callback of `signedTx`: called for each status, with the error of the dispatch if any.
unfoldable pub on_status :
    Registry → Attrs → Object FormValue → TxStatus → Option DispatchError → List Effect
on_status find attrs body status none =
    set_status (status_text [] status)
    ∷ (if is_in_block status
        then post attrs.post_url body ∷ (if attrs.has_finish then finish ∷ [] else [])
        else [])
on_status find attrs body status (some e) =
    set_status (status_text [] status)
    ∷ (if is_in_block status then toast_dispatch_error find e else [])

-- All calls of the callback for one transaction.
unfoldable pub on_statuses :
    Registry → Attrs → Object FormValue → List (TxStatus × Option DispatchError) → List Effect
unfolding on_status
on_statuses find attrs body [] = []
on_statuses find attrs body ((status, e) ∷ calls) =
    on_status find attrs body status e ++ on_statuses find attrs body calls

-- `txAndPost` up to the end of `signedTx`, whose handle is kept as the signed button keeps it.
unfoldable pub tx_and_post : Outcome → Session → Session × List Effect
tx_and_post o s =
    let (s', dropped) = drop_previous s in
    let (s'', told) = after_call signed_tx o s' in
    (s'', dropped ++ (set_status (codes "Sending...") ∷ told))

-- ===== src/TxButton/Send.antt =====
-- A press of the button: `transaction`, the calls that it makes, and their handlers.
pub mod Laws
use qrucial_dao.Common.{
  ℕ, Bool, true, false, not, Option, none, some, List, [], ◌∷◌, ◌++◌, if◌then◌else◌, ◌==◌, keep,
  is_some,
}
use qrucial_dao.Common.Text.{Text, codes}
use qrucial_dao.Chain.{
  TxStatus, is_in_block, DispatchError, Registry, status_text, failed_text, Effect, set_status,
  unsubscribe, toast_dispatch_error,
}
use qrucial_dao.TxButton.{
  Numbers, Scalar, Input, ParamField, Arg, Result, ok, throws, ◌>>=◌, map_result, TxType, query,
  rpc, signed_tx, unsigned_tx, sudo_tx, unchecked_sudo_tx, constant,
}
use qrucial_dao.TxButton.Params.{transform_params}

-- A call of the node; the pallet and the method are those of the button.
pub data Call (N : Type 0) : Type 0 where
  tx : List (Arg N) → Call N
  sudo : Call N → Call N
  -- Weight 0, and the inputs as they are.
  sudo_unchecked : List (Input N) → Call N
  query_call rpc_call : List (Arg N) → Call N
  read_constant : Call N

-- The call that each kind of request makes.
unfoldable pub prepare :
    (J : Numbers) → TxType → List ParamField → List (Input (J.Num)) → Result (Call (J.Num))
prepare J sudo_tx fs is = map_result (λ args. sudo (tx args)) (transform_params J true fs is)
prepare J unchecked_sudo_tx fs is = ok (sudo_unchecked is)
prepare J signed_tx fs is = map_result tx (transform_params J true fs is)
prepare J unsigned_tx fs is = map_result tx (transform_params J true fs is)
prepare J query fs is = map_result query_call (transform_params J true fs is)
prepare J rpc fs is = map_result rpc_call (transform_params J false fs is)
prepare J constant fs is = ok read_constant

-- `queryResHandler` and `constant`, on the text of the result or none.
unfoldable pub result_text : Option Text → Text
result_text none = codes "None"
result_text (some t) = t

-- The state `unsub`: null or undefined, a function, or a promise of one.
pub data Handle : Type 0 where
  no_handle : Handle
  fn : ℕ → Handle
  promise : Option ℕ → Handle

-- What comes of the call: a subscription, an error of the promise, or an exception before it.
pub data Outcome : Type 0 where
  subscribed : ℕ → Outcome
  failed : Text → Outcome
  raised : Outcome

-- `unsub`, and the subscriptions that the node serves.
pub record Session : Type 0 where
  pub unsub : Handle
  pub live : List ℕ

abbrev pub remove : ℕ → List ℕ → List ℕ
remove id = keep (λ j. not (j == id))

unfoldable pub drop_handle : Handle → List ℕ → Session × List Effect
drop_handle (fn id) live =
    (record { unsub = no_handle; live = remove id live }, unsubscribe id ∷ [])
drop_handle h live = (record { unsub = h; live = live }, [])

-- The first lines of `transaction`: only a function is called.
unfoldable pub drop_previous : Session → Session × List Effect
unfolding drop_handle
drop_previous s = drop_handle s.unsub s.live

-- The state after `await asyncFunc()`, and the messages of `txErrHandler`.
unfoldable pub after_call : TxType → Outcome → Session → Session × List Effect
after_call constant o s = (s, [])
after_call t raised s = (s, Effect.throw ∷ [])
-- These two keep the promise itself.
after_call sudo_tx (subscribed id) s =
    (record { unsub = promise (some id); live = id ∷ s.live }, [])
after_call unchecked_sudo_tx (subscribed id) s =
    (record { unsub = promise (some id); live = id ∷ s.live }, [])
after_call sudo_tx (failed e) s =
    (record s { unsub = promise none }, set_status (failed_text e) ∷ [])
after_call unchecked_sudo_tx (failed e) s =
    (record s { unsub = promise none }, set_status (failed_text e) ∷ [])
-- These two have no `catch`.
after_call query (failed e) s = (s, Effect.throw ∷ [])
after_call rpc (failed e) s = (s, Effect.throw ∷ [])
-- The handler of the error gives undefined.
after_call t (failed e) s = (record s { unsub = no_handle }, set_status (failed_text e) ∷ [])
after_call t (subscribed id) s = (record { unsub = fn id; live = id ∷ s.live }, [])

-- `transaction` up to its `await`.
unfoldable pub press : Session → Session × List Effect
unfolding drop_previous
press s =
    let (s', dropped) = drop_previous s in (s', dropped ++ (set_status (codes "Sending...") ∷ []))

-- What happens to a button: a press, and the end of the call of an earlier press. Another press may
-- come before that end.
pub data Event : Type 0 where
  pressed : Event
  called : TxType → Outcome → Event

unfoldable pub step : Event → Session → Session × List Effect
step pressed s = press s
step (called t o) s = after_call t o s

-- The callback of `signedTx`; the other kinds have its first line alone.
unfoldable pub on_signed_status : Registry → TxStatus → Option DispatchError → List Effect
on_signed_status find status none = set_status (status_text [] status) ∷ []
on_signed_status find status (some e) =
    set_status (status_text [] status)
    ∷ (if is_in_block status then toast_dispatch_error find e else [])

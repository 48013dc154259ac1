-- ===== src/Http.antt =====
-- The answers of `fetch` to the pages up to the value of `response.json()`, and `sendData` of
-- frontend/substrate-front-end-template/src/hooks/useTxAndPost.js.
pub mod Laws
use qrucial_dao.Common.{
  ℕ, Bool, true, false, ◌||◌, Option, none, some, List, [], ◌∷◌, ◌++◌, if◌then◌else◌,
}
use qrucial_dao.Common.Text.{Text, codes, starts_with}
use qrucial_dao.Common.Decimal.{decimal}
use qrucial_dao.Forms.{FormValue, Object}
use qrucial_dao.Chain.{Effect, toast_error, toast_success, post, callback}

-- The promise of `fetch` is rejected with a message, or gives a response: its `ok`, its status
-- with the text, and the body, which is no JSON or a value.
pub data Answer (B : Type 0) : Type 0 where
  refused : Text → Answer B
  bad_json : Bool → ℕ → Text → Text → Answer B
  json : Bool → ℕ → Text → B → Answer B

pub data Fetched (B : Type 0) : Type 0 where
  caught : Text → Fetched B
  fetched : B → Fetched B

abbrev pub status_error : ℕ → Text → Text
status_error code reason = decimal code ++ (b' ' ∷ reason)

-- The first two links of every chain of `then`, and what reaches `catch`.
unfoldable pub read_json : {B : Type 0} → Answer B → Fetched B
read_json (refused message) = caught message
read_json (bad_json ok code reason message) =
    if ok then caught message else caught (status_error code reason)
read_json (json ok code reason body) =
    if ok then fetched body else caught (status_error code reason)

-- A reply to a POST as far as it is read: null, with the message of the exception that reading
-- its property raises; a text; an object, by whether its `Error`, or that of its property 0, is
-- truthy; an array, by its first item's `Error`; another value.
pub data Reply : Type 0 where
  null : Text → Reply
  text : Text → Reply
  object : Bool → Reply
  array : Option Bool → Reply
  other : Reply

abbrev pub is_error : Reply → Bool
is_error (text s) = starts_with s (codes "Error")
is_error (object e) = e
is_error (array (some e)) = e
is_error _ = false

-- The third link; `with_callback` tells whether there is a `resCallback`.
unfoldable pub on_reply : Bool → Reply → List Effect
on_reply with_callback (null message) = toast_error (codes "ERROR " ++ message) ∷ []
on_reply with_callback r =
    (if is_error r
      then toast_error (codes "Error: save failed")
      else toast_success (codes "Data saved"))
    ∷ (if with_callback then callback ∷ [] else [])

unfoldable pub on_answer : Bool → Answer Reply → List Effect
unfolding on_reply read_json
on_answer with_callback a = elim (read_json a) [
  | caught message ↦ toast_error (codes "ERROR " ++ message) ∷ []
  | fetched r ↦ on_reply with_callback r
]

-- The request, and what follows its answer.
unfoldable pub send_data : Text → Bool → Object FormValue → Answer Reply → List Effect
send_data url with_callback body a = post url body ∷ on_answer with_callback a

-- ===== src/Http/Laws.antt =====
-- What the user is told of a POST.
use qrucial_dao.Common.{◌≡◌, ◌↔◌, Bool, true, false, List, ◌∷◌, arith}
use qrucial_dao.Chain.{Effect, toast_success}
use qrucial_dao.Http.{Answer, refused, bad_json, json, Reply, null, is_error, on_answer}

-- A response that is ok, and a reply in it that is no error.
abbrev pub IsSaved : Answer Reply → Type 0
IsSaved (json ok code reason (null m)) = ⊥
IsSaved (json ok code reason r) = (ok ≡ true) × (is_error r ≡ false)
IsSaved _ = ⊥

abbrev pub tells_saved : List Effect → Bool
tells_saved (toast_success s ∷ es) = true
tells_saved _ = false

-- The user is told that the data is saved exactly when the response is ok and its reply is
-- neither null nor an error.
pub on_answer-IsSaved_iff :
    (with_callback : Bool) (a : Answer Reply)
    → (tells_saved (on_answer with_callback a) ≡ true) ↔ IsSaved a
unfolding on_answer
on_answer-IsSaved_iff b (refused m) = ground arith
on_answer-IsSaved_iff b (bad_json ok code reason m) = ground arith
on_answer-IsSaved_iff b (json ok code reason r) = ground arith

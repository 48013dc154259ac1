-- ===== src/TxAndPost/Laws.antt =====
-- What reaches the server for a transaction.
use qrucial_dao.Common.{
  ◌≡◌, refl, ap, ◌∙◌, Bool, true, false, not, ◌&&◌, Option, none, some, List, [], ◌∷◌, ◌++◌, map,
  if◌then◌else◌, keep, keep-cons, is_some, Bool-cases, inl, inr, ℕ, suc,
}
use qrucial_dao.Common.Text.{Text}
use qrucial_dao.Forms.{FormValue, Object}
use qrucial_dao.Chain.{
  TxStatus, in_block, finalized, pending, is_in_block, DispatchError, Registry, error_text, Effect,
  toast_error, throw, post, finish, toast_dispatch_error,
}
use qrucial_dao.TxAndPost.{Attrs, on_status, on_statuses}

-- The requests among the effects, and the calls of `finishEvent`.
abbrev pub posts : List Effect → List (Text × Object FormValue)
posts [] = []
posts (post url body ∷ es) = (url, body) ∷ posts es
posts (_ ∷ es) = posts es

abbrev pub finishes : List Effect → ℕ
finishes [] = 0
finishes (finish ∷ es) = suc (finishes es)
finishes (_ ∷ es) = finishes es

-- A call that reports a block and no error.
abbrev pub is_included : TxStatus × Option DispatchError → Bool
is_included (status, e) = is_in_block status && not (is_some e)

posts-append : (es fs : List Effect) → posts (es ++ fs) ≡ posts es ++ posts fs
posts-append [] fs = refl
posts-append (post url body ∷ es) fs = ap ((url, body) ∷◌) (posts-append es fs)
posts-append (_ ∷ es) fs = posts-append es fs

posts-toast : (find : Registry) (e : DispatchError) → posts (toast_dispatch_error find e) ≡ []
posts-toast find e = go (error_text find e)
  where
    go : (t : Option Text) → posts (elim t [ none ↦ throw ∷ [] | some t ↦ toast_error t ∷ [] ]) ≡ []
    go none = refl
    go (some t) = refl

posts-on_status :
    (find : Registry) (attrs : Attrs) (body : Object FormValue) (status : TxStatus)
    (e : Option DispatchError)
    → posts (on_status find attrs body status e)
      ≡ (if is_included (status, e) then (attrs.post_url, body) ∷ [] else [])
unfolding on_status
posts-on_status find attrs body (in_block h) none = elim (Bool-cases attrs.has_finish) [
  | inl h ↦ rw h refl
  | inr h ↦ rw h refl
]
posts-on_status find attrs body (finalized h) none = refl
posts-on_status find attrs body (pending type) none = refl
posts-on_status find attrs body (in_block h) (some e) = posts-toast find e
posts-on_status find attrs body (finalized h) (some e) = refl
posts-on_status find attrs body (pending type) (some e) = refl

map-guard {ℓ κ} :
    {A : Type ℓ} {B : Type κ} (y : B) (x : A) (b : Bool) (xs : List A)
    → (if b then y ∷ [] else []) ++ map (λ _. y) xs
      ≡ map (λ _. y) ((if b then x ∷ [] else []) ++ xs)
map-guard y x true xs = refl
map-guard y x false xs = refl

-- For one transaction the server gets one request for each call that reports a block and no
-- error, each with the same url and body, and none for any other.
pub posts-on_statuses :
    (find : Registry) (attrs : Attrs) (body : Object FormValue)
    (calls : List (TxStatus × Option DispatchError))
    → posts (on_statuses find attrs body calls)
      ≡ map (λ _. (attrs.post_url, body)) (keep is_included calls)
unfolding on_statuses
posts-on_statuses find attrs body [] = refl
posts-on_statuses find attrs body ((status, e) ∷ calls) =
    posts-append (on_status find attrs body status e) (on_statuses find attrs body calls)
    ∙ rw
        (
          posts-on_status find attrs body status e,
          posts-on_statuses find attrs body calls,
          keep-cons is_included (status, e) calls,
        )
        (map-guard (attrs.post_url, body) (status, e) (is_included (status, e))
          (keep is_included calls))

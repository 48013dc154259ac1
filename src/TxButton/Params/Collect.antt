-- ===== src/TxButton/Params/Collect.antt =====
-- With empty values as null, `transformParams` converts each field's value by itself.
use qrucial_dao.Common.{
  ℕ, zero, suc, ◌≡◌, refl, sym, ap, ◌∙◌, true, Option, none, some, List, [], ◌∷◌, ◌++◌, map,
  append_assoc, some_injective, none-ne-some, append-nil, get_elem?,
}
use mathlib.Core.Path.{subst}
use qrucial_dao.TxButton.{Numbers, Input, ParamField, Arg, Result, ok, throws, ◌>>=◌, map_result}
use qrucial_dao.TxButton.Params.{
  param_val, with_values, convert, reduce_step, reduce_params, transform_params, type_of,
}
use qrucial_dao.TxButton.Params.Laws.{bind-ok, ok-injective}

module _ (J : Numbers) where
  open J use {Num}

  abbrev pub arg_for : ParamField × Option (Arg Num) → Result (Arg Num)
  arg_for (f, none) = ok Arg.null
  arg_for (f, some v) = convert J (type_of f) v

  pub collect : List (ParamField × Option (Arg Num)) → Result (List (Arg Num))
  collect [] = ok []
  collect (p ∷ ps) = do a ← arg_for p; rest ← collect ps; ok (a ∷ rest)

  reduce_step-arg_for :
      (memo : List (Arg Num)) (p : ParamField × Option (Arg Num))
      → reduce_step J true memo p ≡ map_result (λ a. memo ++ a ∷ []) (arg_for p)
  unfolding reduce_step
  reduce_step-arg_for memo (f, none) = refl
  reduce_step-arg_for memo (f, some v) = push (convert J (type_of f) v)
    where
      push :
          (r : Result (Arg Num))
          → (r >>= λ c. ok (memo ++ c ∷ [])) ≡ map_result (λ a. memo ++ a ∷ []) r
      push (ok c) = refl
      push throws = refl

  map_result_id : (r : Result (List (Arg Num))) → map_result (λ rest. [] ++ rest) r ≡ r
  map_result_id (ok rest) = refl
  map_result_id throws = refl

  append_all :
      (memo : List (Arg Num)) (a : Arg Num) (r : Result (List (Arg Num)))
      → map_result (λ rest. (memo ++ a ∷ []) ++ rest) r
        ≡ map_result (λ rest. memo ++ rest) (r >>= λ rest. ok (a ∷ rest))
  append_all memo a (ok rest) = ap ok (append_assoc memo (a ∷ []) rest)
  append_all memo a throws = refl

  reduce_params-collect :
      (memo : List (Arg Num)) (ps : List (ParamField × Option (Arg Num)))
      → reduce_params J true memo ps ≡ map_result (λ rest. memo ++ rest) (collect ps)
  unfolding reduce_params collect
  reduce_params-collect memo [] = ap ok (sym (append-nil memo))
  reduce_params-collect memo (p ∷ ps) =
      rw (reduce_step-arg_for memo p) (push (λ m. reduce_params-collect m ps) (arg_for p))
    where
      push :
          ((m : List (Arg Num))
            → reduce_params J true m ps ≡ map_result (λ rest. m ++ rest) (collect ps))
          → (r : Result (Arg Num))
          → (map_result (λ a. memo ++ a ∷ []) r >>= λ m. reduce_params J true m ps)
            ≡ map_result (λ rest. memo ++ rest) (r >>= λ a. collect ps >>= λ rest. ok (a ∷ rest))
      push ih (ok a) = ih (memo ++ a ∷ []) ∙ append_all memo a (collect ps)
      push ih throws = refl

  pub transform_params-collect :
      (fields : List ParamField) (inputs : List (Input Num))
      → transform_params J true fields inputs
        ≡ collect (with_values J fields (map (param_val J) inputs))
  unfolding transform_params
  transform_params-collect fields inputs = reduce_params-collect [] _ ∙ map_result_id (collect _)

  pub get_elem?-collect :
      (ps : List (ParamField × Option (Arg Num))) (i : ℕ) (p : ParamField × Option (Arg Num))
      {args : List (Arg Num)}
      → collect ps ≡ ok args
      → get_elem? ps i ≡ some p
      → (a : Arg Num) × (get_elem? args i ≡ some a) × (arg_for p ≡ ok a)
  unfolding collect
  get_elem?-collect [] i p h g = absurd (none-ne-some g)
  get_elem?-collect (q ∷ ps) zero p h g =
      let (a, first, later) = bind-ok (arg_for q) _ h in
      let (rest, _, e) = bind-ok (collect ps) _ later in
      (
        a,
        ap (λ r. get_elem? r 0) (sym (ok-injective e)),
        subst (λ x. arg_for x ≡ ok a) (some_injective g) first,
      )
  get_elem?-collect (q ∷ ps) (suc i) p h g =
      let (a, first, later) = bind-ok (arg_for q) _ h in
      let (rest, more, e) = bind-ok (collect ps) _ later in
      let (b, there, made) = get_elem?-collect ps i p more g in
      (b, ap (λ r. get_elem? r (suc i)) (sym (ok-injective e)) ∙ there, made)

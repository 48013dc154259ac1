-- ===== src/TxButton/Params/Laws.antt =====
-- How many arguments `transformParams` gives, and how its two modes are related.
use qrucial_dao.Common.{
  suc, All, ◌+◌, ◌≡◌, refl, sym, ap, ◌∙◌, Bool, true, false, Option, none, some, List, [], ◌∷◌,
  ◌++◌, map, length, length-append, keep, keep-append, append-nil, arith, Bool-cases, inl, inr,
}
use qrucial_dao.Common.Text.{Text}
use qrucial_dao.TxButton.{
  Numbers, Scalar, Input, plain, obj, ParamField, Arg, Result, ok, throws, ◌>>=◌, map_result,
}
use qrucial_dao.TxButton.Params.{
  param_val, or_null, with_values, convert_text, convert, reduce_step, reduce_params,
  transform_params, type_of,
}

abbrev pub is_arg : {N : Type 0} → Arg N → Bool
is_arg Arg.null = false
is_arg _ = true

pub ok-injective : {A : Type 0} {a b : A} → ok a ≡ ok b → a ≡ b
ok-injective h = cc

-- What went before a result that is there.
pub bind-ok :
    {A B : Type 0} (r : Result A) (k : A → Result B) {done : B}
    → (r >>= k) ≡ ok done
    → (x : A) × (r ≡ ok x) × (k x ≡ ok done)
bind-ok throws k e = cc
bind-ok (ok x) k e = (x, refl, e)

module _ (J : Numbers) where
  open J use {Num}

  length-with_values :
      (fs : List ParamField) (vs : List (Input Num)) → length (with_values J fs vs) ≡ length fs
  unfolding with_values
  length-with_values [] vs = refl
  length-with_values (f ∷ fs) [] = ap suc (length-with_values fs [])
  length-with_values (f ∷ fs) (v ∷ vs) = ap suc (length-with_values fs vs)

  length-reduce_step :
      (memo : List (Arg Num)) (p : ParamField × Option (Arg Num)) {memo' : List (Arg Num)}
      → reduce_step J true memo p ≡ ok memo'
      → length memo' ≡ length memo + 1
  unfolding reduce_step
  length-reduce_step memo (f, none) h = ground (arith, length-append memo (Arg.null ∷ []))
  length-reduce_step memo (f, some v) h =
      let (c, _, e) = bind-ok (convert J (type_of f) v) _ h in
      ground (arith, length-append memo (c ∷ []))

  length-reduce_params :
      (memo : List (Arg Num)) (ps : List (ParamField × Option (Arg Num))) {args : List (Arg Num)}
      → reduce_params J true memo ps ≡ ok args
      → length args ≡ length memo + length ps
  unfolding reduce_params
  length-reduce_params memo [] h = ground arith
  length-reduce_params memo (p ∷ ps) h =
      let (memo', first, later) = bind-ok (reduce_step J true memo p) _ h in
      omega (arith, length-reduce_step memo p first, length-reduce_params memo' ps later)

  -- Where empty values become null, a call gets one argument for each field, in order.
  pub length-transform_params :
      (fields : List ParamField) (inputs : List (Input Num)) {args : List (Arg Num)}
      → transform_params J true fields inputs ≡ ok args
      → length args ≡ length fields
  unfolding transform_params
  length-transform_params fields inputs h = omega (
    arith,
    length-reduce_params [] (with_values J fields (map (param_val J) inputs)) h,
    length-with_values fields (map (param_val J) inputs),
  )

  -- A value that is there is no null.
  abbrev HasArg : ParamField × Option (Arg Num) → Type 0
  HasArg (f, none) = Unit
  HasArg (f, some v) = is_arg v ≡ true

  or_null-HasArg : (f : ParamField) (v : Input Num) → HasArg (f, or_null J v)
  or_null-HasArg f (plain Scalar.undefined) = tt
  or_null-HasArg f (plain Scalar.null) = tt
  or_null-HasArg f (plain (Scalar.str [])) = tt
  or_null-HasArg f (plain (Scalar.str (c ∷ s))) = refl
  or_null-HasArg f (plain (Scalar.num n)) = elim (Bool-cases (J.truthy n)) [
    | inl h ↦ rw h refl
    | inr h ↦ rw h tt
  ]
  or_null-HasArg f (obj v) = refl

  with_values-HasArg :
      (fs : List ParamField) (vs : List (Input Num)) → All HasArg (with_values J fs vs)
  unfolding with_values
  with_values-HasArg [] vs = tt
  with_values-HasArg (f ∷ fs) [] = (tt, with_values-HasArg fs [])
  with_values-HasArg (f ∷ fs) (v ∷ vs) = (or_null-HasArg f v, with_values-HasArg fs vs)

  pub convert_text-is_arg : (type s : Text) → is_arg (convert_text J type s) ≡ true
  unfolding convert_text
  convert_text-is_arg type s = ground arith

  convert-is_arg :
      (type : Text) (v : Arg Num) {c : Arg Num}
      → is_arg v ≡ true
      → convert J type v ≡ ok c
      → is_arg c ≡ true
  unfolding convert
  convert-is_arg type (Arg.str s) hv h = ground (arith, convert_text-is_arg type s)
  convert-is_arg type v hv h = ground arith

  keep-concat :
      (memo : List (Arg Num)) (c : Arg Num)
      → is_arg c ≡ true
      → keep is_arg (memo ++ c ∷ []) ≡ keep is_arg memo ++ c ∷ []
  keep-concat memo c h = keep-append is_arg memo (c ∷ []) ∙ rw h refl

  reduce_step-keep :
      (memo : List (Arg Num)) (p : ParamField × Option (Arg Num))
      → HasArg p
      → reduce_step J false (keep is_arg memo) p
        ≡ map_result (keep is_arg) (reduce_step J true memo p)
  unfolding reduce_step
  reduce_step-keep memo (f, none) h =
      ap ok (sym (keep-append is_arg memo (Arg.null ∷ []) ∙ append-nil _))
  reduce_step-keep memo (f, some v) h = push (convert J (type_of f) v) refl
    where
      push :
          (r : Result (Arg Num))
          → convert J (type_of f) v ≡ r
          → (r >>= λ c. ok (keep is_arg memo ++ c ∷ []))
            ≡ map_result (keep is_arg) (r >>= λ c. ok (memo ++ c ∷ []))
      push (ok c) e = ap ok (sym (keep-concat memo c (convert-is_arg (type_of f) v h e)))
      push throws e = refl

  reduce_params-keep :
      (memo : List (Arg Num)) (ps : List (ParamField × Option (Arg Num)))
      → All HasArg ps
      → reduce_params J false (keep is_arg memo) ps
        ≡ map_result (keep is_arg) (reduce_params J true memo ps)
  unfolding reduce_params
  reduce_params-keep memo [] h = refl
  reduce_params-keep memo (p ∷ ps) (h, hs) =
      rw (reduce_step-keep memo p h)
        (push (λ m. reduce_params-keep m ps hs) (reduce_step J true memo p))
    where
      push :
          ((m : List (Arg Num))
            → reduce_params J false (keep is_arg m) ps
              ≡ map_result (keep is_arg) (reduce_params J true m ps))
          → (r : Result (List (Arg Num)))
          → (map_result (keep is_arg) r >>= λ m. reduce_params J false m ps)
            ≡ map_result (keep is_arg) (r >>= λ m. reduce_params J true m ps)
      push ih (ok m) = ih m
      push ih throws = refl

  -- An RPC call gets what a transaction with the same fields would get, less its nulls.
  pub transform_params-keep :
      (fields : List ParamField) (inputs : List (Input Num))
      → transform_params J false fields inputs
        ≡ map_result (keep is_arg) (transform_params J true fields inputs)
  unfolding transform_params
  transform_params-keep fields inputs =
      reduce_params-keep [] _ (with_values-HasArg fields (map (param_val J) inputs))

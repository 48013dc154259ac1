-- ===== src/TxButton/Params/Clean.antt =====
-- What the arguments of `transformParams` look like, and when a text input is lost.
use qrucial_dao.Common.{
  All, All-append, ◌≡◌, ◌≢◌, refl, Bool, true, false, Option, none, some, List, [], ◌∷◌, map, ◌||◌,
  Bool-cases, inl, inr,
}
use qrucial_dao.Common.Text.{Text, trim}
use qrucial_dao.Common.Text.Trim.{NoLead, NoTrail, NoLead-trim, NoTrail-trim}
use qrucial_dao.TxButton.{Numbers, Scalar, Input, plain, obj, ParamField, Arg, ok, throws}
use qrucial_dao.TxButton.Params.{
  param_val, or_null, with_values, convert_text, convert, reduce_step, reduce_params,
  transform_params, type_of, is_vec, is_num_type, parse_item, pieces,
}
use mathlib.Core.Path.{subst}
use qrucial_dao.TxButton.Params.Laws.{bind-ok, ok-injective}

-- No white space at either end.
abbrev pub IsTrimmed : Text → Type 0
IsTrimmed s = NoLead s × NoTrail s

pub IsTrimmed-trim : (s : Text) → IsTrimmed (trim s)
IsTrimmed-trim s = (NoLead-trim s, NoTrail-trim s)

-- An item of a vector argument, and an argument: its texts are trimmed, and a text that
-- stands alone is not empty.
abbrev pub IsCleanItem : {N : Type 0} → Scalar N → Type 0
IsCleanItem (Scalar.str s) = IsTrimmed s
IsCleanItem _ = Unit

abbrev pub IsClean : {N : Type 0} → Arg N → Type 0
IsClean (Arg.str s) = IsTrimmed s × (s ≢ [])
IsClean (Arg.vec items) = All IsCleanItem items
IsClean _ = Unit

-- An input that is a text, is missing, or holds a text.
abbrev pub IsText : {N : Type 0} → Input N → Type 0
IsText (plain (Scalar.num n)) = ⊥
IsText (plain v) = Unit
IsText (obj (Scalar.str s)) = Unit
IsText (obj v) = ⊥

throws-ne-ok : {A : Type 0} {a : A} → throws ≡ ok a → ⊥
throws-ne-ok h = cc

module _ (J : Numbers) where
  open J use {Num}

  parse_item-IsClean :
      (numeric : Bool) (s : Text) → IsTrimmed s → IsCleanItem (parse_item J numeric s)
  parse_item-IsClean true s h = tt
  parse_item-IsClean false s h = h

  items-IsClean :
      (numeric : Bool) (ps : List Text)
      → All IsCleanItem (map (λ e. parse_item J numeric (trim e)) ps)
  items-IsClean numeric [] = tt
  items-IsClean numeric (p ∷ ps) =
      (parse_item-IsClean numeric (trim p) (IsTrimmed-trim p), items-IsClean numeric ps)

  convert_text-IsClean : (type s : Text) → IsTrimmed s → s ≢ [] → IsClean (convert_text J type s)
  unfolding convert_text
  convert_text-IsClean type s h ne = elim (Bool-cases (is_vec type)) [
    | inl v ↦ rw v (items-IsClean (is_num_type type) (pieces s))
    | inr nv ↦ elim (Bool-cases (is_num_type type)) [
      | inl n ↦ rw (nv, n) tt
      | inr nn ↦ rw (nv, nn) (h, ne)
    ]
  ]

  abbrev HasClean : ParamField × Option (Arg Num) → Type 0
  HasClean (f, none) = Unit
  HasClean (f, some v) = IsClean v

  convert-IsClean :
      (type : Text) (v : Arg Num) {c : Arg Num} → IsClean v → convert J type v ≡ ok c → IsClean c
  unfolding convert
  convert-IsClean type (Arg.str s) h e =
      subst IsClean (ok-injective e) (convert_text-IsClean type s h.0 h.1)
  convert-IsClean type v h e = elim (Bool-cases (is_vec type || is_num_type type)) [
    | inl t ↦ absurd (throws-ne-ok (rw t at e))
    | inr nt ↦ subst IsClean (ok-injective (rw nt at e)) h
  ]

  or_null_text-HasClean :
      (f : ParamField) (t : Text) → IsTrimmed t → HasClean (f, or_null J (plain (Scalar.str t)))
  or_null_text-HasClean f [] h = tt
  or_null_text-HasClean f (c ∷ t) h = (h, λ e. cc)

  or_null-HasClean : (f : ParamField) (i : Input Num) → HasClean (f, or_null J (param_val J i))
  unfolding param_val
  or_null-HasClean f (plain Scalar.undefined) = tt
  or_null-HasClean f (plain Scalar.null) = tt
  or_null-HasClean f (plain (Scalar.str s)) = or_null_text-HasClean f (trim s) (IsTrimmed-trim s)
  or_null-HasClean f (plain (Scalar.num n)) = elim (Bool-cases (J.truthy n)) [
    | inl h ↦ rw h tt
    | inr h ↦ rw h tt
  ]
  or_null-HasClean f (obj (Scalar.str s)) = or_null_text-HasClean f (trim s) (IsTrimmed-trim s)
  or_null-HasClean f (obj _) = tt

  with_values-HasClean :
      (fs : List ParamField) (is : List (Input Num))
      → All HasClean (with_values J fs (map (param_val J) is))
  unfolding with_values
  with_values-HasClean [] is = tt
  with_values-HasClean (f ∷ fs) [] = (tt, with_values-HasClean fs [])
  with_values-HasClean (f ∷ fs) (i ∷ is) = (or_null-HasClean f i, with_values-HasClean fs is)

  reduce_step-IsClean :
      (b : Bool) (memo : List (Arg Num)) (p : ParamField × Option (Arg Num))
      {memo' : List (Arg Num)}
      → All IsClean memo
      → HasClean p
      → reduce_step J b memo p ≡ ok memo'
      → All IsClean memo'
  unfolding reduce_step
  reduce_step-IsClean true memo (f, none) hm hp e =
      subst (All IsClean) (ok-injective e) (All-append IsClean memo _ hm (tt, tt))
  reduce_step-IsClean false memo (f, none) hm hp e = subst (All IsClean) (ok-injective e) hm
  reduce_step-IsClean b memo (f, some v) hm hp h =
      let (c, first, e) = bind-ok (convert J (type_of f) v) _ h in
      subst (All IsClean) (ok-injective e)
        (All-append IsClean memo _ hm (convert-IsClean (type_of f) v hp first, tt))

  reduce_params-IsClean :
      (b : Bool) (memo : List (Arg Num)) (ps : List (ParamField × Option (Arg Num)))
      {args : List (Arg Num)}
      → All IsClean memo
      → All HasClean ps
      → reduce_params J b memo ps ≡ ok args
      → All IsClean args
  unfolding reduce_params
  reduce_params-IsClean b memo [] hm hp e = subst (All IsClean) (ok-injective e) hm
  reduce_params-IsClean b memo (p ∷ ps) hm (hp, hps) h =
      let (memo', first, later) = bind-ok (reduce_step J b memo p) _ h in
      reduce_params-IsClean b memo' ps (reduce_step-IsClean b memo p hm hp first) hps later

  -- No text that is sent, alone or in a vector, has white space at an end, and none that stands
  -- alone is empty.
  pub transform_params-IsClean :
      (b : Bool) (fields : List ParamField) (inputs : List (Input Num)) {args : List (Arg Num)}
      → transform_params J b fields inputs ≡ ok args
      → All IsClean args
  unfolding transform_params
  transform_params-IsClean b fields inputs h =
      reduce_params-IsClean b [] _ tt (with_values-HasClean fields inputs) h

  -- Where every input is a text, the values are texts or missing.
  abbrev HasText : ParamField × Option (Arg Num) → Type 0
  HasText (f, none) = Unit
  HasText (f, some (Arg.str s)) = Unit
  HasText (f, some v) = ⊥

  or_null_text-HasText : (f : ParamField) (t : Text) → HasText (f, or_null J (plain (Scalar.str t)))
  or_null_text-HasText f [] = tt
  or_null_text-HasText f (c ∷ t) = tt

  or_null-HasText :
      (f : ParamField) (i : Input Num) → IsText i → HasText (f, or_null J (param_val J i))
  unfolding param_val
  or_null-HasText f (plain Scalar.undefined) h = tt
  or_null-HasText f (plain Scalar.null) h = tt
  or_null-HasText f (plain (Scalar.str s)) h = or_null_text-HasText f (trim s)
  or_null-HasText f (plain (Scalar.num n)) h = elim h [ ]
  or_null-HasText f (obj (Scalar.str s)) h = or_null_text-HasText f (trim s)
  or_null-HasText f (obj _) h = elim h [ ]

  with_values-HasText :
      (fs : List ParamField) (is : List (Input Num))
      → All IsText is
      → All HasText (with_values J fs (map (param_val J) is))
  unfolding with_values
  with_values-HasText [] is h = tt
  with_values-HasText (f ∷ fs) [] h = (tt, with_values-HasText fs [] tt)
  with_values-HasText (f ∷ fs) (i ∷ is) (h, hs) =
      (or_null-HasText f i h, with_values-HasText fs is hs)

  reduce_step_total :
      (b : Bool) (memo : List (Arg Num)) (p : ParamField × Option (Arg Num))
      → HasText p
      → (memo' : List (Arg Num)) × (reduce_step J b memo p ≡ ok memo')
  unfolding reduce_step convert
  reduce_step_total b memo (f, none) h = (_, refl)
  reduce_step_total b memo (f, some (Arg.str s)) h = (_, refl)
  reduce_step_total b memo (f, some _) h = elim h [ ]

  reduce_params_total :
      (b : Bool) (memo : List (Arg Num)) (ps : List (ParamField × Option (Arg Num)))
      → All HasText ps
      → (args : List (Arg Num)) × (reduce_params J b memo ps ≡ ok args)
  unfolding reduce_params
  reduce_params_total b memo [] h = (memo, refl)
  reduce_params_total b memo (p ∷ ps) (h, hs) =
      let (memo', e) = reduce_step_total b memo p h in rw e (reduce_params_total b memo' ps hs)

  -- On inputs that are texts, or missing, no field's type makes the conversion throw.
  pub transform_params_total :
      (b : Bool) (fields : List ParamField) (inputs : List (Input Num))
      → All IsText inputs
      → (args : List (Arg Num)) × (transform_params J b fields inputs ≡ ok args)
  unfolding transform_params
  transform_params_total b fields inputs h =
      reduce_params_total b [] _ (with_values-HasText fields inputs h)

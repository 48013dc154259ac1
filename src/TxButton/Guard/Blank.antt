-- ===== src/TxButton/Guard/Blank.antt =====
-- What becomes of the required parameters of an enabled button.
use mathlib.Core.Path.{subst, ap₂}
use qrucial_dao.Common.{
  and_split, some_injective, none-ne-some, ◌⊎◌, ℕ, zero, suc, ◌≡◌, ◌↔◌, refl, sym, ap, ◌∙◌, true,
  false, some, List, [], ◌∷◌, map, arith, get_elem?, inl, inr,
}
use qrucial_dao.Common.Text.{Text, trim}
use qrucial_dao.Common.Text.Trim.{IsBlank, trim-blank, IsBlank-of_trim}
use qrucial_dao.TxButton.{Numbers, Scalar, Input, plain, obj, ParamField, Arg, ok}
use qrucial_dao.TxButton.Params.{
  param_val, or_null, with_values, transform_params, convert, type_of,
}
use qrucial_dao.TxButton.Params.Laws.{ok-injective, convert_text-is_arg}
use qrucial_dao.TxButton.Params.Collect.{transform_params-collect, get_elem?-collect, arg_for}
use qrucial_dao.TxButton.Guard.{param_filled, all_params_filled, has_value, value_of, is_nullish}

filled_required :
    {N : Type 0} (f : ParamField) (v : Input N)
    → param_filled f v ≡ true
    → f.optional ≡ false
    → (is_nullish v ≡ false) × (has_value (value_of v) ≡ true)
unfolding param_filled
filled_required f v h o = ground arith

all_params_filled-nil :
    (N : Type 0) (fs : List ParamField) (i : ℕ) (f : ParamField)
    → all_params_filled {N = N} fs [] ≡ true
    → get_elem? fs i ≡ some f
    → f.optional ≡ false
    → ⊥
unfolding all_params_filled param_filled
all_params_filled-nil N [] i f h g o = none-ne-some g
all_params_filled-nil N (x ∷ fs) zero f h g o = ground arith
all_params_filled-nil N (x ∷ fs) (suc i) f h g o =
    all_params_filled-nil N fs i f (and_split h).1 g o

-- A filled form has a value for each field that is not optional.
pub all_params_filled-get :
    {N : Type 0} (fs : List ParamField) (is : List (Input N)) (i : ℕ) (f : ParamField)
    → all_params_filled fs is ≡ true
    → get_elem? fs i ≡ some f
    → f.optional ≡ false
    → (v : Input N) × (get_elem? is i ≡ some v)
      × (is_nullish v ≡ false)
      × (has_value (value_of v) ≡ true)
unfolding all_params_filled param_filled
all_params_filled-get [] is i f h g o = absurd (none-ne-some g)
all_params_filled-get {N} (x ∷ fs) [] i f h g o =
    absurd (all_params_filled-nil N (x ∷ fs) i f h g o)
all_params_filled-get (x ∷ fs) (v ∷ is) zero f h g o =
    let (present, valued) =
      filled_required x v (and_split h).0 (ap (λ r. r.optional) (some_injective g) ∙ o) in
    (v, refl, present, valued)
all_params_filled-get (x ∷ fs) (v ∷ is) (suc i) f h g o =
    all_params_filled-get fs is i f (and_split h).1 g o

module _ (J : Numbers) where
  open J use {Num}

  -- The text of an input that is or holds one.
  abbrev pub Holds : Text → Input Num → Type 0
  Holds s v = (v ≡ plain (Scalar.str s)) ⊎ (v ≡ obj (Scalar.str s))

  get_elem?-with_values :
      (fs : List ParamField) (is : List (Input Num)) (i : ℕ) {f : ParamField} {v : Input Num}
      → get_elem? fs i ≡ some f
      → get_elem? is i ≡ some v
      → get_elem? (with_values J fs (map (param_val J) is)) i ≡ some (f, or_null J (param_val J v))
  unfolding with_values
  get_elem?-with_values [] is i g k = absurd (none-ne-some g)
  get_elem?-with_values (x ∷ fs) [] i g k = absurd (none-ne-some k)
  get_elem?-with_values (x ∷ fs) (w ∷ is) zero g k =
      ap₂ (λ f v. some (f, or_null J (param_val J v))) (some_injective g) (some_injective k)
  get_elem?-with_values (x ∷ fs) (w ∷ is) (suc i) g k = get_elem?-with_values fs is i g k

  or_null-text :
      (s : Text) (v : Input Num)
      → Holds s v
      → or_null J (param_val J v) ≡ or_null J (plain (Scalar.str (trim s)))
  unfolding param_val
  or_null-text s v (inl e) = rw e refl
  or_null-text s v (inr e) = rw e refl

  arg_for-null :
      (f : ParamField) (t : Text) {a : Arg Num}
      → arg_for J (f, or_null J (plain (Scalar.str t))) ≡ ok a
      → (a ≡ Arg.null) ↔ (t ≡ [])
  unfolding convert
  arg_for-null f [] h = (λ _. refl, λ _. sym (ok-injective h))
  arg_for-null f (c ∷ t) h =
      (λ e. ground (arith, convert_text-is_arg J (type_of f) (c ∷ t)), λ e. cc)

  -- In a call with empty values as null, the argument for a text is null exactly when the
  -- text is blank, white space alone included.
  pub transform_params-IsBlank :
      (fields : List ParamField) (inputs : List (Input Num)) (i : ℕ) (s : Text) {f : ParamField}
      {v : Input Num} {args : List (Arg Num)}
      → transform_params J true fields inputs ≡ ok args
      → get_elem? fields i ≡ some f
      → get_elem? inputs i ≡ some v
      → Holds s v
      → (get_elem? args i ≡ some Arg.null) ↔ IsBlank s
  transform_params-IsBlank fields inputs i s {f} {v} h gf gv held =
      let (a, there, made) =
        get_elem?-collect J _ i _ (sym (transform_params-collect J fields inputs) ∙ h)
          (get_elem?-with_values fields inputs i gf gv) in
      let (to, from) =
        arg_for-null f (trim s)
          (subst (λ r. arg_for J (f, r) ≡ ok a) (or_null-text s v held) made) in
      (
        λ e. IsBlank-of_trim s (to (some_injective (sym there ∙ e))),
        λ b. there ∙ ap some (from (trim-blank s b)),
      )

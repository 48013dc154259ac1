-- ===== src/Interactor/Laws.antt =====
-- The form agrees with the fields that are drawn.
use qrucial_dao.Common.{
  ℕ, zero, suc, ◌≡◌, ◌≤◌, ◌<◌, refl, sym, ap, ◌∙◌, true, false, ◌==◌, ==_iff, Option, some, List,
  [], ◌∷◌, length, get_elem?, assign, slot, slot-assign, length-assign-le, Bool-cases, inl, inr,
  arith, some_injective, none-ne-some,
}
use qrucial_dao.Common.Text.{Text}
use qrucial_dao.TxButton.{ParamField}
use qrucial_dao.Interactor.{
  InterxType, extrinsic, Metadata, param_fields, InputParam, FormState, init_form_state, param,
  pallet_rpc, callable, on_change, on_interx_type_change,
}

pub record Page : Type 0 where
  pub interx_type : InterxType
  pub form : FormState

-- The fields of a page, which its effect sets before the user can write.
abbrev pub fields_of : Metadata → Page → List ParamField
fields_of m p = param_fields m p.interx_type p.form.pallet_rpc p.form.callable

-- The pages that a user reaches; an input belongs to a field that is drawn.
pub data Reach (m : Metadata) : Page → Type 0 where
  begin : Reach m (record { interx_type = extrinsic; form = init_form_state })
  choose_type :
      (t : InterxType) {p : Page}
      → Reach m p
      → Reach m
          (record { interx_type = (on_interx_type_change t).0; form = (on_interx_type_change t).1 })
  choose_pallet :
      (v : Text) {p : Page}
      → Reach m p
      → Reach m (record p { form = on_change (pallet_rpc v) p.form })
  choose_callable :
      (v : Text) {p : Page}
      → Reach m p
      → Reach m (record p { form = on_change (callable v) p.form })
  write :
      (i : ℕ) (f : ParamField) (v : Text) {p : Page}
      → get_elem? (fields_of m p) i ≡ some f
      → Reach m p
      → Reach m (record p { form = on_change (param i f v) p.form })

-- No more inputs than fields, and each has the type of its field.
abbrev pub IsValid : Metadata → Page → Type 0
IsValid m p =
    (length p.form.input_params ≤ length (fields_of m p))
    × ((i : ℕ) (x : InputParam)
        → slot i p.form.input_params ≡ some x
        → (f : ParamField) × (get_elem? (fields_of m p) i ≡ some f) × (x.type ≡ f.type))

get_elem?-lt {ℓ} :
    {A : Type ℓ} (xs : List A) (i : ℕ) (x : A) → get_elem? xs i ≡ some x → i < length xs
get_elem?-lt [] i x e = absurd (none-ne-some e)
get_elem?-lt (y ∷ xs) zero x e = omega arith
get_elem?-lt (y ∷ xs) (suc i) x e = omega (arith, get_elem?-lt xs i x e)

slot-assign_here :
    (i j : ℕ) (w x : InputParam) (xs : List (Option InputParam))
    → (j == i) ≡ true
    → slot j (assign i w xs) ≡ some x
    → x ≡ w
slot-assign_here i j w x xs here e =
    sym (some_injective (sym (slot-assign i j w xs ∙ rw here refl) ∙ e))

slot-assign_there :
    (i j : ℕ) (w : InputParam) (xs : List (Option InputParam))
    → (j == i) ≡ false
    → slot j (assign i w xs) ≡ slot j xs
slot-assign_there i j w xs there = slot-assign i j w xs ∙ rw there refl

-- On every page the inputs are no more than the fields that are drawn, and the input at a place
-- has the type of the field at that place: choosing another kind, pallet or callable leaves none
-- of the old ones.
pub inputs_typed : {m : Metadata} {p : Page} → Reach m p → IsValid m p
unfolding on_change on_interx_type_change
inputs_typed begin = (omega arith, λ i x e. absurd (none-ne-some e))
inputs_typed (choose_type t r) = (omega arith, λ i x e. absurd (none-ne-some e))
inputs_typed (choose_pallet v r) = (omega arith, λ i x e. absurd (none-ne-some e))
inputs_typed (choose_callable v r) = (omega arith, λ i x e. absurd (none-ne-some e))
inputs_typed {m} (write i f v {p} at r) =
    let (few, typed) = inputs_typed r in
    (
      length-assign-le i (length (fields_of m p)) (record { type = f.type; value = v })
          p.form.input_params (get_elem?-lt (fields_of m p) i f at) few,
      λ j x e. elim (Bool-cases (j == i)) [
        | inl here ↦ (
          f,
          rw ((==_iff j i).0 here) at,
          ap (λ w. w.type)
              (slot-assign_here i j (record { type = f.type; value = v }) x p.form.input_params here
                e),
        )
        | inr there ↦ typed j x (
            sym (
              slot-assign_there i j (record { type = f.type; value = v }) p.form.input_params there)
            ∙ e)
      ],
    )

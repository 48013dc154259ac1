-- ===== src/Forms/Validation/Errors.antt =====
-- Which errors a form shows (useFormValidation.js).
use mathlib.Core.Path.{ap₂}
use qrucial_dao.Common.{
  ◌≡◌, ◌↔◌, inl, inr, refl, sym, ap, ◌∙◌, Bool, true, false, ◌&&◌, some, [], ◌∷◌, arith, Bool-cases,
  some_injective, none-ne-some, and_split,
}
use qrucial_dao.Common.Text.{Text, text_eq, text_eq→eq, text_eq_refl}
use qrucial_dao.Forms.{FormValue, truthy, Object, get, put}
use qrucial_dao.Forms.Validation.Laws.{Accepts, validate-cons, check_iff}
use qrucial_dao.Forms.Validation.{rule, check, validate, Hook, handle_blur, show_error, is_true}

get-put_self : {V : Type 0} (key : Text) (v : V) (o : Object V) → get key (put key v o) ≡ some v
unfolding get put
get-put_self key v [] = rw (text_eq_refl key) refl
get-put_self key v ((k, w) ∷ o) = elim (Bool-cases (text_eq k key)) [
  | inl e ↦ rw (e, e) refl
  | inr e ↦ rw (e, e) (get-put_self key v o)
]

get-validate :
    (field : Text) (v : FormValue) (o : Object FormValue) {es : Object Bool}
    → validate o ≡ some es
    → get field o ≡ some v
    → (bad : Bool) × (check (rule field) v ≡ some bad) × (get field es ≡ some bad)
unfolding get
get-validate field v [] h g = absurd (none-ne-some g)
get-validate field v ((k, w) ∷ o) h g =
    let (bad, rest, c, r, e) = validate-cons k w o h in
    elim (Bool-cases (text_eq k field)) [
      | inl same ↦ (
        bad,
        ap₂ (λ f x. check (rule f) x) (sym (text_eq→eq k field same))
              (sym (some_injective (rw same at g)))
            ∙ c,
        ap (get field) e ∙ rw same refl,
      )
      | inr other ↦
          let (bad', c', g') = get-validate field v o r (rw other at g) in
          (bad', c', ap (get field) e ∙ rw other g')
    ]

show_error_of :
    (o : Object FormValue) (h : Hook) (field : Text) (bad : Bool) (v : FormValue)
    → get field h.errors ≡ some bad
    → get field h.touched ≡ some true
    → get field o ≡ some v
    → show_error o h field ≡ (bad && truthy v)
unfolding show_error
show_error_of o h field true v e t g = rw (e, t, g) refl
show_error_of o h field false v e t g = rw e refl

true-ne-false : true ≡ false → ⊥
true-ne-false e = cc

bad_and_iff :
    (A : Type 0) (bad t : Bool)
    → (bad ≡ false → A)
    → (A → bad ≡ false)
    → ((bad && t) ≡ true) ↔ ((t ≡ true) × (¬ A))
bad_and_iff A bad t to from = (
  λ h. let (b, present) = and_split h in (present, λ a. true-ne-false (sym b ∙ from a)),
  λ (present, refused). elim (Bool-cases bad) [
    | inl b ↦ rw (b, present) refl
    | inr b ↦ absurd (refused (to b))
  ],
)

-- Once a field was left, its error is shown exactly while its value is there and not accepted;
-- the errors are those of the last validation.
pub show_error-handle_blur :
    (o : Object FormValue) (h : Hook) (field : Text) (v : FormValue)
    → validate o ≡ some h.errors
    → get field o ≡ some v
    → (show_error o (handle_blur field h) field ≡ true)
      ↔ ((truthy v ≡ true) × (¬ Accepts (rule field) v))
unfolding handle_blur
show_error-handle_blur o h field v e g =
    let (bad, c, b) = get-validate field v o e g in
    let (to, from) = check_iff (rule field) v c in
    let shown =
      show_error_of o (handle_blur field h) field bad v b (get-put_self field true h.touched) g in
    let (there, back) = bad_and_iff (Accepts (rule field) v) bad (truthy v) to from in
    (λ s. there (sym shown ∙ s), λ n. shown ∙ back n)

-- No field shows an error before it was left.
pub show_error-untouched :
    (o : Object FormValue) (h : Hook) (field : Text)
    → is_true (get field h.touched) ≡ false
    → show_error o h field ≡ false
unfolding show_error
show_error-untouched o h field t = ground arith

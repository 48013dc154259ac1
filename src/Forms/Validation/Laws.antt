-- ===== src/Forms/Validation/Laws.antt =====
-- When a form can be sent (useFormValidation.js).
use qrucial_dao.Common.{
  ℕ, ◌<◌, ◌≡◌, ◌≢◌, ◌↔◌, ◌⊎◌, inl, inr, refl, sym, ap, ◌∙◌, Bool, true, false, not, ◌&&◌, ◌||◌,
  Option, none, some, [], ◌∷◌, if◌then◌else◌, length, arith, All, Bool-cases, some_injective,
  none-ne-some, and_split,
}
use qrucial_dao.Common.Text.{Text}
use qrucial_dao.Common.Regex.{one, star, test}
use qrucial_dao.Common.Regex.Language.{Matches, Pieces, done, more, All-Matches, test_iff}
use qrucial_dao.Forms.{FormValue, undefined, null, text, number, to_text, truthy, Object}
use qrucial_dao.Forms.Validation.Url.{url_regex}
use qrucial_dao.Forms.Validation.{
  is_allowed, allowed_chars, is_valid_url, Rule, required_url, optional_url, hash_length, plain,
  rule, check, validate, Hook, is_disabled, revalidate,
}

Pieces-one : (p : ℕ → Bool) (s : Text) → All (λ c. p c ≡ true) s → Pieces (Matches (one p)) s
Pieces-one p [] h = done refl
Pieces-one p (c ∷ s) (h, hs) = more (c ∷ []) s (c, refl, h) (Pieces-one p s hs) refl

-- `^[...]*$` asks the class of each code unit.
pub test-star_one :
    (p : ℕ → Bool) (s : Text) → (test (star (one p)) s ≡ true) ↔ All (λ c. p c ≡ true) s
test-star_one p s = (
  λ h. All-Matches (λ c. p c ≡ true) (star (one p)) s (λ c h. h) ((test_iff _ s).0 h),
  λ h. (test_iff (star (one p)) s).1 (Pieces-one p s h),
)

-- What each rule accepts.
abbrev pub Accepts : Rule → FormValue → Type 0
Accepts required_url v = Matches url_regex (to_text v)
Accepts optional_url v = truthy v ≡ true → Matches url_regex (to_text v)
Accepts hash_length v = (s : Text) × (v ≡ text s) × (63 < length s)
Accepts plain v = (v ≡ text []) ⊎ ((truthy v ≡ true) × All (λ c. is_allowed c ≡ true) (to_text v))

not-eq-false_iff : (b : Bool) → (not b ≡ false) ↔ (b ≡ true)
not-eq-false_iff true = (λ h. refl, λ h. refl)
not-eq-false_iff false = (λ h. cc, λ h. cc)

some-eq : {b c : Bool} → some b ≡ some c → (c ≡ false) ↔ (b ≡ false)
some-eq e = (λ h. some_injective e ∙ h, λ h. sym (some_injective e) ∙ h)

check-required : (v : FormValue) → (not (is_valid_url v) ≡ false) ↔ Accepts required_url v
unfolding is_valid_url
check-required v =
    let (to, from) = test_iff url_regex (to_text v) in
    let (to', from') = not-eq-false_iff (test url_regex (to_text v)) in
    (λ h. to (to' h), λ m. from' (from m))

check-optional :
    (v : FormValue)
    → (not (if truthy v then is_valid_url v else true) ≡ false) ↔ Accepts optional_url v
check-optional v = elim (Bool-cases (truthy v)) [
  | inl t ↦ let (to, from) = check-required v in (λ h _. to (rw t at h), λ m. rw t (from (m t)))
  | inr f ↦ (λ _ t. absurd (false-ne-true (sym f ∙ t)), λ _. rw f refl)
]
  where
    false-ne-true : false ≡ true → ⊥
    false-ne-true e = cc

check-plain_some :
    (v : FormValue)
    → v ≢ text []
    → (not (truthy v && test (star (one is_allowed)) (to_text v)) ≡ false) ↔ Accepts plain v
check-plain_some v ne =
    let (to, from) = test-star_one is_allowed (to_text v) in
    let (to', from') = not-eq-false_iff (truthy v && test (star (one is_allowed)) (to_text v)) in
    (λ h. let (t, a) = and_split (to' h) in inr (t, to a), pick ne (λ t a. from' (rw t (from a))))
  where
    pick :
        {P : Type 0}
        → v ≢ text []
        → (truthy v ≡ true → All (λ c. is_allowed c ≡ true) (to_text v) → P)
        → Accepts plain v
        → P
    pick ne k (inl e) = absurd (ne e)
    pick ne k (inr (t, a)) = k t a

check-plain : (v : FormValue) → (not (allowed_chars v) ≡ false) ↔ Accepts plain v
unfolding allowed_chars
check-plain (text []) = (λ h. inl refl, λ h. refl)
check-plain (text (c ∷ s)) = check-plain_some (text (c ∷ s)) (λ e. cc)
check-plain undefined = check-plain_some undefined (λ e. cc)
check-plain null = check-plain_some null (λ e. cc)
check-plain (number n) = check-plain_some (number n) (λ e. cc)

text_injective : (s t : Text) → text s ≡ text t → s ≡ t
text_injective s t e = cc

check-hash :
    (v : FormValue) {bad : Bool}
    → check hash_length v ≡ some bad
    → (bad ≡ false) ↔ Accepts hash_length v
unfolding check
check-hash (text s) h =
    (λ b. (s, refl, ground arith), λ (t, e, l). ground (arith, text_injective s t))
check-hash (number n) h = (λ b. ground arith, λ (t, e, l). absurd (number-ne-text e))
  where
    number-ne-text : {t : Text} → number n ≡ text t → ⊥
    number-ne-text e = cc
check-hash undefined h = absurd (none-ne-some h)
check-hash null h = absurd (none-ne-some h)

-- A value is no error exactly where its rule accepts it.
pub check_iff :
    (r : Rule) (v : FormValue) {bad : Bool} → check r v ≡ some bad → (bad ≡ false) ↔ Accepts r v
unfolding check
check_iff required_url v h =
    let (to, from) = check-required v in let (a, b) = some-eq h in (λ e. to (a e), λ m. b (from m))
check_iff optional_url v h =
    let (to, from) = check-optional v in let (a, b) = some-eq h in (λ e. to (a e), λ m. b (from m))
check_iff hash_length v h = check-hash v h
check_iff plain v h =
    let (to, from) = check-plain v in let (a, b) = some-eq h in (λ e. to (a e), λ m. b (from m))

-- What `validate` of an object is made of.
pub validate-cons :
    (key : Text) (v : FormValue) (o : Object FormValue) {es : Object Bool}
    → validate ((key, v) ∷ o) ≡ some es
    → (bad : Bool) × (rest : Object Bool) × (check (rule key) v ≡ some bad)
      × (validate o ≡ some rest)
      × (es ≡ (key, bad) ∷ rest)
unfolding validate
validate-cons key v o {es} h = split (check (rule key) v) (validate o) refl refl h
  where
    split :
        (c : Option Bool) (r : Option (Object Bool))
        → check (rule key) v ≡ c
        → validate o ≡ r
        → (elim c [
          | none ↦ none
          | some bad ↦ elim r [ none ↦ none | some errors ↦ some ((key, bad) ∷ errors) ]
        ])
          ≡ some es
        → (bad : Bool) × (rest : Object Bool) × (check (rule key) v ≡ some bad)
          × (validate o ≡ some rest)
          × (es ≡ (key, bad) ∷ rest)
    split none r ec er e = absurd (none-ne-some e)
    split (some bad) none ec er e = absurd (none-ne-some e)
    split (some bad) (some rest) ec er e = (bad, rest, ec, er, sym (some_injective e))

or_false : {a b : Bool} → (a || b) ≡ false → (a ≡ false) × (b ≡ false)
or_false h = ground arith

abbrev pub AllAccepted : Object FormValue → Type 0
AllAccepted = All (λ e. Accepts (rule e.0) e.1)

validate_iff :
    (o : Object FormValue) {es : Object Bool}
    → validate o ≡ some es
    → (is_disabled es ≡ false) ↔ AllAccepted o
unfolding validate
validate_iff [] h = (λ _. tt, λ _. ap is_disabled (sym (some_injective h)))
validate_iff ((key, v) ∷ o) h =
    let (bad, rest, c, r, e) = validate-cons key v o h in
    let (to, from) = check_iff (rule key) v c in
    let (to', from') = validate_iff o r in
    (
      λ d. let (b, ds) = or_false (ap is_disabled (sym e) ∙ d) in (to b, to' ds),
      λ a. ap is_disabled e ∙ both_false bad (is_disabled rest) (from a.0) (from' a.1),
    )
  where
    both_false : (a b : Bool) → a ≡ false → b ≡ false → (a || b) ≡ false
    both_false a b p q = rw (p, q) refl

-- The form can be sent exactly when every field is accepted by the rule of its name.
pub revalidate-disabled_iff :
    (o : Object FormValue) (h : Hook) {h' : Hook}
    → revalidate o h ≡ some h'
    → (h'.disabled ≡ false) ↔ AllAccepted o
unfolding revalidate
revalidate-disabled_iff o h {h'} e = split (validate o) refl e
  where
    split :
        (r : Option (Object Bool))
        → validate o ≡ r
        → (elim r [
          | none ↦ none
          | some errors ↦ some (record h { errors = errors; disabled = is_disabled errors })
        ])
          ≡ some h'
        → (h'.disabled ≡ false) ↔ AllAccepted o
    split none er e' = absurd (none-ne-some e')
    split (some es) er e' =
        let (to, from) = validate_iff o er in
        let same : is_disabled es ≡ h'.disabled =
          ap (λ (x : Hook). x.disabled) (some_injective e') in
        (λ d. to (same ∙ d), λ a. sym same ∙ from a)

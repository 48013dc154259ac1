-- ===== src/Interactor/Menus/Laws.antt =====
-- What the menus of the interactor offer.
use qrucial_dao.Common.{
  ◌≡◌, refl, sym, ap, ◌∙◌, ◌&&◌, Bool, true, false, true≢false, and_split, List, [], ◌∷◌, keep,
  if◌then◌else◌, Bool-cases, inl, inr, arith,
}
use qrucial_dao.Common.Text.{Text, is_empty, text_eq, text_eq→eq}
use qrucial_dao.Common.Text.Order.{sort, IsSorted, sort-IsSorted, keep-IsSorted, count, count-sort}
use qrucial_dao.Interactor.{
  FormState, InterxType, query, extrinsic, rpc, constant, Metadata, param_fields, Change, on_change,
  on_interx_type_change,
}
use qrucial_dao.Interactor.Menus.{
  Keys, has_some, pallet_options, callable_options, State, update_pallet_rpcs, update_callables,
  update_param_fields, is_type, first_effects, pallets_effect, callables_effect, fields_effect,
  effects, first, opening, change, change_type,
}

count-keep :
    (p : Text → Bool) (x : Text) (xs : List Text)
    → count x (keep p xs) ≡ (if p x then count x xs else 0)
count-keep p x [] = ground arith
count-keep p x (y ∷ xs) = elim (Bool-cases (text_eq x y)) [
  | inl eq ↦ rw (← text_eq→eq x y eq) (ground (arith, count-keep p x xs))
  | inr ne ↦ ground (arith, count-keep p x xs)
]

-- The menu of the pallets is sorted by code units, and has a pallet as often as the api where the
-- pallet has a callable, and not at all where it has none.
pallet_options-IsSorted :
    (api : Keys) (t : InterxType)
    → IsSorted (pallet_options api t)
      × ((x : Text)
          → count x (pallet_options api t)
            ≡ (if has_some (api.callables t x) then count x (api.pallets t) else 0))
unfolding pallet_options
pallet_options-IsSorted api t = (
  keep-IsSorted (λ p. has_some (api.callables t p)) (sort (api.pallets t))
      (sort-IsSorted (api.pallets t)),
  λ x.
      count-keep (λ p. has_some (api.callables t p)) x (sort (api.pallets t))
      ∙ ap (λ n. if has_some (api.callables t x) then n else 0) (count-sort x (api.pallets t)),
)

-- The states of the page.
pub data Reach (api : Keys) (m : Metadata) : State → Type 0 where
  opened : Reach api m (opening api m)
  changed : (c : Change) {s : State} → Reach api m s → Reach api m (change api m c s)
  type_changed : (t : InterxType) {s : State} → Reach api m s → Reach api m (change_type api m t s)

-- The menus and the fields are those of the type, the pallet and the callable of the form.
pub record IsFilled (api : Keys) (m : Metadata) (s : State) : Type 0 where
  pub sorted : IsSorted s.pallet_rpcs
  pub each :
      (x : Text)
      → count x s.pallet_rpcs ≡ (
          if has_some (api.callables s.interx_type x)
          then count x (api.pallets s.interx_type)
          else 0)
  pub callables :
      is_empty s.form.pallet_rpc ≡ false
      → s.callables ≡ callable_options api s.interx_type s.form.pallet_rpc
  pub fields : s.param_fields ≡ param_fields m s.interx_type s.form.pallet_rpc s.form.callable

first_effects-IsFilled :
    (api : Keys) (m : Metadata) (s : State) → IsFilled api m (first_effects api m s)
unfolding first_effects update_pallet_rpcs update_callables update_param_fields
first_effects-IsFilled api m s =
    let (sorted, each) = pallet_options-IsSorted api s.interx_type in
    elim (Bool-cases (is_empty s.form.pallet_rpc)) [
      | inl no_pallet ↦ rw no_pallet (record {
        sorted = sorted;
        each = each;
        callables = λ h. absurd (true≢false (sym no_pallet ∙ h));
        fields = refl;
      })
      | inr pallet ↦
          rw pallet (record { sorted = sorted; each = each; callables = λ _. refl; fields = refl })
    ]

is_type-eq : (t u : InterxType) → is_type t u ≡ true → t ≡ u
is_type-eq query query h = refl
is_type-eq extrinsic extrinsic h = refl
is_type-eq rpc rpc h = refl
is_type-eq constant constant h = refl
is_type-eq _ _ h = cc

-- A change of the form and of the type, before the effects.
abbrev pub edited : InterxType → FormState → State → State
edited t f s = record s { interx_type = t; form = f }

module _ (api : Keys) (m : Metadata) (t : InterxType) (f : FormState) (s : State) where
  unfoldable after : State
  unfolding effects
  after = effects api m s (edited t f s)

  form-after : (after.interx_type ≡ t) × (after.form ≡ f)
  unfolding after effects pallets_effect callables_effect fields_effect update_pallet_rpcs
      update_callables update_param_fields
  form-after = ground arith

  pallet_rpcs-after :
      after.pallet_rpcs ≡ (if is_type s.interx_type t then s.pallet_rpcs else pallet_options api t)
  unfolding after effects pallets_effect callables_effect fields_effect update_pallet_rpcs
      update_callables update_param_fields
  pallet_rpcs-after = ground arith

  callables-after : after.callables ≡ (
      if is_type s.interx_type t && text_eq s.form.pallet_rpc f.pallet_rpc
      then s.callables
      else if is_empty f.pallet_rpc
      then s.callables
      else callable_options api t f.pallet_rpc)
  unfolding after effects pallets_effect callables_effect fields_effect update_pallet_rpcs
      update_callables update_param_fields
  callables-after = ground arith

  param_fields-after : after.param_fields ≡ (
      if (is_type s.interx_type t && text_eq s.form.pallet_rpc f.pallet_rpc)
        && text_eq s.form.callable f.callable
      then s.param_fields
      else param_fields m t f.pallet_rpc f.callable)
  unfolding after effects pallets_effect callables_effect fields_effect update_pallet_rpcs
      update_callables update_param_fields
  param_fields-after = ground arith

  after-IsSorted :
      IsFilled api m s
      → IsSorted after.pallet_rpcs
        × ((x : Text)
            → count x after.pallet_rpcs
              ≡ (if has_some (api.callables t x) then count x (api.pallets t) else 0))
  after-IsSorted filled = elim (Bool-cases (is_type s.interx_type t)) [
    | inl y ↦ rw (pallet_rpcs-after, y, ← is_type-eq s.interx_type t y) (filled.sorted, filled.each)
    | inr n ↦ rw (pallet_rpcs-after, n) (pallet_options-IsSorted api t)
  ]

  callable_options-after :
      IsFilled api m s
      → is_empty f.pallet_rpc ≡ false
      → after.callables ≡ callable_options api t f.pallet_rpc
  callable_options-after filled some_pallet =
      elim (Bool-cases (is_type s.interx_type t && text_eq s.form.pallet_rpc f.pallet_rpc)) [
        | inl y ↦
            let (types, pallets) = and_split y in
            let same = text_eq→eq s.form.pallet_rpc f.pallet_rpc pallets in
            callables-after
            ∙ rw (y, ← is_type-eq s.interx_type t types, ← same)
                (filled.callables (rw same some_pallet))
        | inr n ↦ callables-after ∙ rw (n, some_pallet) refl
      ]

  fields-after : IsFilled api m s → after.param_fields ≡ param_fields m t f.pallet_rpc f.callable
  fields-after filled =
      elim (Bool-cases (
        (is_type s.interx_type t && text_eq s.form.pallet_rpc f.pallet_rpc)
        && text_eq s.form.callable f.callable)) [
          | inl y ↦
              let (front, callables) = and_split y in
              let (types, pallets) = and_split front in
              param_fields-after
              ∙ rw
                  (
                    y,
                    ← is_type-eq s.interx_type t types,
                    ← text_eq→eq s.form.pallet_rpc f.pallet_rpc pallets,
                    ← text_eq→eq s.form.callable f.callable callables,
                  )
                  filled.fields
          | inr n ↦ param_fields-after ∙ rw n refl
        ]

  after-IsFilled : IsFilled api m s → IsFilled api m after
  after-IsFilled filled =
      let (same_t, same_f) = form-after in
      let (sorted, each) = after-IsSorted filled in
      record {
        sorted = sorted;
        each = rw same_t each;
        callables = rw (same_t, same_f) (callable_options-after filled);
        fields = rw (same_t, same_f) (fields-after filled);
      }

effects-IsFilled :
    (api : Keys) (m : Metadata) (t : InterxType) (f : FormState) (s : State)
    → IsFilled api m s
    → IsFilled api m (effects api m s (edited t f s))
unfolding after
effects-IsFilled api m t f s filled = after-IsFilled api m t f s filled

-- In every state of the page the menu of the pallets is sorted by code units and has a pallet of the
-- type as often as the api where the pallet has a callable, and not at all where it has none; where a
-- pallet is chosen the menu of the callables has those of the pallet, sorted; and the fields are
-- those of the callable.
pub Reach-IsFilled : (api : Keys) (m : Metadata) (s : State) → Reach api m s → IsFilled api m s
unfolding opening change change_type
Reach-IsFilled api m s opened = first_effects-IsFilled api m first
Reach-IsFilled api m s (changed c {s = before} reach) =
    effects-IsFilled api m before.interx_type (on_change c before.form) before
      (Reach-IsFilled api m before reach)
Reach-IsFilled api m s (type_changed t {s = before} reach) =
    effects-IsFilled api m (on_interx_type_change t).0 (on_interx_type_change t).1 before
      (Reach-IsFilled api m before reach)

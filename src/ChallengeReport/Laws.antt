-- ===== src/ChallengeReport/Laws.antt =====
-- What a challenge sends.
use qrucial_dao.Common.{
  ℕ, zero, suc, ◌≡◌, refl, sym, ap, ◌∙◌, true, Option, none, some, List, [], ◌∷◌, map, keep, any,
  erase_idx, All, All-append, All-keep, All-map, is_some, Bool-cases, Option-cases, inl, inr, arith,
  some_injective, none-ne-some,
}
use qrucial_dao.Common.Text.{Text, codes, text_eq}
use qrucial_dao.Forms.{get, put}
use qrucial_dao.ChallengeReport.{
  Row, Kind, remove, add, patch, empty_row, add_row, change_row, delete_row, truthy, values,
  add_names, patch_names, remove_param, add_param, patch_param,
}

abbrev pub keys : Row → List Text
keys [] = []
keys ((k, v) ∷ r) = k ∷ keys r

keys-put :
    (name value : Text) (r : Row)
    → any (λ k. text_eq k name) (keys r) ≡ true
    → keys (put name value r) ≡ keys r
unfolding put
keys-put name value [] h = cc
keys-put name value ((k, v) ∷ r) h = elim (Bool-cases (text_eq k name)) [
  | inl here ↦ rw here refl
  | inr there ↦ rw there (ap (k ∷◌) (keys-put name value r (ground arith)))
]

get-keys :
    (name : Text) (r : Row)
    → any (λ k. text_eq k name) (keys r) ≡ true
    → is_some (get name r) ≡ true
unfolding get
get-keys name [] h = cc
get-keys name ((k, v) ∷ r) h = ground (arith, get-keys name r)

-- The rows that the user makes of a kind: a change is of an input of the row.
pub data Edited (k : Kind) : List Row → Type 0 where
  first : Edited k (empty_row k ∷ [])
  added : {rows : List Row} → Edited k rows → Edited k (add_row k rows)
  changed :
      (i : ℕ) (name value : Text) {rows rows' : List Row}
      → any (λ key. text_eq key name) (keys (empty_row k)) ≡ true
      → change_row i name value rows ≡ some rows'
      → Edited k rows
      → Edited k rows'
  deleted : (i : ℕ) {rows : List Row} → Edited k rows → Edited k (delete_row i rows)

abbrev pub HasKeys : Kind → Row → Type 0
HasKeys k r = keys r ≡ keys (empty_row k)

pub change_row-none :
    (i : ℕ) (name value : Text) (r : Row) (rows : List Row)
    → change_row i name value rows ≡ none
    → change_row (suc i) name value (r ∷ rows) ≡ none
unfolding change_row
change_row-none i name value r rows h = rw h refl

pub change_row-some :
    (i : ℕ) (name value : Text) (r : Row) (rows rows' : List Row)
    → change_row i name value rows ≡ some rows'
    → change_row (suc i) name value (r ∷ rows) ≡ some (r ∷ rows')
unfolding change_row
change_row-some i name value r rows rows' h = rw h refl

HasKeys-change :
    (k : Kind) (i : ℕ) (name value : Text) (rows rows' : List Row)
    → any (λ key. text_eq key name) (keys (empty_row k)) ≡ true
    → change_row i name value rows ≡ some rows'
    → All (HasKeys k) rows
    → All (HasKeys k) rows'
unfolding change_row
HasKeys-change k i name value [] rows' h e a = absurd (none-ne-some e)
HasKeys-change k zero name value (r ∷ rows) rows' h e (p, a) =
    rw (← some_injective e) (keys-put name value r (rw p h) ∙ p, a)
HasKeys-change k (suc i) name value (r ∷ rows) rows' h e (p, a) =
    elim (Option-cases (change_row i name value rows)) [
      | inl failed ↦ absurd (none-ne-some (sym (change_row-none i name value r rows failed) ∙ e))
      | inr (rows'', found) ↦
          rw (← some_injective (sym (change_row-some i name value r rows rows'' found) ∙ e))
            (p, HasKeys-change k i name value rows rows'' h found a)
    ]

All-erase_idx {κ} :
    (P : Row → Type κ) (rows : List Row) (i : ℕ) → All P rows → All P (erase_idx rows i)
All-erase_idx P [] i a = tt
All-erase_idx P (r ∷ rows) zero (p, a) = a
All-erase_idx P (r ∷ rows) (suc i) (p, a) = (p, All-erase_idx P rows i a)

Edited-HasKeys : {k : Kind} {rows : List Row} → Edited k rows → All (HasKeys k) rows
unfolding add_row delete_row
Edited-HasKeys first = (refl, tt)
Edited-HasKeys {k} (added {rows} e) =
    All-append (HasKeys k) rows (empty_row k ∷ []) (Edited-HasKeys e) (refl, tt)
Edited-HasKeys {k} (changed i name value {rows} {rows'} h c e) =
    HasKeys-change k i name value rows rows' h c (Edited-HasKeys e)
Edited-HasKeys {k} (deleted i {rows} e) = All-erase_idx (HasKeys k) rows i (Edited-HasKeys e)

unfoldable IsComplete : List Text → Row → Type 0
IsComplete names r = All (λ name. any (λ k. text_eq k name) (keys r) ≡ true) names

values-some :
    (names : List Text) (r : Row)
    → IsComplete names r
    → All (λ v. is_some v ≡ true) (values names r)
unfolding IsComplete
values-some [] r a = tt
values-some (name ∷ names) r (h, a) = (get-keys name r h, values-some names r a)

HasKeys-add : (r : Row) → HasKeys add r → IsComplete add_names r
unfolding empty_row IsComplete
HasKeys-add r h = rw h (refl, (refl, (refl, (refl, tt))))

HasKeys-patch : (r : Row) → HasKeys patch r → IsComplete patch_names r
unfolding empty_row IsComplete
HasKeys-patch r h = rw h (refl, (refl, (refl, (refl, tt))))

-- Each item has a text for every input, and one that is not empty.
abbrev pub IsEntry : List (Option Text) → Type 0
IsEntry vs = All (λ v. is_some v ≡ true) vs × (any truthy vs ≡ true)

keep-values :
    (names : List Text) (rows : List Row)
    → All (IsComplete names) rows
    → All IsEntry (keep (any truthy) (map (values names) rows))
keep-values names [] a = tt
keep-values names (r ∷ rows) (h, a) = elim (Bool-cases (any truthy (values names r))) [
  | inl full ↦ rw full ((values-some names r h, full), keep-values names rows a)
  | inr blank ↦ rw blank (keep-values names rows a)
]

-- Whatever rows the user makes, changes and deletes: no id of a removal is undefined or empty, and
-- each addition and each patch that is sent has all of its four texts, with one that is not empty.
pub params-Edited :
    {removals additions patches : List Row}
    → Edited remove removals
    → Edited add additions
    → Edited patch patches
    → All (λ id. truthy id ≡ true) (remove_param removals)
      × All IsEntry (add_param additions)
      × All IsEntry (patch_param patches)
unfolding remove_param add_param patch_param
params-Edited {removals} {additions} {patches} r a p = (
  All-keep truthy (map (get (codes "removeId")) removals),
  keep-values add_names additions (All-map HasKeys-add additions (Edited-HasKeys a)),
  keep-values patch_names patches (All-map HasKeys-patch patches (Edited-HasKeys p)),
)

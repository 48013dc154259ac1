-- ===== src/ChallengeReport/View/Laws.antt =====
-- What the inputs of the rows show.
use qrucial_dao.Common.{
  ℕ, zero, suc, ◌≡◌, refl, sym, ap, ◌∙◌, true, false, true≢false, ◌&&◌, Option, none, some, List,
  [], ◌∷◌, any, get_elem?, if◌then◌else◌, Bool-cases, Option-cases, inl, inr, arith, some_injective,
  none-ne-some, ◌==◌,
}
use qrucial_dao.Common.Text.{Text, codes, text_eq, text_eq→eq}
use qrucial_dao.Forms.{get, put}
use qrucial_dao.Forms.Laws.{get-put, get-put_other}
use qrucial_dao.Forms.Validation.{Hook}
use qrucial_dao.ChallengeReport.{Row, Kind, remove, add, patch, change_row}
use qrucial_dao.ChallengeReport.Laws.{change_row-none, change_row-some}
use qrucial_dao.ChallengeReport.View.{
  Item, input, input_of, items, items_from, remove_items, add_items, patch_items, view, remove_vuln,
  add_vuln, patch_vuln,
}

-- The inputs of a row, but for the menu of the tools.
abbrev pub names : Kind → List Text
names remove = codes "removeId" ∷ []
names add = codes "addClass" ∷ codes "addRisk" ∷ codes "addDescrip" ∷ []
names patch = codes "patchId" ∷ codes "patchClass" ∷ codes "patchRisk" ∷ codes "patchDescrip" ∷ []

-- The value of the input of a name.
abbrev pub value_in : Text → List Item → Option Text
value_in name [] = none
value_in name (input v ∷ later) = if text_eq v.name name then v.value else value_in name later
value_in name (_ ∷ later) = value_in name later

abbrev pub value_at : Text → Option (List Item) → Option Text
value_at name none = none
value_at name (some row) = value_in name row

-- What the page shows in the input of a name in a row.
unfoldable pub shown : Kind → List Row → Hook → ℕ → Text → Option Text
shown k rows hook i name = value_at name (get_elem? ((view k rows hook).rows) i)

abbrev pub get_at : Text → Option Row → Option Text
get_at name none = none
get_at name (some r) = get name r

get_same :
    (x name : Text) (r : Row) (o : Option Text)
    → (text_eq x name ≡ false → o ≡ get name r)
    → (if text_eq x name then get x r else o) ≡ get name r
get_same x name r o h = elim (Bool-cases (text_eq x name)) [
  | inl eq ↦ rw (eq, text_eq→eq x name eq) refl
  | inr ne ↦ rw ne (h ne)
]

value_in-items :
    (k : Kind) (rows : List Row) (hook : Hook) (i : ℕ) (r : Row) (name : Text)
    → any (λ x. text_eq x name) (names k) ≡ true
    → value_in name (items k rows hook i r) ≡ get name r
unfolding input_of remove_items add_items patch_items
value_in-items remove rows hook i r name h =
    get_same (codes "removeId") name r none (λ ne. absurd (true≢false (sym h ∙ rw ne refl)))
value_in-items add rows hook i r name h = get_same (codes "addClass") name r _ (λ a.
    get_same (codes "addRisk") name r _ (λ b.
      get_same (codes "addDescrip") name r none
        (λ c. absurd (true≢false (sym h ∙ rw (a, b, c) refl)))))
value_in-items patch rows hook i r name h = get_same (codes "patchId") name r _ (λ a.
    get_same (codes "patchClass") name r _ (λ b. get_same (codes "patchRisk") name r _ (λ c.
      get_same (codes "patchDescrip") name r none
        (λ d. absurd (true≢false (sym h ∙ rw (a, b, c, d) refl))))))

value_at-items_from :
    (k : Kind) (rows : List Row) (hook : Hook) (n : ℕ) (later : List Row) (i : ℕ) (name : Text)
    → any (λ x. text_eq x name) (names k) ≡ true
    → value_at name (get_elem? (items_from k rows hook n later) i) ≡ get_at name (get_elem? later i)
value_at-items_from k rows hook n [] i name h = refl
value_at-items_from k rows hook n (r ∷ later) zero name h = value_in-items k rows hook n r name h
value_at-items_from k rows hook n (r ∷ later) (suc i) name h =
    value_at-items_from k rows hook (suc n) later i name h

shown-get :
    (k : Kind) (rows : List Row) (hook : Hook) (i : ℕ) (name : Text)
    → any (λ x. text_eq x name) (names k) ≡ true
    → shown k rows hook i name ≡ get_at name (get_elem? rows i)
unfolding shown remove_vuln add_vuln patch_vuln
shown-get remove rows hook i name h = value_at-items_from remove rows hook 0 rows i name h
shown-get add rows hook i name h = value_at-items_from add rows hook 0 rows i name h
shown-get patch rows hook i name h = value_at-items_from patch rows hook 0 rows i name h

get-put_any :
    (x name value : Text) (r : Row)
    → get x (put name value r) ≡ (if text_eq name x then some value else get x r)
get-put_any x name value r = elim (Bool-cases (text_eq name x)) [
  | inl eq ↦ rw (eq, text_eq→eq name x eq) (get-put x value r)
  | inr ne ↦ rw ne (get-put_other x name value r ne)
]

later_row :
    (i j : ℕ) (name x value : Text) (r : Row) (rows rows' : List Row)
    → ((l : ℕ)
        → get_at x (get_elem? rows' l)
          ≡ (if i == l && text_eq name x then some value else get_at x (get_elem? rows l)))
    → get_at x (get_elem? (r ∷ rows') j)
      ≡ (if suc i == j && text_eq name x then some value else get_at x (get_elem? (r ∷ rows) j))
later_row i zero name x value r rows rows' h = ground arith
later_row i (suc j) name x value r rows rows' h = h j ∙ ground arith

get_at-change_row :
    (i : ℕ) (name value : Text) (rows rows' : List Row) (j : ℕ) (x : Text)
    → change_row i name value rows ≡ some rows'
    → get_at x (get_elem? rows' j)
      ≡ (if i == j && text_eq name x then some value else get_at x (get_elem? rows j))
unfolding change_row
get_at-change_row i name value [] rows' j x h = absurd (none-ne-some h)
get_at-change_row zero name value (r ∷ rows) rows' zero x h =
    rw (← some_injective h) (get-put_any x name value r)
get_at-change_row zero name value (r ∷ rows) rows' (suc j) x h =
    rw (← some_injective h) (ground arith)
get_at-change_row (suc i) name value (r ∷ rows) rows' j x h =
    elim (Option-cases (change_row i name value rows)) [
      | inl failed ↦ absurd (none-ne-some (sym (change_row-none i name value r rows failed) ∙ h))
      | inr (rows'', found) ↦
          rw (← some_injective (sym (change_row-some i name value r rows rows'' found) ∙ h)) (
            later_row i j name x value r rows rows''
              (λ l. get_at-change_row i name value rows rows'' l x found))
    ]

-- Typing into an input of a row makes the page show the typed text there, and what it showed in
-- every other input of the list, whatever the hook says.
pub shown-change_row :
    (k : Kind) (hook : Hook) (i : ℕ) (name value : Text) (rows rows' : List Row) (j : ℕ) (x : Text)
    → any (λ y. text_eq y x) (names k) ≡ true
    → change_row i name value rows ≡ some rows'
    → shown k rows' hook j x
      ≡ (if i == j && text_eq name x then some value else shown k rows hook j x)
shown-change_row k hook i name value rows rows' j x h typed =
    shown-get k rows' hook j x h
    ∙ get_at-change_row i name value rows rows' j x typed
    ∙ ap (λ o. if i == j && text_eq name x then some value else o)
        (sym (shown-get k rows hook j x h))

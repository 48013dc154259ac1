-- ===== src/Forms/Laws.antt =====
-- Objects: what is read after a write or a deletion.
use qrucial_dao.Common.{
  ◌≡◌, refl, sym, ap, ◌∙◌, true, false, none, some, [], ◌∷◌, Bool-cases, inl, inr, arith,
  none-ne-some,
}
use qrucial_dao.Common.Text.{Text, text_eq, text_eq_refl, text_eq→eq}
use qrucial_dao.Forms.{Object, get, put, delete}

pub get-put : {V : Type 0} (key : Text) (v : V) (o : Object V) → get key (put key v o) ≡ some v
unfolding get put
get-put key v [] = rw (text_eq_refl key) refl
get-put key v ((k, w) ∷ o) = elim (Bool-cases (text_eq k key)) [
  | inl h ↦ rw h (rw h refl)
  | inr h ↦ rw h (rw h (get-put key v o))
]

pub get-miss :
    {V : Type 0} (key k : Text) (w : V) (o : Object V)
    → text_eq k key ≡ false
    → get key ((k, w) ∷ o) ≡ get key o
unfolding get
get-miss key k w o e = rw e refl

pub get-hit :
    {V : Type 0} (key k : Text) (w : V) (o : Object V)
    → text_eq k key ≡ true
    → get key ((k, w) ∷ o) ≡ some w
unfolding get
get-hit key k w o e = rw e refl

pub delete-put :
    {V : Type 0} (key : Text) (v : V) (o : Object V)
    → get key o ≡ none
    → delete key (put key v o) ≡ o
unfolding put delete
delete-put key v [] h = rw (text_eq_refl key) refl
delete-put key v ((k, w) ∷ o) h = elim (Bool-cases (text_eq k key)) [
  | inl e ↦ absurd (none-ne-some (sym h ∙ get-hit key k w o e))
  | inr e ↦ rw e (rw e (ap ((k, w) ∷◌) (delete-put key v o (sym (get-miss key k w o e) ∙ h))))
]

pub same_text :
    (k name key : Text) → text_eq k name ≡ true → text_eq name key ≡ false → text_eq k key ≡ false
same_text k name key e h = rw (text_eq→eq k name e) h

pub get-put_other :
    {V : Type 0} (key name : Text) (v : V) (o : Object V)
    → text_eq name key ≡ false
    → get key (put name v o) ≡ get key o
unfolding get put
get-put_other key name v [] h = rw h refl
get-put_other key name v ((k, w) ∷ o) h = elim (Bool-cases (text_eq k name)) [
  | inl e ↦ rw e (ground (arith, same_text k name key e h))
  | inr e ↦ rw e (ground (arith, get-put_other key name v o h))
]

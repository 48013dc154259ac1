-- ===== src/Profile/Laws.antt =====
-- What a profile is signed with, and what a cancelled one keeps.
use qrucial_dao.Common.{
  ◌≡◌, refl, sym, ap, ◌∙◌, false, Option, none, some, [], ◌∷◌, if◌then◌else◌, Bool-cases, inl, inr,
  arith, some_injective, none-ne-some,
}
use qrucial_dao.Common.Text.{Text, codes, text_eq, text_eq_refl, text_eq→eq}
use qrucial_dao.Forms.Laws.{get-put, get-put_other, delete-put}
use qrucial_dao.Forms.{FormValue, Object, text, get, put, delete}
use qrucial_dao.Profile.{auditor_fields, on_change, is_other, on_click, cancelled}
use qrucial_dao.Profile.Json.{stringify}

-- A key stands once, as in every object of the language.
abbrev pub IsObject : Object FormValue → Type 0
IsObject [] = Unit
IsObject ((k, v) ∷ o) = (get k o ≡ none) × IsObject o

get-delete_same : (key : Text) (o : Object FormValue) → IsObject o → get key (delete key o) ≡ none
unfolding get delete
get-delete_same key [] u = refl
get-delete_same key ((k, v) ∷ o) (alone, u) = elim (Bool-cases (text_eq k key)) [
  | inl e ↦ rw e (rw (← text_eq→eq k key e) alone)
  | inr e ↦ rw e (rw e (get-delete_same key o u))
]

abbrev pub hash_key : Text
hash_key = codes "profileHash"

-- The forms that the user reaches from an auditor's data; no input is that of the hash.
pub data Edited : Object FormValue → Type 0 where
  opened_new : (address : Option Text) → Edited (auditor_fields none address)
  opened :
      (fields : Object FormValue) (address : Option Text)
      → IsObject fields
      → Edited (auditor_fields (some fields) address)
  typed :
      (name value : Text) {form : Object FormValue}
      → text_eq name hash_key ≡ false
      → Edited form
      → Edited (on_change name value form)

Edited-hash : {form : Object FormValue} → Edited form → get hash_key form ≡ none
unfolding auditor_fields on_change get delete
Edited-hash (opened_new address) = refl
Edited-hash (opened fields address u) = get-delete_same hash_key fields u
Edited-hash (typed name value {form} other e) =
    get-put_other hash_key name (text value) form other ∙ Edited-hash e

on_click-some :
    (keccak : Text → Text) (address : Option Text) (form : Object FormValue) (hash : Text)
    (body : Object FormValue)
    → (on_click keccak address form).0 ≡ some (hash, body)
    → (is_other (get (codes "address") form) address ≡ false)
      × (keccak (stringify form) ≡ hash)
      × (put hash_key (text (keccak (stringify form))) form ≡ body)
unfolding on_click
on_click-some keccak address form hash body h =
    elim (Bool-cases (is_other (get (codes "address") form) address)) [
      | inl other ↦ absurd (none-ne-some (rw other at h))
      | inr mine ↦ let e = some_injective (rw mine at h) in (mine, ap (λ p. p.0) e, ap (λ p. p.1) e)
    ]

-- Whatever the user typed, the hash that is signed is that of the profile that the server gets
-- less the hash, the profile has the hash beside it, and its address is the account's.
pub on_click-hash :
    (keccak : Text → Text) (address : Option Text) {form : Object FormValue}
    → Edited form
    → (hash : Text) (body : Object FormValue) → (on_click keccak address form).0 ≡ some (hash, body)
    → (hash ≡ keccak (stringify (delete hash_key body)))
      × (get hash_key body ≡ some (text hash))
      × (is_other (get (codes "address") body) address ≡ false)
unfolding on_click
on_click-hash keccak address {form} edited hash body h =
    let (mine, hash_eq, body_eq) = on_click-some keccak address form hash body h in
    rw (← hash_eq, ← body_eq)
      (
        ap (λ o. keccak (stringify o))
            (sym (delete-put hash_key (text (keccak (stringify form))) form (Edited-hash edited))),
        get-put hash_key (text (keccak (stringify form))) form,
        ap (λ a. is_other a address)
              (get-put_other (codes "address") hash_key (text (keccak (stringify form))) form refl)
            ∙ mine,
      )

abbrev pub blanked : Option FormValue → Option FormValue
blanked none = none
blanked (some v) = some (text [])

-- A cancelled profile has the address as it was, and every other field of it is the empty text.
pub get-cancelled :
    (key : Text) (o : Object FormValue)
    → get key (cancelled o)
      ≡ (if text_eq key (codes "address") then get key o else blanked (get key o))
unfolding get cancelled
get-cancelled key [] = ground arith
get-cancelled key ((k, v) ∷ o) = elim (Bool-cases (text_eq k key)) [
  | inl e ↦ rw (text_eq→eq k key e) (ground (arith, text_eq_refl key))
  | inr e ↦ ground (arith, get-cancelled key o)
]

-- ===== src/Toast/Laws.antt =====
-- One toast for a transaction.
use qrucial_dao.Common.{
  Bool, true, ◌||◌, ℕ, ◌≡◌, refl, true, false, none, some, List, [], ◌∷◌, ◌++◌, map, ◌⊎◌, inl, inr,
  All, arith,
}
use qrucial_dao.Common.Text.{Text, codes, includes, starts_with}
use qrucial_dao.Chain.{status_text, failed_text, finalized}
use qrucial_dao.Toast.{Shown, text, create, update, is_last, show_all}

pub includes-append : (front s p : Text) → includes s p ≡ true → includes (front ++ s) p ≡ true
includes-append [] s p h = h
includes-append (c ∷ front) s p h = ground (arith, includes-append front s p)

includes-starts : (s p : Text) → starts_with s p ≡ true → includes s p ≡ true
includes-starts [] p h = h
includes-starts (c ∷ s) p h = ground arith

-- The last message of a transaction: its block is final, or it was refused with an error.
abbrev pub last_text : Text → Text ⊎ Text → Text
last_text prefix (inl h) = status_text prefix (finalized h)
last_text prefix (inr err) = failed_text err

or_true : (b : Bool) → (b || true) ≡ true
or_true b = ground arith

is_last-last_text :
    (prefix : Text) (end : Text ⊎ Text) → is_last (text (last_text prefix end)) ≡ true
unfolding is_last status_text failed_text
is_last-last_text prefix (inl h) =
    rw (includes-append prefix (codes "Finalized. Block hash: " ++ h) (codes "Finalized") refl) refl
is_last-last_text prefix (inr err) =
    or_true (includes (0xd83d ∷ 0xde1e ∷ codes " Transaction Failed: " ++ err) (codes "Finalized"))

show_all-open :
    (id fresh : ℕ) (middle : List (ℕ × Shown)) (last : Shown)
    → All (λ m. is_last m.1 ≡ false) middle
    → is_last last ≡ true
    → show_all (some id) (middle ++ ((fresh, last) ∷ []))
      ≡ (none, map (λ m. update id m.1) (middle ++ ((fresh, last) ∷ [])))
unfolding show_all
show_all-open id fresh [] last a h = rw h refl
show_all-open id fresh ((n, s) ∷ middle) last (not_last, a) h =
    rw (not_last, show_all-open id fresh middle last a h) refl

-- A transaction makes one toast with its first message, every later message is put into that
-- toast, and the last one, of a final block or of a failure, ends it: the next message makes a new
-- toast. The messages between must not be last ones.
pub show_all-transaction :
    (prefix : Text) (first : Shown) (middle : List (ℕ × Shown)) (end : Text ⊎ Text) (id fresh : ℕ)
    → All (λ m. is_last m.1 ≡ false) middle
    → let later = middle ++ ((fresh, text (last_text prefix end)) ∷ []) in
      show_all none ((id, first) ∷ later) ≡ (none, create id first ∷ map (λ m. update id m.1) later)
unfolding show_all
show_all-transaction prefix first middle end id fresh a =
    rw
      (show_all-open id fresh middle (text (last_text prefix end)) a (is_last-last_text prefix end))
      refl

-- ===== src/Node/Auditors/Fine.antt =====
-- What every entry of the storage has.
use mathlib.Core.Path.{subst}
use qrucial_dao.Common.{
  ℕ, ◌≤◌, ◌<◌, ◌≡◌, refl, sym, ◌∙◌, Bool, true, false, true≢false, not, ◌&&◌, some, List, [], ◌∷◌,
  ◌++◌, any, length, length-append, is_some, Bool-cases, inl, inr, arith, some_injective,
  none-ne-some, ltb,
}
use qrucial_dao.Common.Text.{Text, text_eq, text_eq_refl, text_eq→eq}
use qrucial_dao.Node.{Storage, insert, remove}
use qrucial_dao.Node.Auditors.{AuditorData, Winner, Config, try_push, approved, write_scores}

-- No account stands in the list twice.
abbrev pub is_distinct : List Text → Bool
is_distinct [] = true
is_distinct (x ∷ xs) = not (any (text_eq x) xs) && is_distinct xs

-- What every entry of the storage has: its approvers are distinct and three at most, and an entry
-- without a score has fewer.
pub record IsFine (d : AuditorData) : Type 0 where
  pub distinct : is_distinct d.approved_by ≡ true
  pub few : length d.approved_by ≤ 3
  pub fewer : is_some d.score ≡ false → length d.approved_by < 3

abbrev pub AllFine : Storage AuditorData → Type 0
AllFine m = (x : Text) (d : AuditorData) → m x ≡ some d → IsFine d

pub AllFine-insert :
    (k : Text) (v : AuditorData) (m : Storage AuditorData)
    → IsFine v
    → AllFine m
    → AllFine (insert k v m)
AllFine-insert k v m fine all x d h = elim (Bool-cases (text_eq k x)) [
  | inl eq ↦ subst IsFine (some_injective (sym (rw eq refl) ∙ h)) fine
  | inr ne ↦ all x d (sym (rw ne refl) ∙ h)
]

pub AllFine-remove : (k : Text) (m : Storage AuditorData) → AllFine m → AllFine (remove k m)
AllFine-remove k m all x d h = elim (Bool-cases (text_eq k x)) [
  | inl eq ↦ absurd (none-ne-some (sym (rw eq refl) ∙ h))
  | inr ne ↦ all x d (sym (rw ne refl) ∙ h)
]

any-append_one :
    (x y : Text) (xs : List Text)
    → any (text_eq y) xs ≡ false
    → text_eq y x ≡ false
    → any (text_eq y) (xs ++ (x ∷ [])) ≡ false
any-append_one x y [] h ne = rw ne refl
any-append_one x y (z ∷ xs) h ne = ground (arith, any-append_one x y xs)

text_eq_sym : (x y : Text) → text_eq x y ≡ false → text_eq y x ≡ false
text_eq_sym x y h = elim (Bool-cases (text_eq y x)) [
  | inl eq ↦ absurd (
      true≢false
        (sym (text_eq_refl y) ∙ subst (λ z. text_eq z y ≡ false) (sym (text_eq→eq y x eq)) h))
  | inr ne ↦ ne
]

pub is_distinct-push :
    (x : Text) (xs : List Text)
    → is_distinct xs ≡ true
    → any (text_eq x) xs ≡ false
    → is_distinct (xs ++ (x ∷ [])) ≡ true
is_distinct-push x [] d h = refl
is_distinct-push x (y ∷ xs) d h =
    ground (arith, is_distinct-push x xs, any-append_one x y xs, text_eq_sym x y)

pub try_push-some :
    (x : Text) (xs ys : List Text)
    → try_push x xs ≡ some ys
    → (xs ++ (x ∷ []) ≡ ys) × (length xs < 3)
try_push-some x xs ys h = elim (Bool-cases (ltb (length xs) 3)) [
  | inl less ↦ (some_injective (sym (rw less refl) ∙ h), ground arith)
  | inr full ↦ absurd (none-ne-some (sym (rw full refl) ∙ h))
]

module _ (config : Config) where
  pub IsFine-approved :
      (x : Text) (d : AuditorData) (approvers : List Text)
      → IsFine d
      → any (text_eq x) d.approved_by ≡ false
      → try_push x d.approved_by ≡ some approvers
      → IsFine (approved config d approvers)
  IsFine-approved x d approvers fine fresh h =
      let (pushed, less) = try_push-some x d.approved_by approvers h in
      let short : length approvers ≤ 3 =
        rw (← pushed, length-append d.approved_by (x ∷ [])) (omega arith) in
      record {
        distinct = rw (← pushed) (is_distinct-push x d.approved_by fine.distinct fresh);
        few = short;
        fewer = ground arith;
      }

  scored : (d : AuditorData) (n : ℕ) → IsFine d → IsFine (record d { score = some n })
  scored d n fine = record {
    distinct = fine.distinct;
    few = fine.few;
    fewer = λ h. absurd (true≢false h);
  }

  pub write_scores-Fine :
      (p0 p1 : Text) (d0 d1 : AuditorData) (w : Winner) (a b : ℕ) (m : Storage AuditorData)
      → IsFine d0
      → IsFine d1
      → AllFine m
      → AllFine (write_scores config p0 p1 d0 d1 w (a, b) m)
  write_scores-Fine p0 p1 d0 d1 Winner.draw a b m f0 f1 all = all
  write_scores-Fine p0 p1 d0 d1 Winner.player0 a b m f0 f1 all =
      AllFine-insert p1 _ _ (scored d1 b f1) (AllFine-insert p0 _ m (scored d0 a f0) all)
  write_scores-Fine p0 p1 d0 d1 Winner.player1 a b m f0 f1 all =
      AllFine-insert p1 _ _ (scored d1 b f1) (AllFine-insert p0 _ m (scored d0 a f0) all)

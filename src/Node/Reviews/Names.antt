-- ===== src/Node/Reviews/Names.antt =====
-- The names in the lists of the reports and the challenges.
use qrucial_dao.Common.{
  ℕ, zero, suc, ◌≤◌, ◌<◌, ◌≡◌, refl, sym, ◌∙◌, ap, Bool, true, false, true≢false, not, Option, none,
  some, List, [], ◌∷◌, ◌++◌, any, all, length, length-append, get_elem?, Bool-cases, inl, inr,
  arith, some_injective, none-ne-some, ltb,
}
use qrucial_dao.Common.Text.{Text, text_eq}
use qrucial_dao.Node.Auditors.Fine.{is_distinct, is_distinct-push}
use qrucial_dao.Node.Reviews.{
  Report, Challenge, ChallengeState, try_append, reporters, challengers, set_state,
}

try_append-some :
    {A : Type 0} (n : ℕ) (x : A) (xs ys : List A)
    → try_append n x xs ≡ some ys
    → (xs ++ (x ∷ []) ≡ ys) × (length xs < n)
try_append-some n x xs ys h = elim (Bool-cases (ltb (length xs) n)) [
  | inl less ↦ (some_injective (sym (rw less refl) ∙ h), ground arith)
  | inr full ↦ absurd (none-ne-some (sym (rw full refl) ∙ h))
]

reporters-append :
    (r : Report) (rs : List Report) → reporters (rs ++ (r ∷ [])) ≡ reporters rs ++ (r.auditor ∷ [])
reporters-append r [] = refl
reporters-append r (x ∷ rs) = ap (λ t. x.auditor ∷ t) (reporters-append r rs)

challengers-append :
    (c : Challenge) (cs : List Challenge)
    → challengers (cs ++ (c ∷ [])) ≡ challengers cs ++ (c.auditor ∷ [])
challengers-append c [] = refl
challengers-append c (x ∷ cs) = ap (λ t. x.auditor ∷ t) (challengers-append c cs)

pub challengers-set_state :
    (i : ℕ) (st : ChallengeState) (cs : List Challenge)
    → challengers (set_state i st cs) ≡ challengers cs
challengers-set_state i st [] = refl
challengers-set_state zero st (c ∷ cs) = refl
challengers-set_state (suc i) st (c ∷ cs) = ap (λ t. c.auditor ∷ t) (challengers-set_state i st cs)

-- Distinct names, ten at most.
pub record IsFew (names : List Text) : Type 0 where
  pub distinct : is_distinct names ≡ true
  pub few : length names ≤ 10

pub IsFew-push :
    (x : Text) (xs : List Text)
    → IsFew xs
    → any (text_eq x) xs ≡ false
    → length xs < 10
    → IsFew (xs ++ (x ∷ []))
IsFew-push x xs h fresh less = record {
  distinct = is_distinct-push x xs h.distinct fresh;
  few = rw (length-append xs (x ∷ [])) (omega arith);
}

length-reporters : (rs : List Report) → length (reporters rs) ≡ length rs
length-reporters [] = refl
length-reporters (r ∷ rs) = ap suc (length-reporters rs)

length-challengers : (cs : List Challenge) → length (challengers cs) ≡ length cs
length-challengers [] = refl
length-challengers (c ∷ cs) = ap suc (length-challengers cs)

-- A name that is not the one at the place.
abbrev pub is_apart : Option Text → Text → Bool
is_apart none a = false
is_apart (some r) a = not (text_eq r a)

pub is_apart-append :
    (xs : List Text) (x a : Text) (i : ℕ)
    → is_apart (get_elem? xs i) a ≡ true
    → is_apart (get_elem? (xs ++ (x ∷ [])) i) a ≡ true
is_apart-append [] x a i h = absurd (true≢false (sym h))
is_apart-append (y ∷ xs) x a zero h = h
is_apart-append (y ∷ xs) x a (suc i) h = is_apart-append xs x a i h

pub all_apart-append :
    (xs : List Text) (x : Text) (i : ℕ) (names : List Text)
    → all (is_apart (get_elem? xs i)) names ≡ true
    → all (is_apart (get_elem? (xs ++ (x ∷ [])) i)) names ≡ true
all_apart-append xs x i [] h = refl
all_apart-append xs x i (a ∷ names) h =
    ground (arith, is_apart-append xs x a i, all_apart-append xs x i names)

pub all-push :
    (p : Text → Bool) (x : Text) (xs : List Text)
    → all p xs ≡ true
    → p x ≡ true
    → all p (xs ++ (x ∷ [])) ≡ true
all-push p x [] h e = rw e refl
all-push p x (y ∷ xs) h e = ground (arith, all-push p x xs)

-- The names after an entry was appended.
pub reporters-try_append :
    (r : Report) (rs out : List Report)
    → IsFew (reporters rs)
    → any (text_eq r.auditor) (reporters rs) ≡ false
    → try_append 10 r rs ≡ some out
    → (reporters rs ++ (r.auditor ∷ []) ≡ reporters out) × IsFew (reporters out)
reporters-try_append r rs out few fresh h =
    let (pushed, less) = try_append-some 10 r rs out h in
    let eq = sym (reporters-append r rs) ∙ ap reporters pushed in
    (eq, rw (← eq) (IsFew-push r.auditor (reporters rs) few fresh (rw (length-reporters rs) less)))

pub challengers-try_append :
    (c : Challenge) (cs out : List Challenge)
    → IsFew (challengers cs)
    → any (text_eq c.auditor) (challengers cs) ≡ false
    → try_append 10 c cs ≡ some out
    → (challengers cs ++ (c.auditor ∷ []) ≡ challengers out) × IsFew (challengers out)
challengers-try_append c cs out few fresh h =
    let (pushed, less) = try_append-some 10 c cs out h in
    let eq = sym (challengers-append c cs) ∙ ap challengers pushed in
    (
      eq,
      rw (← eq) (IsFew-push c.auditor (challengers cs) few fresh (rw (length-challengers cs) less)),
    )

pub get_elem?-reporters :
    (rs : List Report) (i : ℕ) (r : Report)
    → get_elem? rs i ≡ some r
    → get_elem? (reporters rs) i ≡ some r.auditor
get_elem?-reporters [] i r h = absurd (none-ne-some h)
get_elem?-reporters (x ∷ rs) zero r h = ap some (ap (λ x. x.auditor) (some_injective h))
get_elem?-reporters (x ∷ rs) (suc i) r h = get_elem?-reporters rs i r h

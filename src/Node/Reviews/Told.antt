-- ===== src/Node/Reviews/Told.antt =====
-- What the node tells of the challenges of a report, and which of that has the key of a challenge.
use mathlib.Core.Path.{subst}
use qrucial_dao.Common.{
  ℕ, zero, suc, ◌+◌, ◌≡◌, ◌≢◌, refl, sym, ◌∙◌, ap, Bool, true, false, true≢false, ◌&&◌, ◌||◌,
  Option, some, List, [], ◌∷◌, ◌++◌, any, All, get_elem?, Bool-cases, inl, inr, arith,
  some_injective, none-ne-some, ◌==◌, ==_refl, and_split, last_of,
}
use qrucial_dao.Common.Text.{Text, codes, text_eq, text_eq_refl, text_eq→eq}
use qrucial_dao.Challenges.{Told, Entry, same, with_keys}
use qrucial_dao.Node.Auditors.Fine.{is_distinct}
use qrucial_dao.Node.Reviews.{
  Challenge, ChallengeState, removed, pending, accepted, rejected, challengers,
}

-- The names of the states as the interface of the node writes them.
abbrev pub state_text : ChallengeState → Text
state_text removed = codes "Removed"
state_text pending = codes "Pending"
state_text accepted = codes "Accepted"
state_text rejected = codes "Rejected"

abbrev pub told_on : List Challenge → List Told
told_on [] = []
told_on (c ∷ cs) = record { auditor = c.auditor; state = state_text c.state } ∷ told_on cs

-- The answers for the keys, of a chain whose challenges are these.
unfoldable pub answers_of :
    (Text → ℕ → List Challenge) → List (Text × ℕ) → List (Text × ℕ × Option (List Told))
answers_of challenges [] = []
answers_of challenges ((hash, report) ∷ later) =
    (hash, report, some (told_on (challenges hash report))) ∷ answers_of challenges later

-- The entry of a challenge.
abbrev pub entry : Text → ℕ → ℕ → Challenge → Entry
entry hash report id c = record {
  audit_hash = hash;
  report_id = report;
  challenge_id = id;
  told = record { auditor = c.auditor; state = state_text c.state };
}

-- Whether the key is asked for.
abbrev pub is_asked : Text → ℕ → List (Text × ℕ) → Bool
is_asked hash report [] = false
is_asked hash report ((h, r) ∷ later) =
    (text_eq h hash && r == report) || is_asked hash report later

last_of-kept :
    {A : Type 0} (p : A → Bool) (e : A) (xs : List A)
    → All (λ x. p x ≡ true → x ≡ e) xs
    → last_of p xs (some e) ≡ some e
last_of-kept p e [] a = refl
last_of-kept p e (x ∷ xs) (f, a) = elim (Bool-cases (p x)) [
  | inl y ↦ rw (y, f y) (last_of-kept p e xs a)
  | inr n ↦ rw n (last_of-kept p e xs a)
]

pub last_of-only :
    {A : Type 0} (p : A → Bool) (e : A) (xs : List A) (before : Option A)
    → All (λ x. p x ≡ true → x ≡ e) xs
    → any p xs ≡ true
    → last_of p xs before ≡ some e
last_of-only p e [] before a h = absurd (true≢false (sym h))
last_of-only p e (x ∷ xs) before (f, a) h = elim (Bool-cases (p x)) [
  | inl y ↦ rw (y, f y) (last_of-kept p e xs a)
  | inr n ↦ rw n (last_of-only p e xs before a (sym (rw n refl) ∙ h))
]

pub any-append :
    {A : Type 0} (p : A → Bool) (xs ys : List A) → any p (xs ++ ys) ≡ (any p xs || any p ys)
any-append p [] ys = refl
any-append p (x ∷ xs) ys = ground (arith, any-append p xs ys)

any-challengers :
    (cs : List Challenge) (i : ℕ) (c : Challenge)
    → get_elem? cs i ≡ some c
    → any (text_eq c.auditor) (challengers cs) ≡ true
any-challengers [] i c h = absurd (none-ne-some h)
any-challengers (x ∷ cs) zero c h = rw (some_injective h, text_eq_refl c.auditor) refl
any-challengers (x ∷ cs) (suc i) c h = ground (arith, any-challengers cs i c h)

same-auditor : (d e : Entry) → same e d ≡ true → d.told.auditor ≡ e.told.auditor
same-auditor d e h =
    let (front, auditor) = and_split h in text_eq→eq d.told.auditor e.told.auditor auditor

same-keys :
    (d e : Entry)
    → same e d ≡ true
    → (text_eq d.audit_hash e.audit_hash && d.report_id == e.report_id) ≡ true
same-keys d e h = let (front, auditor) = and_split h in front

any-false :
    (a x : Text) (xs : List Text)
    → any (text_eq a) (x ∷ xs) ≡ false
    → (x ≢ a) × (any (text_eq a) xs ≡ false)
any-false a x xs h = (λ eq. true≢false (sym (rw (eq, text_eq_refl a) refl) ∙ h), ground arith)

-- No told challenge of other auditors has the key.
absent :
    (hash : Text) (report k : ℕ) (e : Entry) (cs : List Challenge)
    → any (text_eq e.told.auditor) (challengers cs) ≡ false
    → All (λ x. same e x ≡ true → x ≡ e) (with_keys hash report k (told_on cs))
unfolding with_keys
absent hash report k e [] h = tt
absent hash report k e (c ∷ cs) h =
    let (other, later) = any-false e.told.auditor c.auditor (challengers cs) h in
    (
      λ eq. absurd (other (same-auditor (entry hash report k c) e eq)),
      absent hash report (suc k) e cs later,
    )

-- Nor has one of another report.
pub elsewhere :
    (hash : Text) (report k : ℕ) (e : Entry) (cs : List Challenge)
    → (text_eq hash e.audit_hash && report == e.report_id) ≡ false
    → All (λ x. same e x ≡ true → x ≡ e) (with_keys hash report k (told_on cs))
unfolding with_keys
elsewhere hash report k e [] h = tt
elsewhere hash report k e (c ∷ cs) h = (
  λ eq. absurd (true≢false (sym (same-keys (entry hash report k c) e eq) ∙ h)),
  elsewhere hash report (suc k) e cs h,
)

distinct-cons :
    (x : Text) (xs : List Text)
    → is_distinct (x ∷ xs) ≡ true
    → (any (text_eq x) xs ≡ false) × (is_distinct xs ≡ true)
distinct-cons x xs h = ground arith

-- Where the challengers are distinct, only the challenge has its key.
pub only :
    (hash : Text) (report k i n : ℕ) (c : Challenge) (cs : List Challenge)
    → is_distinct (challengers cs) ≡ true
    → get_elem? cs i ≡ some c
    → n ≡ k + i
    → All
        (λ x. same (entry hash report n c) x ≡ true → x ≡ entry hash report n c)
        (with_keys hash report k (told_on cs))
unfolding with_keys
only hash report k i n c [] d g eq = tt
only hash report k zero n c (x ∷ cs) d g eq =
    let (fresh, _) = distinct-cons x.auditor (challengers cs) d in
    (
      λ _. rw (some_injective g, eq) (ap (λ m. entry hash report m c) (omega arith)),
      absent hash report (suc k) (entry hash report n c) cs (
          subst (λ y. any (text_eq (y.auditor)) (challengers cs) ≡ false) (some_injective g) fresh),
    )
only hash report k (suc i) n c (x ∷ cs) d g eq =
    let (fresh, rest) = distinct-cons x.auditor (challengers cs) d in
    (
      λ s. absurd (
          true≢false (
            sym (any-challengers cs i c g)
            ∙ subst (λ a. any (text_eq a) (challengers cs) ≡ false)
                (same-auditor (entry hash report k x) (entry hash report n c) s) fresh)),
      only hash report (suc k) i n c cs rest g (omega (arith, eq)),
    )

-- It is told.
pub there :
    (hash : Text) (report k i : ℕ) (id : ℕ) (c : Challenge) (cs : List Challenge)
    → get_elem? cs i ≡ some c
    → any (same (entry hash report id c)) (with_keys hash report k (told_on cs)) ≡ true
unfolding with_keys
there hash report k i id c [] g = absurd (none-ne-some g)
there hash report k zero id c (x ∷ cs) g =
    rw (some_injective g, text_eq_refl, ==_refl, text_eq_refl) refl
there hash report k (suc i) id c (x ∷ cs) g = ground (arith, there hash report (suc k) i id c cs g)

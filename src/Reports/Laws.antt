-- ===== src/Reports/Laws.antt =====
-- Which reports are shown of an audit.
use qrucial_dao.Common.{
  ℕ, zero, suc, ◌<◌, ◌≡◌, refl, sym, ap, ◌∙◌, ◌⊎◌, inl, inr, true, false, ◌&&◌, Option, none, some,
  List, [], ◌∷◌, find, upsert, find-upsert, find-upsert_other, if◌then◌else◌, length, arith, ◌==◌,
  ==_iff, Bool-cases, slot, slot-assign, true≢false,
}
use qrucial_dao.Common.Text.{Text, text_eq, text_eq_refl, text_eq→eq}
use qrucial_dao.Reports.{
  Report, Shown, Arrays, array_at, write_at, Total, empty_arrays, start, on_vulnerabilities,
  reports_of,
}

slot-write_at :
    (p j q i : ℕ) (v : Shown) (arrays : Arrays)
    → q < length arrays
    → slot j (array_at p (write_at q i v arrays))
      ≡ (if p == q && j == i then some v else slot j (array_at p arrays))
slot-write_at p j q i v [] h = ground arith
slot-write_at zero j zero i v (a ∷ arrays) h = ground (arith, slot-assign i j v a)
slot-write_at (suc p) j zero i v (a ∷ arrays) h = ground arith
slot-write_at zero j (suc q) i v (a ∷ arrays) h = ground arith
slot-write_at (suc p) j (suc q) i v (a ∷ arrays) h =
    ground (arith, slot-write_at p j q i v arrays (omega arith))

length-write_at :
    (q i : ℕ) (v : Shown) (arrays : Arrays) → length (write_at q i v arrays) ≡ length arrays
length-write_at q i v [] = refl
length-write_at zero i v (a ∷ arrays) = refl
length-write_at (suc q) i v (a ∷ arrays) = omega (arith, length-write_at q i v arrays)

-- An answer on a report: the place of its audit, the report, its id, and the vulnerabilities.
pub record Answer : Type 0 where
  pub place : ℕ
  pub report : Report
  pub id : ℕ
  pub vulnerabilities : Option (List Text)

abbrev pub shown : Answer → Shown
shown a = record { report = a.report; report_id = a.id; vulnerabilities = a.vulnerabilities }

-- The answers in turn.
abbrev pub run : (ℕ → Text) → List Answer → Total → Total
run hash_of [] t = t
run hash_of (a ∷ later) t =
    run hash_of later
      (on_vulnerabilities a.place (hash_of a.place) a.report a.id a.vulnerabilities t)

-- What the page shows at the id of a report of an audit.
abbrev pub shows : Text → ℕ → Total → Option Shown
shows hash id t = elim (reports_of hash t) [ none ↦ none | some reports ↦ slot id reports ]

abbrev pub last_answer : ℕ → ℕ → List Answer → Option Shown → Option Shown
last_answer p id [] before = before
last_answer p id (a ∷ later) before =
    last_answer p id later (if p == a.place && id == a.id then some (shown a) else before)

abbrev pub AllBelow : ℕ → List Answer → Type 0
AllBelow n [] = Unit
AllBelow n (a ∷ later) = (a.place < n) × AllBelow n later

-- Different audits have different hashes.
abbrev pub AreApart : ℕ → (ℕ → Text) → Type 0
AreApart n hash_of = (p q : ℕ) → p < n → q < n → hash_of p ≡ hash_of q → p ≡ q

module _ (n : ℕ) (hash_of : ℕ → Text) (apart : AreApart n hash_of) where
  -- The record of an audit leads to its array, and without one the array is empty.
  unfoldable IsValid : Total → Type 0
  IsValid t =
      (length t.arrays ≡ n)
      × ((p : ℕ)
          → p < n
          → (find (λ e. text_eq e.0 (hash_of p)) t.records ≡ some (hash_of p, p))
            ⊎ ((find (λ e. text_eq e.0 (hash_of p)) t.records ≡ none)
                × ((j : ℕ) → slot j (array_at p t.arrays) ≡ none)))

  shows-slot :
      (t : Total) (p j : ℕ)
      → p < n
      → IsValid t
      → shows (hash_of p) j t ≡ slot j (array_at p t.arrays)
  unfolding reports_of IsValid
  shows-slot t p j below (l, valid) = elim (valid p below) [
    | inl found ↦ ground arith
    | inr (missing, empty) ↦ ground (arith, empty j)
  ]

  hash_of-apart :
      (p q : ℕ) (h : Text)
      → p < n
      → q < n
      → (p == q) ≡ false
      → text_eq h (hash_of q) ≡ true
      → text_eq h (hash_of p) ≡ false
  hash_of-apart p q h p_below q_below other eq = elim (Bool-cases (text_eq h (hash_of p))) [
    | inl eq' ↦
        let path =
          apart p q p_below q_below
            (sym (text_eq→eq h (hash_of p) eq') ∙ text_eq→eq h (hash_of q) eq) in
        absurd (true≢false (sym ((==_iff p q).1 path) ∙ other))
    | inr ne ↦ ne
  ]

  find-other :
      (p q : ℕ) (t : Total)
      → p < n
      → q < n
      → (p == q) ≡ false
      → find
          (λ e. text_eq e.0 (hash_of p))
          (upsert (λ e. text_eq e.0 (hash_of q)) (hash_of q, q) t.records)
        ≡ find (λ e. text_eq e.0 (hash_of p)) t.records
  find-other p q t p_below q_below other =
      find-upsert_other (λ e. text_eq e.0 (hash_of q)) (λ e. text_eq e.0 (hash_of p)) (hash_of q, q)
        t.records (hash_of-apart p q (hash_of q) p_below q_below other (text_eq_refl (hash_of q)))
        (λ x. hash_of-apart p q x.0 p_below q_below other)

  IsValid-on_vulnerabilities :
      (a : Answer) (t : Total)
      → a.place < n
      → IsValid t
      → IsValid (on_vulnerabilities a.place (hash_of a.place) a.report a.id a.vulnerabilities t)
  unfolding on_vulnerabilities IsValid
  IsValid-on_vulnerabilities a t below (l, valid) = (
    length-write_at a.place a.id (shown a) t.arrays ∙ l,
    λ p p_below. elim (Bool-cases (p == a.place)) [
      | inl here ↦ inl (
          rw ((==_iff p a.place).0 here) (
            find-upsert (λ e. text_eq e.0 (hash_of a.place)) (λ e. text_eq e.0 (hash_of a.place))
              (hash_of a.place, a.place) t.records (text_eq_refl (hash_of a.place)) (λ x. refl)))
      | inr there ↦ elim (valid p p_below) [
        | inl found ↦ inl (find-other p a.place t p_below below there ∙ found)
        | inr (missing, empty) ↦ inr (
          find-other p a.place t p_below below there ∙ missing,
          λ j. slot-write_at p j a.place a.id (shown a) t.arrays (omega arith) ∙ rw there (empty j),
        )
      ]
    ],
  )

  run-slot :
      (answers : List Answer) (t : Total) (p j : ℕ)
      → AllBelow n answers
      → p < n
      → IsValid t
      → shows (hash_of p) j (run hash_of answers t)
        ≡ last_answer p j answers (slot j (array_at p t.arrays))
  unfolding on_vulnerabilities IsValid
  run-slot [] t p j all_below below valid = shows-slot t p j below valid
  run-slot (a ∷ later) t p j (a_below, all_below) below valid =
      run-slot later
        (on_vulnerabilities a.place (hash_of a.place) a.report a.id a.vulnerabilities t) p j
        all_below below (IsValid-on_vulnerabilities a t a_below valid)
      ∙ ap (last_answer p j later)
          (slot-write_at p j a.place a.id (shown a) t.arrays (rw valid.0 a_below))

length-empty_arrays : (n : ℕ) → length (empty_arrays n) ≡ n
length-empty_arrays zero = refl
length-empty_arrays (suc n) = ap suc (length-empty_arrays n)

slot-empty_arrays : (n p j : ℕ) → slot j (array_at p (empty_arrays n)) ≡ none
slot-empty_arrays zero p j = refl
slot-empty_arrays (suc n) zero j = refl
slot-empty_arrays (suc n) (suc p) j = slot-empty_arrays n p j

start-IsValid :
    (n : ℕ) (hash_of : ℕ → Text) (apart : AreApart n hash_of) → IsValid n hash_of apart (start n)
unfolding IsValid
start-IsValid n hash_of apart =
    (length-empty_arrays n, λ p below. inr (refl, slot-empty_arrays n p))

-- Where the audits of a run have different hashes, it has for an audit, at each id, the report and
-- the vulnerabilities of the last answer for that audit and that id, and none before an answer.
pub run-shows :
    (n : ℕ) (hash_of : ℕ → Text)
    → AreApart n hash_of
    → (answers : List Answer) → AllBelow n answers
    → (p id : ℕ) → p < n
    → shows (hash_of p) id (run hash_of answers (start n)) ≡ last_answer p id answers none
run-shows n hash_of apart answers all_below p id below =
    run-slot n hash_of apart answers (start n) p id all_below below (start-IsValid n hash_of apart)
    ∙ ap (last_answer p id answers) (slot-empty_arrays n p id)

-- ===== src/Node/Auditors/Status.antt =====
-- The life of an auditor as the calls move it.
use mathlib.Core.Path.{subst}
use qrucial_dao.Common.{
  ℕ, ◌+◌, ◌<◌, ◌≡◌, sym, true, false, true≢false, Option, none, some, if◌then◌else◌, length,
  is_some, Bool-cases, inl, inr, arith, ◌==◌,
}
use qrucial_dao.Common.Text.{Text, text_eq, text_eq→eq}
use qrucial_dao.Node.{Storage, insert, remove}
use qrucial_dao.Node.Auditors.{AuditorData}

-- Nothing on the chain, an applicant with so many approvals, or an auditor with a score.
pub data Status : Type 0 where
  unknown : Status
  applicant : ℕ → Status
  auditor : ℕ → Status

abbrev pub status_of : Option ℕ → ℕ → Status
status_of none n = applicant n
status_of (some score) n = auditor score

abbrev pub status : Option AuditorData → Status
status none = unknown
status (some d) = status_of d.score (length d.approved_by)

-- The abstract machine of one account, with the score of a new auditor.
pub data Step (initial : ℕ) : Status → Status → Type 0 where
  stays : {s : Status} → Step initial s s
  applies : Step initial unknown (applicant 0)
  is_approved : {n : ℕ} → n < 2 → Step initial (applicant n) (applicant (n + 1))
  is_accepted : Step initial (applicant 2) (auditor initial)
  plays : {a b : ℕ} → Step initial (auditor a) (auditor b)
  leaves : {s : Status} → Step initial s unknown

module _ (initial : ℕ) where
  abbrev pub Steps : Storage AuditorData → Storage AuditorData → Type 0
  Steps m m' = (x : Text) → Step initial (status (m x)) (status (m' x))

  pub Steps-insert :
      (k : Text) (v : AuditorData) (m m' : Storage AuditorData)
      → Step initial (status (m k)) (status (some v))
      → Steps m m'
      → Steps m (insert k v m')
  Steps-insert k v m m' new old x = elim (Bool-cases (text_eq k x)) [
    | inl eq ↦
        subst (λ b. Step initial (status (m x)) (status (if b then some v else m' x))) (sym eq)
          (subst (λ y. Step initial (status (m y)) (status (some v))) (text_eq→eq k x eq) new)
    | inr ne ↦
        subst (λ b. Step initial (status (m x)) (status (if b then some v else m' x))) (sym ne)
          (old x)
  ]

  pub Steps-remove : (k : Text) (m : Storage AuditorData) → Steps m (remove k m)
  Steps-remove k m x = elim (Bool-cases (text_eq k x)) [
    | inl eq ↦
        subst (λ b. Step initial (status (m x)) (status (if b then none else m x))) (sym eq) leaves
    | inr ne ↦
        subst (λ b. Step initial (status (m x)) (status (if b then none else m x))) (sym ne) stays
  ]

  pub from :
      (o : Option AuditorData) (d : AuditorData) (v : Status)
      → o ≡ some d
      → Step initial (status (some d)) v
      → Step initial (status o) v
  from o d v h s = subst (λ o. Step initial (status o) v) (sym h) s

  pub scored :
      (d : AuditorData) (a b : ℕ) → d.score ≡ some a → Step initial (status (some d)) (auditor b)
  scored d a b h =
      subst (λ o. Step initial (status_of o (length d.approved_by)) (auditor b)) (sym h) plays

  two : (n : ℕ) → (n + 1 == 3) ≡ true → 2 ≡ n
  two n h = ground arith

  pub unscored :
      (o : Option ℕ) (n : ℕ)
      → is_some o ≡ false
      → n < 3
      → Step initial (status_of o n) (status_of (if n + 1 == 3 then some initial else o) (n + 1))
  unscored none n h less = elim (Bool-cases (n + 1 == 3)) [
    | inl last ↦
        rw last (subst (λ m. Step initial (applicant m) (auditor initial)) (two n last) is_accepted)
    | inr more ↦ rw more (is_approved (ground arith))
  ]
  unscored (some s) n h less = absurd (true≢false h)

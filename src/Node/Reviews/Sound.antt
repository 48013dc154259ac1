-- ===== src/Node/Reviews/Sound.antt =====
-- What the storage of the reviews has, and the appends that keep it.
use mathlib.Core.Path.{subst}
use qrucial_dao.Common.{
  ℕ, ◌≡◌, sym, ◌∙◌, ap, true, false, not, ◌&&◌, some, List, if◌then◌else◌, any, all, length,
  get_elem?, Bool-cases, inl, inr, arith, ◌==◌, ==_iff, and_split,
}
use qrucial_dao.Common.Text.{Text, text_eq, text_eq→eq}
use qrucial_dao.Node.{Error, ok, ensure_then-eq, ok_or_then-eq, ok_injective}
use qrucial_dao.Node.Reviews.{
  Report, Challenge, Runtime, State, write, write_at, try_append, reporters, challengers,
}
use qrucial_dao.Node.Reviews.Calls.{new_report_id, report_auditor, new_challenge_id}
use qrucial_dao.Node.Reviews.Names.{
  IsFew, is_apart, all_apart-append, reporters-try_append, get_elem?-reporters,
}

write-all :
    {V : Type 0} (P : Text → V → Type 0) (k : Text) (v : V) (m : Text → V)
    → P k v
    → ((j : Text) → P j (m j))
    → (j : Text) → P j (write k v m j)
write-all P k v m new old j = elim (Bool-cases (text_eq k j)) [
  | inl eq ↦
      subst (λ b. P j (if b then v else m j)) (sym eq) (subst (λ z. P z v) (text_eq→eq k j eq) new)
  | inr ne ↦ subst (λ b. P j (if b then v else m j)) (sym ne) (old j)
]

write_at-all :
    {V : Type 0} (P : Text → ℕ → V → Type 0) (k : Text) (i : ℕ) (v : V) (m : Text → ℕ → V)
    → P k i v
    → ((j : Text) (l : ℕ) → P j l (m j l))
    → (j : Text) (l : ℕ) → P j l (write_at k i v m j l)
write_at-all P k i v m new old j l = elim (Bool-cases (text_eq k j && i == l)) [
  | inl eq ↦
      let (keys, ids) = and_split eq in
      subst (λ b. P j l (if b then v else m j l)) (sym eq)
        (subst (λ z. P z l v) (text_eq→eq k j keys) (subst (λ n. P k n v) ((==_iff i l).0 ids) new))
  | inr ne ↦ subst (λ b. P j l (if b then v else m j l)) (sym ne) (old j l)
]

module _ {runtime : Runtime} where
  -- The reports of a review and the challenges of a report have distinct auditors, ten at most, and
  -- nobody challenges a report of their own, nor one that does not exist.
  pub record IsSound (s : State runtime) : Type 0 where
    pub reports_few : (h : Text) → IsFew (reporters (s.reports h))
    pub challenges_few : (h : Text) (r : ℕ) → IsFew (challengers (s.challenges h r))
    pub apart :
        (h : Text) (r : ℕ)
        → all (is_apart (get_elem? (reporters (s.reports h)) r)) (challengers (s.challenges h r))
          ≡ true

  pub new_report_id-eq :
      (a h : Text) (s : State runtime) (n : ℕ)
      → new_report_id runtime a h s ≡ ok n
      → any (text_eq a) (reporters (s.reports h)) ≡ false
  unfolding new_report_id
  new_report_id-eq a h s n e = ground (
    arith,
    ensure_then-eq (not (any (text_eq a) (reporters (s.reports h)))) Error.duplicate_report_found
        (length (s.reports h)) n e,
  )

  pub new_challenge_id-eq :
      (a h : Text) (r : ℕ) (s : State runtime) (n : ℕ)
      → new_challenge_id runtime a h r s ≡ ok n
      → any (text_eq a) (challengers (s.challenges h r)) ≡ false
  unfolding new_challenge_id
  new_challenge_id-eq a h r s n e = ground (
    arith,
    ensure_then-eq (not (any (text_eq a) (challengers (s.challenges h r))))
        Error.duplicate_challenge_found (length (s.challenges h r)) n e,
  )

  pub report_auditor-eq :
      (h : Text) (r : ℕ) (s : State runtime) (a : Text)
      → report_auditor runtime h r s ≡ ok a
      → get_elem? (reporters (s.reports h)) r ≡ some a
  unfolding report_auditor
  report_auditor-eq h r s a e =
      let (report, there, name) =
        ok_or_then-eq (get_elem? (s.reports h) r) Error.report_not_found (λ x. x.auditor) a e in
      get_elem?-reporters (s.reports h) r report there ∙ ap some (ok_injective name)

  -- A report that is appended by an auditor who has none.
  pub reported-IsSound :
      (s s' : State runtime) (h : Text) (report : Report) (out : List Report)
      → IsSound s
      → any (text_eq report.auditor) (reporters (s.reports h)) ≡ false
      → try_append 10 report (s.reports h) ≡ some out
      → s'.reports ≡ write h out s.reports
      → s'.challenges ≡ s.challenges
      → IsSound s'
  reported-IsSound s s' h report out sound fresh pushed reports challenges =
      let (names, few) =
        reporters-try_append report (s.reports h) out (sound.reports_few h) fresh pushed in
      record {
        reports_few = λ j.
            rw reports
              (write-all (λ _ rs. IsFew (reporters rs)) h out s.reports few sound.reports_few j);
        challenges_few = λ j r. rw challenges (sound.challenges_few j r);
        apart = λ j r.
            rw (reports, challenges)
              (write-all
                (λ j rs.
                  (r : ℕ)
                  → all (is_apart (get_elem? (reporters rs) r)) (challengers (s.challenges j r))
                    ≡ true)
                h out s.reports
                (λ r. rw (← names) (
                  all_apart-append (reporters (s.reports h)) report.auditor r
                    (challengers (s.challenges h r)) (sound.apart h r)))
                sound.apart j r);
      }

  -- The challenges of one report with the names as they were, or with one that is new.
  pub challenged-IsSound :
      (s s' : State runtime) (h : Text) (r : ℕ) (out : List Challenge)
      → IsSound s
      → IsFew (challengers out)
      → all (is_apart (get_elem? (reporters (s.reports h)) r)) (challengers out) ≡ true
      → s'.reports ≡ s.reports
      → s'.challenges ≡ write_at h r out s.challenges
      → IsSound s'
  challenged-IsSound s s' h r out sound few far reports challenges = record {
    reports_few = λ j. rw reports (sound.reports_few j);
    challenges_few = λ j l. rw challenges (
        write_at-all (λ _ _ cs. IsFew (challengers cs)) h r out s.challenges few
          sound.challenges_few j l);
    apart = λ j l.
        rw (reports, challenges)
          (write_at-all
            (λ j l cs.
              all (is_apart (get_elem? (reporters (s.reports j)) l)) (challengers cs) ≡ true)
            h r out s.challenges far sound.apart j l);
  }

-- ===== src/Node/Reviews/Listed.antt =====
-- What the list of challenges of the frontend shows, by the state of the chain.
use qrucial_dao.Common.{
  ℕ, ◌≡◌, refl, sym, ◌∙◌, true, true≢false, ◌&&◌, some, List, [], ◌∷◌, any, All, All-append, find,
  get_elem?, Bool-cases, inl, inr, arith, ◌==◌, ==_iff, and_split,
}
use qrucial_dao.Common.Text.{Text, text_eq, text_eq→eq}
use qrucial_dao.Challenges.{Entry, same, with_keys}
use qrucial_dao.Challenges.Laws.{answers, told_of, answers-find_from}
use qrucial_dao.Node.Auditors.Fine.{is_distinct}
use qrucial_dao.Node.Reviews.{Challenge, Runtime, State, challengers}
use qrucial_dao.Node.Reviews.Laws.{Reach, Reach-IsSound}
use qrucial_dao.Node.Reviews.Told.{
  told_on, answers_of, entry, is_asked, last_of-only, any-append, elsewhere, only, there,
}

module _ (challenges : Text → ℕ → List Challenge) (hash : Text) (report id : ℕ) (c : Challenge)
    (distinct : is_distinct (challengers (challenges hash report)) ≡ true)
    (stored : get_elem? (challenges hash report) id ≡ some c) where
  told-only :
      (asked : List (Text × ℕ))
      → All
          (λ x. same (entry hash report id c) x ≡ true → x ≡ entry hash report id c)
          (told_of (answers_of challenges asked))
  unfolding answers_of
  told-only [] = tt
  told-only ((h, r) ∷ later) =
      All-append _ (with_keys h r 0 (told_on (challenges h r)))
        (told_of (answers_of challenges later))
        (elim (Bool-cases (text_eq h hash && r == report)) [
          | inl eq ↦
              let (hashes, reports) = and_split eq in
              rw (text_eq→eq h hash hashes, (==_iff r report).0 reports)
                (only hash report 0 id id c (challenges hash report) distinct stored (omega arith))
          | inr ne ↦ elsewhere h r 0 (entry hash report id c) (challenges h r) ne
        ])
        (told-only later)

  told-there :
      (asked : List (Text × ℕ))
      → is_asked hash report asked ≡ true
      → any (same (entry hash report id c)) (told_of (answers_of challenges asked)) ≡ true
  unfolding answers_of
  told-there [] h = absurd (true≢false (sym h))
  told-there ((j, r) ∷ later) h =
      any-append (same (entry hash report id c)) (with_keys j r 0 (told_on (challenges j r)))
        (told_of (answers_of challenges later))
      ∙ elim (Bool-cases (text_eq j hash && r == report)) [
        | inl eq ↦
            let (hashes, reports) = and_split eq in
            rw (text_eq→eq j hash hashes, (==_iff r report).0 reports)
              (rw (there hash report 0 id id c (challenges hash report) stored) refl)
        | inr ne ↦ ground (arith, told-there later (sym (rw ne refl) ∙ h))
      ]

-- In every state of the chain, once the reports that are asked for have answered, whatever was in
-- the list before, every challenge of these that is stored is found in the list by its key, with
-- its own id, auditor and state: no challenge hides another.
pub answers-stored :
    (runtime : Runtime) (s : State runtime) (asked : List (Text × ℕ)) (list : List Entry)
    (hash : Text) (report id : ℕ) (c : Challenge)
    → Reach runtime s
    → is_asked hash report asked ≡ true
    → get_elem? (s.challenges hash report) id ≡ some c
    → find (same (entry hash report id c)) (answers (answers_of s.challenges asked) list)
      ≡ some (entry hash report id c)
answers-stored runtime s asked list hash report id c reach ask stored =
    let distinct = ((Reach-IsSound runtime s reach).challenges_few hash report).distinct in
    answers-find_from (answers_of s.challenges asked) list (entry hash report id c)
    ∙ last_of-only (same (entry hash report id c)) (entry hash report id c)
        (told_of (answers_of s.challenges asked)) (find (same (entry hash report id c)) list)
        (told-only s.challenges hash report id c distinct stored asked)
        (told-there s.challenges hash report id c distinct stored asked ask)

-- ===== src/Challenges/Titles/Laws.antt =====
-- Which names the titles show.
use qrucial_dao.Common.{
  ℕ, zero, suc, ◌≡◌, refl, ap, ◌∙◌, Option, none, some, List, [], ◌∷◌, ◌++◌, ◌<◌, length,
  length-set, length-append, set, slot, assign, slot-assign, ◌==◌, ==_iff, false, Bool-cases, inl,
  inr, sym, if◌then◌else◌, arith,
}
use qrucial_dao.Common.Text.{Text}
use qrucial_dao.Http.{Answer}
use qrucial_dao.Challenges.Titles.{
  name_of, NameArray, Names, on_challenges, run_at, write_name, on_name,
}

-- What happens to the names: the challenges change, or the answer to a run for the challenge at an
-- index comes.
pub data Event : Type 0 where
  changed : Event
  named : ℕ → ℕ → Answer (Option (List (Option Text))) → Event

unfoldable pub steps : List Event → Names → Names
steps [] n = n
steps (changed ∷ events) n = steps events (on_challenges n)
steps (named run i a ∷ events) n = steps events (on_name run i a n)

-- The last name that was answered to a run for an index, or what was there.
abbrev pub pick : ℕ → ℕ → Option (Option Text) → Option (Option Text) → Option (Option Text)
pick j i none before = before
pick j i (some name) before = if j == i then some name else before

abbrev pub last_name : ℕ → ℕ → List Event → Option (Option Text) → Option (Option Text)
last_name run j [] before = before
last_name run j (changed ∷ events) before = last_name run j events before
last_name run j (named r i a ∷ events) before =
    last_name run j events (if run == r then pick j i (name_of a) before else before)

run_at-set :
    (r : ℕ) (runs : List NameArray) (v : NameArray) → r < length runs → run_at r (set runs r v) ≡ v
run_at-set r [] v h = absurd (omega arith)
run_at-set zero (x ∷ runs) v h = refl
run_at-set (suc r) (x ∷ runs) v h = run_at-set r runs v (omega arith)

run_at-new : (runs : List NameArray) (v : NameArray) → run_at (length runs) (runs ++ (v ∷ [])) ≡ v
run_at-new [] v = refl
run_at-new (x ∷ runs) v = run_at-new runs v

run_at-append :
    (r : ℕ) (runs : List NameArray) (v : NameArray)
    → r < length runs
    → run_at r (runs ++ (v ∷ [])) ≡ run_at r runs
run_at-append r [] v h = absurd (omega arith)
run_at-append zero (x ∷ runs) v h = refl
run_at-append (suc r) (x ∷ runs) v h = run_at-append r runs v (omega arith)

run_at-set_other :
    (r q : ℕ) (runs : List NameArray) (v : NameArray)
    → (r == q) ≡ false
    → run_at r (set runs q v) ≡ run_at r runs
run_at-set_other r q [] v h = refl
run_at-set_other zero zero (x ∷ runs) v h = ground arith
run_at-set_other zero (suc q) (x ∷ runs) v h = refl
run_at-set_other (suc r) zero (x ∷ runs) v h = refl
run_at-set_other (suc r) (suc q) (x ∷ runs) v h = run_at-set_other r q runs v (ground arith)

length-write_name :
    (q i : ℕ) (o : Option (Option Text)) (n : Names)
    → length (write_name q i o n).runs ≡ length n.runs
length-write_name q i none n = refl
length-write_name q i (some name) n = length-set n.runs q (assign i name (run_at q n.runs))

slot-write_name :
    (run q i j : ℕ) (o : Option (Option Text)) (n : Names)
    → run < length n.runs
    → slot j (run_at run (write_name q i o n).runs)
      ≡ (if run == q then pick j i o (slot j (run_at run n.runs)) else slot j (run_at run n.runs))
slot-write_name run q i j none n h = ground arith
slot-write_name run q i j (some name) n h = elim (Bool-cases (run == q)) [
  | inl here ↦
      rw
        (here, ← (==_iff run q).0 here, run_at-set run n.runs (assign i name (run_at run n.runs)) h)
        (slot-assign i j name (run_at run n.runs))
  | inr there ↦
      rw (there, run_at-set_other run q n.runs (assign i name (run_at q n.runs)) there) refl
]

-- What is shown after a name is the array that it was written to.
shown-write_name :
    (run i : ℕ) (name : Option Text) (n : Names)
    → run < length n.runs
    → (write_name run i (some name) n).auditor_names
      ≡ run_at run (write_name run i (some name) n).runs
shown-write_name run i name n h = sym (run_at-set run n.runs (assign i name (run_at run n.runs)) h)

slot-steps :
    (run j : ℕ) (events : List Event) (n : Names)
    → run < length n.runs
    → (run < length (steps events n).runs)
      × (slot j (run_at run (steps events n).runs)
          ≡ last_name run j events (slot j (run_at run n.runs)))
unfolding steps on_name on_challenges
slot-steps run j [] n h = (h, refl)
slot-steps run j (changed ∷ events) n h =
    let (less, eq) =
      slot-steps run j events (record n { runs = n.runs ++ (n.auditor_names ∷ []) })
        (rw (length-append n.runs (n.auditor_names ∷ [])) (omega arith)) in
    (
      less,
      eq
          ∙ ap (λ names. last_name run j events (slot j names))
              (run_at-append run n.runs n.auditor_names h),
    )
slot-steps run j (named q i a ∷ events) n h =
    let (less, eq) =
      slot-steps run j events (write_name q i (name_of a) n)
        (rw (length-write_name q i (name_of a) n) h) in
    (less, eq ∙ ap (last_name run j events) (slot-write_name run q i j (name_of a) n h))

steps-append :
    (events : List Event) (run i : ℕ) (a : Answer (Option (List (Option Text)))) (n : Names)
    → steps (events ++ (named run i a ∷ [])) n ≡ write_name run i (name_of a) (steps events n)
unfolding steps on_name
steps-append [] run i a n = refl
steps-append (changed ∷ events) run i a n = steps-append events run i a (on_challenges n)
steps-append (named q k b ∷ events) run i a n = steps-append events run i a (on_name q k b n)

-- For a run of the effect, whatever changes of the list and answers to whichever runs come after its
-- beginning: as an answer to that run comes with a name, the name shown at an index is the last one
-- answered to that run for it, and before that the one that was shown as the run began. No answer
-- to another run is in it.
pub slot-on_name :
    (events : List Event) (n : Names) (i j : ℕ) (a : Answer (Option (List (Option Text))))
    (name : Option Text)
    → name_of a ≡ some name
    → slot j (on_name (length n.runs) i a (steps events (on_challenges n))).auditor_names
      ≡ last_name
          (length n.runs)
          j
          (events ++ (named (length n.runs) i a ∷ []))
          (slot j n.auditor_names)
unfolding on_challenges on_name
slot-on_name events n i j a name named_so =
    let begun : Names = record n { runs = n.runs ++ (n.auditor_names ∷ []) } in
    let run = length n.runs in
    let start : run < length begun.runs =
      rw (length-append n.runs (n.auditor_names ∷ [])) (omega arith) in
    let (less, _) = slot-steps run j events begun start in
    let (_, eq) = slot-steps run j (events ++ (named run i a ∷ [])) begun start in
    let shown = shown-write_name run i name (steps events begun) less in
    let last : steps (events ++ (named run i a ∷ [])) begun
        ≡ write_name run i (some name) (steps events begun) =
      steps-append events run i a begun
      ∙ ap (λ o. write_name run i o (steps events begun)) named_so in
    rw named_so (
      ap (slot j) shown
      ∙ (ap (λ m. slot j (run_at run m.runs)) (sym last)
          ∙ (eq
              ∙ ap (λ names. last_name run j (events ++ (named run i a ∷ [])) (slot j names))
                  (run_at-new n.runs n.auditor_names))))

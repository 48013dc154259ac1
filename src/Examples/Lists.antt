-- ===== src/Examples/Lists.antt =====
-- The lists of the pages after concrete answers.
use qrucial_dao.Common.{
  ℕ, ◌⊎◌, inl, inr, ◌≡◌, ◌<◌, refl, false, Option, none, some, List, [], ◌∷◌, ◌++◌, arith,
  if◌then◌else◌, find, last_of, IsUnique, length, keep,
}
use qrucial_dao.Common.Text.{Text, codes, text_eq}
use qrucial_dao.Pool.{Auditor, Card, on_answers}
use qrucial_dao.Pool.Order.{Locale, less, same, sort, IsOrdered}
use qrucial_dao.Challenges.{Told}
use qrucial_dao.Reports.{Report}
use qrucial_dao.Approval.{Choice}
use qrucial_dao.Pool.Order.{sort-IsOrdered}
use qrucial_dao.Pool.Laws.{cards, on_answers-find}
use qrucial_dao.Reports.{start, on_audit_data}
use qrucial_dao.Reports.Laws.{Answer, shows, last_answer}
use qrucial_dao.Reports.Runs as Answered
use qrucial_dao.Reports
use qrucial_dao.Approval.Laws.{
  on_answers as on_approvals, lists_all, listed-on_answers, count, count-on_answers-le,
}
use qrucial_dao.Pool
use qrucial_dao.Approval
use qrucial_dao.Approval.Laws
use qrucial_dao.Events

abbrev ann : Auditor
ann = record { address = codes "A1"; name = some (codes "ann"); more = [] }

abbrev bob : Auditor
bob = record { address = codes "B2"; name = none; more = codes "bio" ∷ [] }

abbrev score_of : ℕ → Pool.Entry
score_of n = record { score = some n; approved_by = codes "B2" ∷ [] }

abbrev pool_answers : List (Auditor × Option Pool.Entry)
pool_answers =
    (ann, some (score_of 3))
    ∷ (bob, some (score_of 5))
    ∷ (ann, some (score_of 7))
    ∷ (bob, none)
    ∷ []

-- The two addresses that are asked for.
abbrev Asked : Text → Type 0
Asked x = (x ≡ codes "A1") ⊎ (x ≡ codes "B2")

ann-IsOwn : (n : ℕ) → Pool.Laws.IsOwn Asked (Pool.Laws.card ann (score_of n))
unfolding Pool.holds
ann-IsOwn n x (inl e) = rw e refl
ann-IsOwn n x (inr e) = rw e refl

bob-IsOwn : (n : ℕ) → Pool.Laws.IsOwn Asked (Pool.Laws.card bob (score_of n))
unfolding Pool.holds
bob-IsOwn n x (inl e) = rw e refl
bob-IsOwn n x (inr e) = rw e refl

on_answers-find_example :
    let pool = on_answers pool_answers [] in
    IsUnique Pool.Laws.same pool
    × ((c : Card)
        → find (Pool.Laws.same c) pool ≡ last_of (Pool.Laws.same c) (cards pool_answers) none)
on_answers-find_example =
    on_answers-find Asked pool_answers
      (inl refl, ann-IsOwn 3, (inr refl, bob-IsOwn 5, (inl refl, ann-IsOwn 7, tt)))

abbrev alphabet : Locale
alphabet m n = if text_eq m n then same else less

sort-IsOrdered_example :
    let pool = cards pool_answers in
    IsOrdered (sort alphabet pool)
    × ((p : Card → _) → length (keep p (sort alphabet pool)) ≡ length (keep p pool))
sort-IsOrdered_example = sort-IsOrdered alphabet (cards pool_answers)

abbrev told : List (Text × ℕ × Option (List Told))
told =
    (
      codes "h",
      0,
      some (
          record { auditor = codes "A1"; state = codes "New" }
          ∷ record { auditor = codes "A1"; state = codes "Old" }
          ∷ []),
    )
    ∷ (codes "h", 1, none)
    ∷ []

abbrev entries : List ((Text × ℕ) × Text)
entries = ((codes "h", 0), []) ∷ ((codes "h", 1), []) ∷ ((codes "g", 0), []) ∷ []

-- One code unit for each place.
abbrev hash_of : ℕ → Text
hash_of p = p ∷ []

hash_of-apart : (p q : ℕ) → p < 2 → q < 2 → hash_of p ≡ hash_of q → p ≡ q
hash_of-apart p q a b e = cc

abbrev manual : Report
manual = record { auditor = codes "A1"; kind = codes "Manual" }

abbrev none_yet : Reports.State
none_yet = record { totals = []; reports = start 0 }

-- The audits change again before the second answer comes, and an answer to that run comes earlier.
abbrev told_reports : List Answered.Event
told_reports =
    Answered.answered 0 (record { place = 1; report = manual; id = 2; vulnerabilities = none })
    ∷ Answered.begun 1
    ∷ Answered.answered 1 (record { place = 0; report = manual; id = 1; vulnerabilities = none })
    ∷ []

abbrev last_told : Answer
last_told = record { place = 0; report = manual; id = 0; vulnerabilities = some (codes "xss" ∷ []) }

shows-on_run_example :
    shows
      (hash_of 1)
      2
      (Answered.take_answer
        (λ _. hash_of)
        0
        last_told
        (Answered.steps (λ _. hash_of) told_reports (on_audit_data 2 none_yet))).reports
    ≡ last_answer 1 2 (Answered.answers_to 0 told_reports ++ (last_told ∷ [])) none
shows-on_run_example =
    Answered.shows-on_run (λ _. hash_of) 2 none_yet told_reports last_told hash_of-apart
      (omega arith, (omega arith, tt)) 1 2 (omega arith)

abbrev approvals : List Approval.Laws.Answer
approvals =
    record {
      address = codes "A1";
      name = codes "ann";
      entry = some (record { score = none; approved_by = [] });
    }
    ∷ record {
      address = codes "A1";
      name = codes "ann";
      entry = some (record { score = none; approved_by = codes "B2" ∷ [] });
    }
    ∷ []

listed-on_answers_example :
    Approval.listed (codes "A1") (on_approvals (codes "B2") approvals [])
    ≡ lists_all (codes "B2") (codes "A1") approvals false
listed-on_answers_example = listed-on_answers (codes "B2") (codes "A1") approvals []

abbrev happened : List Events.Event
happened =
    record { section = codes "exoSys"; method = codes "Proposed"; params = []; phase = [] }
    ∷ record {
      section = codes "system";
      method = codes "ExtrinsicSuccess";
      params = [];
      phase = codes "{\"applyExtrinsic\":0}";
    }
    ∷ []

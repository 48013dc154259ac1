-- ===== src/Reports/Runs.antt =====
-- What the page shows with several runs of the effect that fills the reports (Reports.js).
use mathlib.Core.Path.{subst}
use qrucial_dao.Common.{
  ℕ, zero, suc, ◌<◌, ◌≡◌, refl, sym, ap, ◌∙◌, false, Option, none, some, List, [], ◌∷◌, ◌++◌,
  if◌then◌else◌, length, set, get_elem?, none-ne-some, Bool-cases, inl, inr, arith, ◌==◌, ==_iff,
}
use qrucial_dao.Common.Text.{Text}
use qrucial_dao.Reports.{Total, State, start, write_run, on_vulnerabilities, on_audit_data, on_run}
use qrucial_dao.Reports.Laws.{Answer, run, shows, last_answer, AllBelow, AreApart, run-shows}

-- The list of the audits changes, to so many, or the answer to a run comes.
pub data Event : Type 0 where
  begun : ℕ → Event
  answered : ℕ → Answer → Event

-- The hash of an audit by the run and the place.
abbrev pub Hashes : Type 0
Hashes = ℕ → ℕ → Text

abbrev pub take_answer : Hashes → ℕ → Answer → State → State
take_answer hashes q a = on_run q a.place (hashes q a.place) a.report a.id a.vulnerabilities

abbrev pub steps : Hashes → List Event → State → State
steps hashes [] s = s
steps hashes (begun n ∷ events) s = steps hashes events (on_audit_data n s)
steps hashes (answered q a ∷ events) s = steps hashes events (take_answer hashes q a s)

-- The answers to a run.
abbrev pub answers_to : ℕ → List Event → List Answer
answers_to r [] = []
answers_to r (begun n ∷ events) = answers_to r events
answers_to r (answered q a ∷ events) =
    if r == q then a ∷ answers_to r events else answers_to r events

module _ {A : Type 0} where
  get_elem?-append :
      (xs : List A) (v w : A) (r : ℕ)
      → get_elem? xs r ≡ some w
      → get_elem? (xs ++ (v ∷ [])) r ≡ some w
  get_elem?-append [] v w r h = absurd (none-ne-some h)
  get_elem?-append (x ∷ xs) v w zero h = h
  get_elem?-append (x ∷ xs) v w (suc r) h = get_elem?-append xs v w r h

  get_elem?-new : (xs : List A) (v : A) → get_elem? (xs ++ (v ∷ [])) (length xs) ≡ some v
  get_elem?-new [] v = refl
  get_elem?-new (x ∷ xs) v = get_elem?-new xs v

  get_elem?-set :
      (xs : List A) (v w : A) (r : ℕ) → get_elem? xs r ≡ some w → get_elem? (set xs r v) r ≡ some v
  get_elem?-set [] v w r h = absurd (none-ne-some h)
  get_elem?-set (x ∷ xs) v w zero h = refl
  get_elem?-set (x ∷ xs) v w (suc r) h = get_elem?-set xs v w r h

  get_elem?-set_other :
      (xs : List A) (v : A) (r q : ℕ) → (r == q) ≡ false → get_elem? (set xs q v) r ≡ get_elem? xs r
  get_elem?-set_other [] v r q h = refl
  get_elem?-set_other (x ∷ xs) v zero zero h = ground arith
  get_elem?-set_other (x ∷ xs) v zero (suc q) h = refl
  get_elem?-set_other (x ∷ xs) v (suc r) zero h = refl
  get_elem?-set_other (x ∷ xs) v (suc r) (suc q) h = get_elem?-set_other xs v r q (ground arith)

untouched :
    (r q : ℕ) (f : Total → Total) (o : Option Total) (s : State)
    → (r == q) ≡ false
    → get_elem? (write_run q f o s).totals r ≡ get_elem? s.totals r
untouched r q f none s h = refl
untouched r q f (some t) s h = get_elem?-set_other s.totals (f t) r q h

module _ (hashes : Hashes) where
  own :
      (r : ℕ) (a : Answer) (s : State) (t : Total)
      → get_elem? s.totals r ≡ some t
      → let t' = on_vulnerabilities a.place (hashes r a.place) a.report a.id a.vulnerabilities t in
        (get_elem? (take_answer hashes r a s).totals r ≡ some t')
        × ((take_answer hashes r a s).reports ≡ t')
  unfolding on_run
  own r a s t h =
      let f = on_vulnerabilities a.place (hashes r a.place) a.report a.id a.vulnerabilities in
      subst
        (λ o.
          (get_elem? (write_run r f o s).totals r ≡ some (f t))
          × ((write_run r f o s).reports ≡ f t))
        (sym h) (get_elem?-set s.totals (f t) t r h, refl)

  other :
      (r q : ℕ) (a : Answer) (s : State)
      → (r == q) ≡ false
      → get_elem? (take_answer hashes q a s).totals r ≡ get_elem? s.totals r
  unfolding on_run
  other r q a s h =
      untouched r q (on_vulnerabilities a.place (hashes q a.place) a.report a.id a.vulnerabilities)
        (get_elem? s.totals q) s h

  totals-steps :
      (r : ℕ) (events : List Event) (s : State) (t : Total)
      → get_elem? s.totals r ≡ some t
      → get_elem? (steps hashes events s).totals r ≡ some (run (hashes r) (answers_to r events) t)
  unfolding on_audit_data
  totals-steps r [] s t h = h
  totals-steps r (begun n ∷ events) s t h =
      totals-steps r events (record s { totals = s.totals ++ (start n ∷ []) }) t
        (get_elem?-append s.totals (start n) t r h)
  totals-steps r (answered q a ∷ events) s t h = elim (Bool-cases (r == q)) [
    | inl here ↦
        rw (here, ← (==_iff r q).0 here)
          (totals-steps r events (take_answer hashes r a s) _ (own r a s t h).0)
    | inr there ↦
        rw there (totals-steps r events (take_answer hashes q a s) t (other r q a s there ∙ h))
  ]

  run-append :
      (f : ℕ → Text) (xs : List Answer) (a : Answer) (t : Total)
      → run f (xs ++ (a ∷ [])) t
        ≡ on_vulnerabilities a.place (f a.place) a.report a.id a.vulnerabilities (run f xs t)
  run-append f [] a t = refl
  run-append f (x ∷ xs) a t = run-append f xs a _

-- For a run of the effect on audits of different hashes, whatever changes of the audits and answers
-- to whichever runs come after its beginning: as an answer to that run comes, the page shows for
-- each of its audits, at each id, the report and the vulnerabilities of the last answer to that run
-- for that audit and that id, and none before one. No answer to another run is in it.
pub shows-on_run :
    (hashes : Hashes) (n : ℕ) (s : State) (events : List Event) (a : Answer)
    → AreApart n (hashes (length s.totals))
    → AllBelow n (answers_to (length s.totals) events ++ (a ∷ []))
    → (p id : ℕ) → p < n
    → let r = length s.totals in
      shows
        (hashes r p)
        id
        (take_answer hashes r a (steps hashes events (on_audit_data n s))).reports
      ≡ last_answer p id (answers_to r events ++ (a ∷ [])) none
unfolding on_audit_data
shows-on_run hashes n s events a apart below p id small =
    let r = length s.totals in
    let begun_so : State = record s { totals = s.totals ++ (start n ∷ []) } in
    let before =
      totals-steps hashes r events begun_so (start n) (get_elem?-new s.totals (start n)) in
    let (_, told) = own hashes r a (steps hashes events begun_so) _ before in
    ap (shows (hashes r p) id)
      (told ∙ sym (run-append hashes (hashes r) (answers_to r events) a (start n)))
    ∙ run-shows n (hashes r) apart (answers_to r events ++ (a ∷ [])) below p id small

-- ===== src/Challenges/Laws.antt =====
-- What the list of challenges holds.
use qrucial_dao.Common.{
  ℕ, ◌≡◌, refl, sym, ap, ◌∙◌, true, ◌||◌, Option, none, some, List, [], ◌∷◌, ◌++◌, any, find,
  upsert, upsert_all, last_of, IsUnique, KeyLaws, find-upsert_all, IsUnique-upsert_all, ==_iff,
  ==_refl, if◌then◌else◌, Bool-cases, and_split, length, keep, inl, inr, arith,
}
use qrucial_dao.Common.Text.{Text, text_eq, text_eq_refl, text_eq→eq}
use qrucial_dao.Challenges.{
  challenged_hashes, unique_from, audit_hashes, Told, Entry, same, with_keys, add_all, on_answer,
}

same_refl : (c : Entry) → same c c ≡ true
same_refl c = rw (text_eq_refl, ==_refl, text_eq_refl) refl

same_congr : (c d : Entry) → same c d ≡ true → (x : Entry) → same c x ≡ same d x
same_congr c d h x =
    let (front, auditor) = and_split h in
    let (hash, report) = and_split front in
    rw
      (
        text_eq→eq d.audit_hash c.audit_hash hash,
        (==_iff d.report_id c.report_id).0 report,
        text_eq→eq d.told.auditor c.told.auditor auditor,
      )
      refl

same-KeyLaws : KeyLaws same
same-KeyLaws = record { same_refl = same_refl; same_congr = same_congr }

-- The answers of the node in turn, each for a report, and the challenges of all of them.
unfoldable pub answers : List (Text × ℕ × Option (List Told)) → List Entry → List Entry
answers [] cs = cs
answers ((hash, report, a) ∷ later) cs = answers later (on_answer hash report a cs)

abbrev pub told_of : List (Text × ℕ × Option (List Told)) → List Entry
told_of [] = []
told_of ((hash, report, none) ∷ later) = told_of later
told_of ((hash, report, some told) ∷ later) = with_keys hash report 0 told ++ told_of later

add_all-upsert_all : (cs list : List Entry) → add_all cs list ≡ upsert_all same cs list
unfolding add_all
add_all-upsert_all [] list = refl
add_all-upsert_all (c ∷ cs) list = add_all-upsert_all cs (upsert (same c) c list)

upsert_all-append :
    (cs ds list : List Entry)
    → upsert_all same (cs ++ ds) list ≡ upsert_all same ds (upsert_all same cs list)
upsert_all-append [] ds list = refl
upsert_all-append (c ∷ cs) ds list = upsert_all-append cs ds (upsert (same c) c list)

answers-upsert_all :
    (as_told : List (Text × ℕ × Option (List Told))) (list : List Entry)
    → answers as_told list ≡ upsert_all same (told_of as_told) list
unfolding answers on_answer
answers-upsert_all [] list = refl
answers-upsert_all ((hash, report, none) ∷ later) list = answers-upsert_all later list
answers-upsert_all ((hash, report, some told) ∷ later) list =
    answers-upsert_all later (add_all (with_keys hash report 0 told) list)
    ∙ ap (upsert_all same (told_of later)) (add_all-upsert_all (with_keys hash report 0 told) list)
    ∙ sym (upsert_all-append (with_keys hash report 0 told) (told_of later) list)

pub answers-find_from :
    (as_told : List (Text × ℕ × Option (List Told))) (list : List Entry) (c : Entry)
    → find (same c) (answers as_told list) ≡ last_of (same c) (told_of as_told) (find (same c) list)
answers-find_from as_told list c =
    rw (answers-upsert_all as_told list)
      (find-upsert_all same same-KeyLaws c (told_of as_told) list)

-- After any answers the list has one challenge at most for a hash, a report and an auditor, and it
-- is the last one that was told with these three, whatever the ids of the challenges are.
pub answers-find :
    (as_told : List (Text × ℕ × Option (List Told)))
    → let list = answers as_told [] in
      IsUnique same list
      × ((c : Entry) → find (same c) list ≡ last_of (same c) (told_of as_told) none)
answers-find as_told = rw (answers-upsert_all as_told []) (
  IsUnique-upsert_all same same-KeyLaws (told_of as_told) [] tt,
  λ c. find-upsert_all same same-KeyLaws c (told_of as_told) [],
)

count-unique_from :
    (h : Text) (seen hashes : List Text)
    → length (keep (text_eq h) (unique_from seen hashes))
      ≡ (if any (text_eq h) seen then 0 else if any (text_eq h) hashes then 1 else 0)
count-unique_from h seen [] = ground arith
count-unique_from h seen (x ∷ hashes) = elim (Bool-cases (text_eq h x)) [
  | inl eq ↦ rw (← text_eq→eq h x eq) (
      ground (
        arith,
        text_eq_refl h,
        count-unique_from h seen hashes,
        count-unique_from h (h ∷ seen) hashes,
      ))
  | inr ne ↦ ground (arith, count-unique_from h seen hashes, count-unique_from h (x ∷ seen) hashes)
]

any-challenged_hashes :
    (h : Text) (entries : List ((Text × ℕ) × Text))
    → any (text_eq h) (challenged_hashes entries) ≡ any (λ e. text_eq h e.0.0) entries
any-challenged_hashes h [] = refl
any-challenged_hashes h (((hash, report), value) ∷ entries) =
    ap (text_eq h hash ||◌) (any-challenged_hashes h entries)

-- The reports are asked for once for each hash that has a challenge, and for no other hash.
pub count-audit_hashes :
    (h : Text) (entries : List ((Text × ℕ) × Text))
    → length (keep (text_eq h) (audit_hashes entries))
      ≡ (if any (λ e. text_eq h e.0.0) entries then 1 else 0)
unfolding audit_hashes
count-audit_hashes h entries =
    count-unique_from h [] (challenged_hashes entries)
    ∙ ap (λ b. if b then 1 else 0) (any-challenged_hashes h entries)

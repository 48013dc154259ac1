-- ===== src/Approval/Laws.antt =====
-- Who is in the menu.
use qrucial_dao.Common.{
  ℕ, ◌≡◌, refl, ap, ◌∙◌, ◌≤◌, Bool, true, false, not, ◌||◌, Option, none, some, List, [], ◌∷◌, ◌++◌,
  if◌then◌else◌, any, keep, length, keep-append, length-append, Bool-cases, inl, inr, arith,
}
use qrucial_dao.Common.Text.{Text, text_eq, text_eq_refl, text_eq→eq}
use qrucial_dao.Approval.{Choice, Entry, remove, listed, update, is_scored, on_answer}

-- An answer with the auditor's address and name.
pub record Answer : Type 0 where
  pub address : Text
  pub name : Text
  pub entry : Option Entry

unfoldable pub on_answers : Text → List Answer → List Choice → List Choice
on_answers approvee [] choices = choices
on_answers approvee (a ∷ later) choices =
    on_answers approvee later (on_answer approvee a.address a.name a.entry choices).0

-- Whether an answer lists the auditor: the account's approval takes it off the menu, and only an
-- entry without a score, or with a score of 0, brings it there.
abbrev pub lists : Text → Option Entry → Bool → Bool
lists approvee none before = before
lists approvee (some e) before =
    if any (text_eq approvee) e.approved_by
    then false
    else if is_scored e.score
    then before
    else true

abbrev pub lists_all : Text → Text → List Answer → Bool → Bool
lists_all approvee x [] before = before
lists_all approvee x (a ∷ later) before =
    lists_all approvee x later
      (if text_eq a.address x then lists approvee a.entry before else before)

listed-remove_same : (x : Text) (cs : List Choice) → listed x (remove x cs) ≡ false
listed-remove_same x [] = refl
listed-remove_same x (c ∷ cs) = ground (arith, listed-remove_same x cs)

listed-append :
    (x : Text) (cs ds : List Choice) → listed x (cs ++ ds) ≡ (listed x cs || listed x ds)
listed-append x [] ds = refl
listed-append x (c ∷ cs) ds = ground (arith, listed-append x cs ds)

text_eq_clash : (a x c : Text) → text_eq a x ≡ false → text_eq c a ≡ true → text_eq c x ≡ false
text_eq_clash a x c h e = rw (text_eq→eq c a e) h

listed-remove_other :
    (a x : Text) (cs : List Choice) → text_eq a x ≡ false → listed x (remove a cs) ≡ listed x cs
listed-remove_other a x [] h = refl
listed-remove_other a x (c ∷ cs) h = elim (Bool-cases (text_eq c.key a)) [
  | inl eq ↦ ground (arith, listed-remove_other a x cs h, text_eq_clash a x c.key h eq)
  | inr ne ↦ ground (arith, listed-remove_other a x cs h)
]

listed-update_same : (x n : Text) (b : Bool) (cs : List Choice) → listed x (update x b n cs) ≡ not b
unfolding update
listed-update_same x n true cs = listed-remove_same x cs
listed-update_same x n false cs = elim (Bool-cases (listed x cs)) [
  | inl h ↦ rw h h
  | inr h ↦
      rw h (listed-append x cs (record { key = x; name = n } ∷ []) ∙ ground (arith, text_eq_refl x))
]

listed-update_other :
    (a x n : Text) (b : Bool) (cs : List Choice)
    → text_eq a x ≡ false
    → listed x (update a b n cs) ≡ listed x cs
unfolding update
listed-update_other a x n true cs h = listed-remove_other a x cs h
listed-update_other a x n false cs h = elim (Bool-cases (listed a cs)) [
  | inl l ↦ rw l refl
  | inr l ↦ rw l (listed-append x cs (record { key = a; name = n } ∷ []) ∙ ground arith)
]

at_same :
    (approvee x n : Text) (e : Option Entry) (cs : List Choice)
    → listed x (on_answer approvee x n e cs).0 ≡ lists approvee e (listed x cs)
unfolding on_answer
at_same approvee x n none cs = refl
at_same approvee x n (some e) cs = ground (
  arith,
  listed-update_same x n (any (text_eq approvee) e.approved_by) cs,
  listed-update_same x n (any (text_eq approvee) e.approved_by) (remove x cs),
)

at_other :
    (approvee a x n : Text) (e : Option Entry) (cs : List Choice)
    → text_eq a x ≡ false
    → listed x (on_answer approvee a n e cs).0 ≡ listed x cs
unfolding on_answer
at_other approvee a x n none cs h = refl
at_other approvee a x n (some e) cs h = ground (
  arith,
  listed-update_other a x n (any (text_eq approvee) e.approved_by) cs h,
  listed-update_other a x n (any (text_eq approvee) e.approved_by) (remove a cs) h,
  listed-remove_other a x cs h,
)

listed-on_answer :
    (approvee x : Text) (a : Answer) (cs : List Choice)
    → listed x (on_answer approvee a.address a.name a.entry cs).0
      ≡ (if text_eq a.address x then lists approvee a.entry (listed x cs) else listed x cs)
unfolding on_answer
listed-on_answer approvee x a cs = elim (Bool-cases (text_eq a.address x)) [
  | inl eq ↦ rw (eq, text_eq→eq a.address x eq) (at_same approvee x a.name a.entry cs)
  | inr ne ↦ rw ne (at_other approvee a.address x a.name a.entry cs ne)
]

-- After any answers, an auditor is in the menu exactly as the last answers on that auditor say: an
-- approval by the account took it off, an entry with no score, or a score of 0, and without that
-- approval listed it, and an entry with a score above 0 but without that approval left it as it was.
pub listed-on_answers :
    (approvee x : Text) (answers : List Answer) (cs : List Choice)
    → listed x (on_answers approvee answers cs) ≡ lists_all approvee x answers (listed x cs)
unfolding on_answers
listed-on_answers approvee x [] cs = refl
listed-on_answers approvee x (a ∷ later) cs =
    listed-on_answers approvee x later (on_answer approvee a.address a.name a.entry cs).0
    ∙ ap (lists_all approvee x later) (listed-on_answer approvee x a cs)

-- An auditor stands in the menu once at most.
abbrev pub count : Text → List Choice → ℕ
count x cs = length (keep (λ c. text_eq c.key x) cs)

count-unlisted : (x : Text) (cs : List Choice) → listed x cs ≡ false → count x cs ≡ 0
count-unlisted x [] h = refl
count-unlisted x (c ∷ cs) h = ground (arith, count-unlisted x cs)

count-remove-le : (a x : Text) (cs : List Choice) → count x (remove a cs) ≤ count x cs
count-remove-le a x [] = omega arith
count-remove-le a x (c ∷ cs) = ground (arith, count-remove-le a x cs)

count-push-le :
    (a x n : Text) (cs : List Choice)
    → listed a cs ≡ false
    → count x cs ≤ 1
    → count x (cs ++ (record { key = a; name = n } ∷ [])) ≤ 1
count-push-le a x n cs h le =
    rw
      (
        keep-append (λ c. text_eq c.key x) cs (record { key = a; name = n } ∷ []),
        length-append (keep (λ c. text_eq c.key x) cs)
            (keep (λ c. text_eq c.key x) (record { key = a; name = n } ∷ [])),
      )
      (elim (Bool-cases (text_eq a x)) [
        | inl eq ↦ rw eq (omega (arith, count-unlisted x cs (rw (← text_eq→eq a x eq) h)))
        | inr ne ↦ rw ne (omega arith)
      ])

count-update-le :
    (a x n : Text) (b : Bool) (cs : List Choice) → count x cs ≤ 1 → count x (update a b n cs) ≤ 1
unfolding update
count-update-le a x n true cs le = omega (arith, count-remove-le a x cs)
count-update-le a x n false cs le = elim (Bool-cases (listed a cs)) [
  | inl l ↦ rw l le
  | inr l ↦ rw l (count-push-le a x n cs l le)
]

count-on_answer-le :
    (approvee x address name : Text) (e : Option Entry) (cs : List Choice)
    → count x cs ≤ 1
    → count x (on_answer approvee address name e cs).0 ≤ 1
unfolding on_answer
count-on_answer-le approvee x address name none cs le = le
count-on_answer-le approvee x address name (some e) cs le = ground (
  arith,
  count-update-le address x name (any (text_eq approvee) e.approved_by) cs le,
  count-update-le address x name (any (text_eq approvee) e.approved_by) (remove address cs)
      (omega (arith, count-remove-le address x cs)),
)

count-run-le :
    (approvee x : Text) (answers : List Answer) (cs : List Choice)
    → count x cs ≤ 1
    → count x (on_answers approvee answers cs) ≤ 1
unfolding on_answers
count-run-le approvee x [] cs le = le
count-run-le approvee x (a ∷ later) cs le =
    count-run-le approvee x later (on_answer approvee a.address a.name a.entry cs).0
      (count-on_answer-le approvee x a.address a.name a.entry cs le)

-- From the empty menu no answers bring an auditor there twice.
pub count-on_answers-le :
    (approvee x : Text) (answers : List Answer) → count x (on_answers approvee answers []) ≤ 1
count-on_answers-le approvee x answers = count-run-le approvee x answers [] (omega arith)

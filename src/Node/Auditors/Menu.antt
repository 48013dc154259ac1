-- ===== src/Node/Auditors/Menu.antt =====
-- What the menu of the auditors to approve offers, by the state of the chain.
use qrucial_dao.Common.{
  ℕ, ◌<◌, ◌≡◌, refl, sym, ap, ◌∙◌, Bool, true, false, true≢false, ◌⊎◌, Option, none, some, List, [],
  ◌∷◌, ◌++◌, any, length, is_some, Bool-cases, Option-cases, inl, inr, arith, leb, ◌==◌,
}
use qrucial_dao.Common.Text.{Text, text_eq, text_eq→eq}
use qrucial_dao.Approval.{Entry, listed, is_scored, is_allowed}
use qrucial_dao.Approval.Laws.{Answer, on_answers, lists, lists_all, listed-on_answers}
use qrucial_dao.Approval.Page.{initial, on_account}
use qrucial_dao.Approval.Page.Laws.{on_entries, applicants-on_entries}
use qrucial_dao.Node.{Origin, ok, Storage, insert}
use qrucial_dao.Node.Auditors.{AuditorData, Config, State, try_push, approved, approve_auditor}
use qrucial_dao.Node.Auditors.Fine.{AllFine}

-- The answer to a query of `auditorSys.auditorMap`.
unfoldable pub entry_of : Option AuditorData → Option Entry
entry_of none = none
entry_of (some d) = some (record { score = d.score; approved_by = d.approved_by })

-- The answers for the addresses, with the names that the server has for these.
unfoldable pub answers_of : Storage AuditorData → List (Text × Text) → List Answer
answers_of m [] = []
answers_of m ((address, name) ∷ later) =
    record { address = address; name = name; entry = entry_of (m address) } ∷ answers_of m later

-- An answer brings an auditor to the menu only without a score above 0 and without the account's approval.
lists-entry :
    (approvee : Text) (e : Option AuditorData) (before : Bool)
    → lists approvee (entry_of e) before ≡ true
    → (before ≡ true)
      ⊎ ((d : AuditorData) × (e ≡ some d)
          × (is_scored d.score ≡ false)
          × (any (text_eq approvee) d.approved_by ≡ false))
unfolding entry_of
lists-entry approvee none before h = inl h
lists-entry approvee (some d) before h = elim (Bool-cases (any (text_eq approvee) d.approved_by)) [
  | inl y ↦ absurd (true≢false (sym h ∙ rw y refl))
  | inr n ↦ elim (Bool-cases (is_scored d.score)) [
    | inl y ↦ inl (sym (rw (n, y) refl) ∙ h)
    | inr unscored ↦ inr (d, refl, unscored, n)
  ]
]

abbrev pub Offered : Text → Text → Storage AuditorData → Type 0
Offered approvee x m =
    (d : AuditorData) × (m x ≡ some d)
    × (is_scored d.score ≡ false)
    × (any (text_eq approvee) d.approved_by ≡ false)

lists_all-Offered :
    (approvee x : Text) (m : Storage AuditorData) (asked : List (Text × Text)) (before : Bool)
    → lists_all approvee x (answers_of m asked) before ≡ true
    → (before ≡ true) ⊎ Offered approvee x m
unfolding answers_of
lists_all-Offered approvee x m [] before h = inl h
lists_all-Offered approvee x m ((address, name) ∷ later) before h =
    elim (lists_all-Offered approvee x m later _ h) [
      | inr offered ↦ inr offered
      | inl now ↦ elim (Bool-cases (text_eq address x)) [
        | inl eq ↦
            lists-entry approvee (m x) before (sym (rw (eq, text_eq→eq address x eq) refl) ∙ now)
        | inr ne ↦ inl (sym (rw ne refl) ∙ now)
      ]
    ]

-- A score of 0.
abbrev pub is_zero : Option ℕ → Bool
is_zero none = false
is_zero (some n) = n == 0

abbrev pub has_zero : Option AuditorData → Bool
has_zero none = false
has_zero (some d) = is_zero d.score

unscored-of : (o : Option ℕ) → is_zero o ≡ false → is_scored o ≡ false → is_some o ≡ false
unscored-of none h k = refl
unscored-of (some n) h k = ground arith

try_push-few : (x : Text) (xs : List Text) → length xs < 3 → try_push x xs ≡ some (xs ++ (x ∷ []))
try_push-few x xs h = ground arith

module _ (config : Config) where
  approve_auditor-ok :
      (approvee x : Text) (s : State config) (mine theirs : AuditorData) (score : ℕ)
      → s.auditor_map approvee ≡ some mine
      → mine.score ≡ some score
      → leb config.minimal_approver_score score ≡ true
      → s.auditor_map x ≡ some theirs
      → is_some theirs.score ≡ false
      → any (text_eq approvee) theirs.approved_by ≡ false
      → length theirs.approved_by < 3
      → approve_auditor config (Origin.signed approvee) x s
        ≡ ok (record s {
          auditor_map =
              insert x
                (approved config theirs (theirs.approved_by ++ (approvee ∷ [])))
                s.auditor_map;
        })
  unfolding approve_auditor
  approve_auditor-ok approvee x s mine theirs score m sc rank t unscored fresh few =
      rw (m, sc, rank, t, unscored, fresh, try_push-few approvee theirs.approved_by few) refl

listed-approve_auditor :
    (config : Config) (s : State config) (approvee x : Text) (asked : List (Text × Text))
    (mine : AuditorData)
    → AllFine s.auditor_map
    → 0 < config.minimal_approver_score
    → s.auditor_map approvee ≡ some mine
    → is_allowed mine.score (some config.minimal_approver_score) ≡ true
    → has_zero (s.auditor_map x) ≡ false
    → listed x (on_answers approvee (answers_of s.auditor_map asked) []) ≡ true
    → (theirs : AuditorData) × (s.auditor_map x ≡ some theirs)
      × (approve_auditor config (Origin.signed approvee) x s
          ≡ ok (record s {
            auditor_map =
                insert x
                  (approved config theirs (theirs.approved_by ++ (approvee ∷ [])))
                  s.auditor_map;
          }))
unfolding is_allowed
listed-approve_auditor config s approvee x asked mine fine least m allowed nonzero menu =
    elim (lists_all-Offered approvee x s.auditor_map asked false
      (sym (listed-on_answers approvee x (answers_of s.auditor_map asked) []) ∙ menu)) [
        | inl never ↦ absurd (true≢false (sym never))
        | inr (theirs, t, low, fresh) ↦ elim (Option-cases mine.score) [
          | inl unranked ↦ absurd (too_low (sym (rw unranked refl) ∙ allowed))
          | inr (score, sc) ↦
              let unscored = unscored-of theirs.score (zero_of theirs t) low in
              (
                theirs,
                t,
                approve_auditor-ok config approvee x s mine theirs score m sc
                    (sym (rw sc refl) ∙ allowed) t unscored fresh
                    ((fine x theirs t).fewer unscored),
              )
        ]
      ]
  where
    too_low : leb config.minimal_approver_score 0 ≡ true → ⊥
    too_low h = ground arith

    zero_of : (d : AuditorData) → s.auditor_map x ≡ some d → is_zero d.score ≡ false
    zero_of d t = ap has_zero (sym t) ∙ nonzero

-- Where the entries of the chain are fine, the least score of an approver is above 0, and a page that
-- was opened with the account lets it approve: the approval of every auditor whose score is not 0
-- that this page offers, after the answers of the chain and while the account stays the same, with
-- whatever names, succeeds, and the account is then the last one who approved that auditor.
pub applicants-approve_auditor :
    (config : Config) (s : State config) (approvee x : Text) (asked : List (Text × Text))
    (mine : AuditorData)
    → AllFine s.auditor_map
    → 0 < config.minimal_approver_score
    → s.auditor_map approvee ≡ some mine
    → is_allowed mine.score (some config.minimal_approver_score) ≡ true
    → has_zero (s.auditor_map x) ≡ false
    → listed x
        (on_entries 0 (answers_of s.auditor_map asked) (on_account approvee initial)).applicants
      ≡ true
    → (theirs : AuditorData) × (s.auditor_map x ≡ some theirs)
      × (approve_auditor config (Origin.signed approvee) x s
          ≡ ok (record s {
            auditor_map =
                insert x
                  (approved config theirs (theirs.approved_by ++ (approvee ∷ [])))
                  s.auditor_map;
          }))
applicants-approve_auditor config s approvee x asked mine fine least m allowed nonzero menu =
    listed-approve_auditor config s approvee x asked mine fine least m allowed nonzero (
      ap (listed x) (sym (applicants-on_entries 0 approvee (answers_of s.auditor_map asked)))
      ∙ menu)

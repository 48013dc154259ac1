-- ===== src/Challenges/Titles.antt =====
-- The titles of the list of challenges and the names of the challengers
-- (frontend/substrate-front-end-template/src/Challenges.js), and the click on a title. Layout and
-- style are left out.
pub mod Laws
use qrucial_dao.Common.{
  ℕ, zero, suc, Bool, true, false, Option, none, some, List, [], ◌∷◌, ◌++◌, if◌then◌else◌, set,
  assign, slot, find,
}
use qrucial_dao.Common.Text.{Text, codes, is_empty, text_eq}
use qrucial_dao.Http.{Answer, Fetched, caught, fetched, read_json}
use qrucial_dao.Challenges.{Entry}
use qrucial_dao.Proposal.{Form, form_of}

-- The body of a reply: a list of auditors, each with a name or none; reading the name of an auditor
-- that is not there throws, and so does null.
unfoldable pub name_of : Answer (Option (List (Option Text))) → Option (Option Text)
unfolding read_json
name_of a = elim (read_json a) [
  | caught message ↦ none
  | fetched none ↦ none
  | fetched (some []) ↦ none
  | fetched (some (name ∷ others)) ↦ some name
]

-- Names by the places of the challenges; a place that was not written is a hole, and a missing name
-- is none.
abbrev pub NameArray : Type 0
NameArray = List (Option (Option Text))

-- `names` of each run of the effect, and `auditorNames`, which is a copy of one of them after a
-- write.
pub record Names : Type 0 where
  pub runs : List NameArray
  pub auditor_names : NameArray

-- The effect as the challenges change: a new run begins with a copy of the names.
unfoldable pub on_challenges : Names → Names
on_challenges n = record n { runs = n.runs ++ (n.auditor_names ∷ []) }

abbrev pub run_at : ℕ → List NameArray → NameArray
run_at run [] = []
run_at zero (names ∷ runs) = names
run_at (suc run) (names ∷ runs) = run_at run runs

abbrev pub write_name : ℕ → ℕ → Option (Option Text) → Names → Names
write_name run i none n = n
write_name run i (some name) n =
    let written = assign i name (run_at run n.runs) in
    record { runs = set n.runs run written; auditor_names = written }

-- The answer to a run for the challenge at an index.
unfoldable pub on_name : ℕ → ℕ → Answer (Option (List (Option Text))) → Names → Names
on_name run i a n = write_name run i (name_of a) n

-- `auditorName || ch.auditor`.
abbrev pub shown_name : Option (Option Text) → Text → Text
shown_name (some (some name)) address = if is_empty name then address else name
shown_name _ address = address

-- A title: the hash of its audit, where the audits have come, the id of the report, the challenger
-- and the state.
pub record Title : Type 0 where
  pub hash : Option Text
  pub report_id : ℕ
  pub challenger : Text
  pub state : Text

-- `audit?.hash` of the audit with the hash.
unfoldable pub hash_of : List Text → Text → Option Text
hash_of audits hash = find (λ h. text_eq h hash) audits

unfoldable pub titles_from : List Text → NameArray → ℕ → List Entry → List Title
titles_from audits names i [] = []
titles_from audits names i (c ∷ challenges) =
    record {
      hash = hash_of audits c.audit_hash;
      report_id = c.report_id;
      challenger = shown_name (slot i names) c.told.auditor;
      state = c.told.state;
    }
    ∷ titles_from audits names (suc i) challenges

-- `ChallengeTitles`.
unfoldable pub titles : List Text → Names → List Entry → List Title
titles audits n challenges = titles_from audits n.auditor_names 0 challenges

-- The audits of the server, by their hashes.
unfoldable pub on_audits : Answer (List Text) → List Text → List Text
unfolding read_json
on_audits a audits = elim (read_json a) [ caught message ↦ audits | fetched hashes ↦ hashes ]

-- What the page keeps of the challenge that was clicked on, which is drawn below the list.
pub record Selected : Type 0 where
  pub challenge : Option Entry
  pub form : Form

-- `handleClick`.
unfoldable pub on_title : Entry → Selected → Selected
on_title c s = record {
  challenge = some c;
  form = form_of (record {
    audit_hash = c.audit_hash;
    report_id = c.report_id;
    challenge_id = c.challenge_id;
    auditor = c.told.auditor;
  });
}

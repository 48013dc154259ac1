-- ===== src/Challenges.antt =====
-- The list of challenges (frontend/substrate-front-end-template/src/Challenges.js): the hashes that
-- have challenges, and the challenges of their reports. The form is in Proposal.antt.
pub mod Laws
pub mod Reported
pub mod Titles
use qrucial_dao.Common.{
  ℕ, zero, suc, Bool, true, false, not, ◌&&◌, Option, none, some, List, [], ◌∷◌, ◌++◌,
  if◌then◌else◌, ◌==◌, any, find, get_elem?, upsert,
}
use qrucial_dao.Common.Text.{Text, text_eq}

-- `[...new Set(hashes)]`: each hash once, where it is first.
abbrev pub unique_from : List Text → List Text → List Text
unique_from seen [] = []
unique_from seen (h ∷ hashes) =
    if any (text_eq h) seen then unique_from seen hashes else h ∷ unique_from (h ∷ seen) hashes

-- The hashes of the entries of `exoSys.challenges`, each of which has a key that begins with one.
abbrev pub challenged_hashes : List ((Text × ℕ) × Text) → List Text
challenged_hashes [] = []
challenged_hashes (((hash, report), value) ∷ entries) = hash ∷ challenged_hashes entries

-- What the effect sets.
unfoldable pub audit_hashes : List ((Text × ℕ) × Text) → List Text
audit_hashes entries = unique_from [] (challenged_hashes entries)

-- What the node tells of a challenge.
pub record Told : Type 0 where
  pub auditor : Text
  pub state : Text

-- The challenge with its keys.
pub record Entry : Type 0 where
  pub audit_hash : Text
  pub report_id : ℕ
  pub challenge_id : ℕ
  pub told : Told

-- `existingIndex` looks for the hash, the report and the auditor, but not for the challenge's id.
abbrev pub same : Entry → Entry → Bool
same c d =
    text_eq d.audit_hash c.audit_hash
    && d.report_id == c.report_id
    && text_eq d.told.auditor c.told.auditor

-- The challenges of one answer from an index on.
unfoldable pub with_keys : Text → ℕ → ℕ → List Told → List Entry
with_keys hash report index [] = []
with_keys hash report index (t ∷ told) =
    record { audit_hash = hash; report_id = report; challenge_id = index; told = t }
    ∷ with_keys hash report (suc index) told

unfoldable pub add_all : List Entry → List Entry → List Entry
add_all [] challenges = challenges
add_all (c ∷ cs) challenges = add_all cs (upsert (same c) c challenges)

-- The handler of an answer for a report.
unfoldable pub on_answer : Text → ℕ → Option (List Told) → List Entry → List Entry
on_answer hash report none challenges = challenges
on_answer hash report (some told) challenges = add_all (with_keys hash report 0 told) challenges

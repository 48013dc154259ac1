-- ===== src/Pages/Challenge.antt =====
-- The challenge that the council looks at (ViewChallenge.js): the names of its auditors, and what
-- the page draws. Layout and style are left out.
use qrucial_dao.Common.{ℕ, suc, Bool, Option, none, some, List, [], ◌∷◌, ◌++◌, if◌then◌else◌, map}
use qrucial_dao.Common.Text.{Text, codes, is_empty, text_eq}
use qrucial_dao.Common.Decimal.{decimal}
use qrucial_dao.Http.{Answer, caught, fetched, read_json}
use qrucial_dao.Proposal.{Challenge}
use qrucial_dao.Pages.Council.{Report}

-- `setState(data[0])` in `getData`, as far as the name of the auditor: the body of the reply is null
-- as none, or a list of auditors by their names. An undefined auditor, or one without a name, is
-- none. What throws leaves the state as it was.
unfoldable pub on_auditor_data : Answer (Option (List (Option Text))) → Option Text → Option Text
unfolding read_json
on_auditor_data a state = elim (read_json a) [
  | caught message ↦ state
  | fetched none ↦ state
  | fetched (some []) ↦ none
  | fetched (some (name ∷ others)) ↦ name
]

-- The addresses that the effect asks the server for, as the report or the challenge changes.
unfoldable pub asked : Option Report → Challenge → List (Option Text)
asked report c = (elim report [ none ↦ none | some r ↦ some r.auditor ]) ∷ some c.auditor ∷ []

-- `auditor?.name || address`.
unfoldable pub shown_name : Option Text → Text → Text
shown_name none address = address
shown_name (some name) address = if is_empty name then address else name

pub record Vulnerability : Type 0 where
  pub tool : Text
  pub classification : Text
  pub risk : Text
  pub description : Text

-- What a patch leaves as it is is null.
pub record Patch : Type 0 where
  pub vulnerability_id : Text
  pub classification : Option Text
  pub risk : Option Text
  pub description : Option Text

-- The challenge as the node tells it.
pub record Details : Type 0 where
  pub challenge : Challenge
  pub state : Text
  pub remove_vulnerabilities : List Text
  pub add_vulnerabilities : List Vulnerability
  pub patch_vulnerabilities : List Patch

-- An item of a column: a label with what is drawn after it, nothing for undefined and null, or a
-- label with a list of such items.
pub data Item : Type 0 where
  line : Text → Option Text → Item
  block : Text → List (List (Text × Option Text)) → Item

pub record View : Type 0 where
  pub report : List Item
  pub challenge : List Item
  -- Whether the form of a proposal is drawn.
  pub proposal : Bool

unfoldable pub vulnerability_lines : Vulnerability → List (Text × Option Text)
vulnerability_lines v =
    (codes "tool: ", some v.tool)
    ∷ (codes "classification: ", some v.classification)
    ∷ (codes "risk: ", some v.risk)
    ∷ (codes "description: ", some v.description)
    ∷ []

abbrev pub numbered : ℕ → List Vulnerability → List (List (Text × Option Text))
numbered i [] = []
numbered i (v ∷ vs) =
    ((codes "ID: ", some (decimal i ++ codes ".")) ∷ vulnerability_lines v) ∷ numbered (suc i) vs

-- The column of the report, whose vulnerabilities may be null or undefined.
unfoldable pub report_items :
    Option Text → Option Text → Report → Option (List Vulnerability) → List Item
report_items url name r vulnerabilities =
    line (codes "audit url: ") url
    ∷ line (codes "auditor: ") (some (shown_name name r.auditor))
    ∷ line (codes "report kind: ") (some r.kind)
    ∷ (elim vulnerabilities [
      | none ↦ []
      | some vs ↦ block (codes "vulnerabilities: ") (numbered 0 vs) ∷ []
    ])

-- A list that is drawn only where it has items.
abbrev pub unless_empty : Text → List (List (Text × Option Text)) → List Item
unless_empty label [] = []
unless_empty label (b ∷ bs) = block label (b ∷ bs) ∷ []

unfoldable pub removal_items : List Text → List Item
removal_items ids =
    unless_empty (codes "Remove Vulnerabilities: ")
      (map (λ id. (codes "Vulnerability ID: ", some (id ++ codes ".")) ∷ []) ids)

unfoldable pub addition_items : List Vulnerability → List Item
addition_items vs = unless_empty (codes "Add Vulnerabilities: ") (map vulnerability_lines vs)

unfoldable pub patch_items : List Patch → List Item
patch_items ps = unless_empty (codes "Patch Vulnerabilities: ") (map lines ps)
  where
    lines : Patch → List (Text × Option Text)
    lines p =
        (codes "vulnerability Id: ", some (p.vulnerability_id ++ codes "."))
        ∷ (codes "classification: ", p.classification)
        ∷ (codes "risk: ", p.risk)
        ∷ (codes "description: ", p.description)
        ∷ []

unfoldable pub challenge_items : Option Text → Option Text → Details → List Item
challenge_items url name d =
    (line (codes "audit url: ") url
      ∷ line (codes "auditor: ") (some (shown_name name d.challenge.auditor))
      ∷ line (codes "state: ") (some d.state)
      ∷ [])
    ++ removal_items d.remove_vulnerabilities
    ++ addition_items d.add_vulnerabilities
    ++ patch_items d.patch_vulnerabilities

-- `challenge.state === 'Pending'`.
unfoldable pub is_pending : Text → Bool
is_pending state = text_eq state (codes "Pending")

-- What is drawn; nothing without the report.
unfoldable pub view :
    Option Text
    → (report_name challenge_name : Option Text) → Option Report
    → Option (List Vulnerability)
    → Details
    → Option View
view url report_name challenge_name none vulnerabilities d = none
view url report_name challenge_name (some r) vulnerabilities d = some (record {
  report = report_items url report_name r vulnerabilities;
  challenge = challenge_items url challenge_name d;
  proposal = is_pending d.state;
})

-- ===== src/Proposal/View.antt =====
-- The menu and the button of `CreateProposal` (CreateProposal.js). Layout and style are left
-- out, and so are the inputs that a comment of the source removes.
use qrucial_dao.Common.{Bool, List, [], ◌∷◌}
use qrucial_dao.Common.Text.{Text, codes}
use qrucial_dao.Proposal.{Form, Action, approve, reject, method, is_disabled}

pub record Choice : Type 0 where
  pub key : Text
  pub text : Text
  pub value : Text

-- `extOptions`.
abbrev pub ext_options : List Choice
ext_options =
    record { key = codes "approve"; text = codes "Approve Challenge"; value = method approve }
    ∷ record { key = codes "reject"; text = codes "Reject Challenge"; value = method reject }
    ∷ record { key = codes "remove"; text = codes "Remove Challenge"; value = method Action.remove }
    ∷ []

-- `handleChange`, of the menu alone, whose name is `proposal`.
unfoldable pub handle_change : Text → Form → Form
handle_change value f = record f { proposal = value }

-- What the form draws: the options, the one that is chosen, and whether the button is disabled.
pub record View : Type 0 where
  pub options : List Choice
  pub value : Text
  pub disabled : Bool

unfoldable pub view : Form → View
view f = record { options = ext_options; value = f.proposal; disabled = is_disabled f }

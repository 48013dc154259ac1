-- ===== src/Pool/View.antt =====
-- The cards of the pool and their dialog (AuditorPool.js). Layout and style are left out.
use qrucial_dao.Common.{ℕ, Bool, true, false, Option, none, some, List, map}
use qrucial_dao.Common.Text.{Text}
use qrucial_dao.Pool.{Auditor, Card, named, display_name}
use qrucial_dao.Pool.Order.{Locale, sort}

-- `auditorModalOpen` and `auditorModalValue`, whose header is the name of its content; the empty
-- text is none.
pub record Dialog : Type 0 where
  pub auditor_modal_open : Bool
  pub auditor_modal_value : Option Card

abbrev pub initial : Dialog
initial = record { auditor_modal_open = false; auditor_modal_value = none }

unfoldable pub on_click : Card → Dialog → Dialog
on_click c d = record { auditor_modal_open = true; auditor_modal_value = some c }

unfoldable pub handle_close : Dialog → Dialog
handle_close d = record { auditor_modal_open = false; auditor_modal_value = none }

-- A card: the image or the icon of a user, as none, the name and the score.
pub record Face : Type 0 where
  pub picture : Option Text
  pub description : Text
  pub meta : Option ℕ

-- `picture` gives the value `picUrl` of an auditor, and none where it is missing or null.
unfoldable pub face : (Auditor → Option Text) → Card → Face
face picture c = record {
  picture = named (picture c.auditor);
  description = display_name c.auditor.name;
  meta = c.score;
}

unfoldable pub cards : Locale → (Auditor → Option Text) → List Card → List Face
cards locale picture auditors = map (face picture) (sort locale auditors)

-- ===== src/Events.antt =====
-- The feed of events (frontend/substrate-front-end-template/src/template-comps/Events.js), whose
-- list CreateProposal.js keeps and shows in a toast.
pub mod Laws
use qrucial_dao.Common.{ℕ, suc, Bool, true, false, List, [], ◌∷◌, ◌++◌, if◌then◌else◌, any, map}
use qrucial_dao.Common.Text.{Text, codes, text_eq}
use qrucial_dao.Toast.{Shown, elements}

-- An event of the node in its human form, with the text of its data and that of its phase.
pub record Event : Type 0 where
  pub section : Text
  pub method : Text
  pub params : Text
  pub phase : Text

-- An item of the feed; the icon is always the same.
pub record Item : Type 0 where
  pub key : ℕ
  pub summary : Text
  pub content : Text

abbrev pub filtered_events : List Text
filtered_events = codes "system:ExtrinsicSuccess::(phase={\"applyExtrinsic\":0})" ∷ []

abbrev pub event_name : Event → Text
event_name e = e.section ++ (b':' ∷ e.method)

abbrev pub name_phase : Event → Text
name_phase e = event_name e ++ (codes "::(phase=" ++ (e.phase ++ codes ")"))

unfoldable pub is_filtered : Event → Bool
is_filtered e = any (λ f. text_eq f (name_phase e)) filtered_events

-- `keyNum` and the feed.
pub record Feed : Type 0 where
  pub key_num : ℕ
  pub items : List Item

-- The handler of one record, and of all that the node gives at once.
unfoldable pub on_record : Event → Feed → Feed
on_record e f = if is_filtered e then f else record {
  key_num = suc f.key_num;
  items = record { key = f.key_num; summary = event_name e; content = e.params } ∷ f.items;
}

unfoldable pub on_events : List Event → Feed → Feed
on_events [] f = f
on_events (e ∷ events) f = on_events events (on_record e f)

-- What the proposal shows when `showEvent` changes, if there are events.
unfoldable pub show_events : List Item → List Shown
show_events [] = []
show_events (i ∷ items) = elements (map (λ i. i.summary) (i ∷ items)) ∷ []

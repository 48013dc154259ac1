-- ===== src/Events/Laws.antt =====
-- The keys of the feed, and its order.
use qrucial_dao.Common.{
  ℕ, zero, suc, ◌≡◌, refl, sym, ap, ◌∙◌, Bool, true, false, not, List, [], ◌∷◌, ◌++◌, map, keep,
  keep-cons, Bool-cases, inl, inr, append_assoc, append-nil, ◌+◌, length, arith,
}
use qrucial_dao.Events.{Event, Item, event_name, is_filtered, Feed, on_record, on_events}

-- The numbers below `n`, the highest first.
abbrev pub below : ℕ → List ℕ
below zero = []
below (suc n) = n ∷ below n

abbrev pub reverse {ℓ} : {A : Type ℓ} → List A → List A
reverse [] = []
reverse (x ∷ xs) = reverse xs ++ (x ∷ [])

-- The keys count down to 0.
abbrev pub HasKeys : Feed → Type 0
HasKeys f = map (λ i. i.key) f.items ≡ below f.key_num

HasKeys-on_record : (e : Event) (f : Feed) → HasKeys f → HasKeys (on_record e f)
unfolding on_record
HasKeys-on_record e f h = elim (Bool-cases (is_filtered e)) [
  | inl out ↦ rw out h
  | inr shown ↦ rw shown (ap (f.key_num ∷◌) h)
]

HasKeys-on_events : (events : List Event) (f : Feed) → HasKeys f → HasKeys (on_events events f)
unfolding on_events
HasKeys-on_events [] f h = h
HasKeys-on_events (e ∷ events) f h =
    HasKeys-on_events events (on_record e f) (HasKeys-on_record e f h)

on_record-out : (e : Event) (f : Feed) → is_filtered e ≡ true → on_record e f ≡ f
unfolding on_record
on_record-out e f out = rw out refl

on_record-shown :
    (e : Event) (f : Feed)
    → is_filtered e ≡ false
    → on_record e f ≡ record {
      key_num = suc f.key_num;
      items = record { key = f.key_num; summary = event_name e; content = e.params } ∷ f.items;
    }
unfolding on_record
on_record-shown e f shown = rw shown refl

abbrev pub item : Event → ℕ → Item
item e key = record { key = key; summary = event_name e; content = e.params }

abbrev pub is_shown : Event → Bool
is_shown e = not (is_filtered e)

summaries-on_events :
    (events : List Event) (f : Feed)
    → map (λ i. i.summary) (on_events events f).items
      ≡ reverse (map event_name (keep is_shown events)) ++ map (λ i. i.summary) f.items
unfolding on_events
summaries-on_events [] f = refl
summaries-on_events (e ∷ events) f = elim (Bool-cases (is_filtered e)) [
  | inl out ↦
      ap (λ g. map (λ i. i.summary) (on_events events g).items) (on_record-out e f out)
      ∙ rw (keep-cons is_shown e events, out) (summaries-on_events events f)
  | inr shown ↦
      ap (λ g. map (λ i. i.summary) (on_events events g).items) (on_record-shown e f shown)
      ∙ rw (keep-cons is_shown e events, shown)
          (summaries-on_events events
              (record { key_num = suc f.key_num; items = item e f.key_num ∷ f.items })
            ∙ sym (
                append_assoc (reverse (map event_name (keep is_shown events))) (event_name e ∷ [])
                  (map (λ i. i.summary) f.items)))
]

key_num-on_events :
    (events : List Event) (f : Feed)
    → (on_events events f).key_num ≡ length (keep is_shown events) + f.key_num
unfolding on_events
key_num-on_events [] f = omega arith
key_num-on_events (e ∷ events) f = elim (Bool-cases (is_filtered e)) [
  | inl out ↦
      ap (λ g. (on_events events g).key_num) (on_record-out e f out)
      ∙ rw (keep-cons is_shown e events, out) (key_num-on_events events f)
  | inr shown ↦
      ap (λ g. (on_events events g).key_num) (on_record-shown e f shown)
      ∙ rw (keep-cons is_shown e events, shown)
          (key_num-on_events events
              (record { key_num = suc f.key_num; items = item e f.key_num ∷ f.items })
            ∙ omega arith)
]

abbrev pub empty_feed : Feed
empty_feed = record { key_num = 0; items = [] }

-- From the empty feed, any events leave the names of those that are not filtered, the latest
-- first, under keys that count down to 0.
pub on_events-feed :
    (events : List Event)
    → let shown = keep is_shown events in
      let f = on_events events empty_feed in
      (map (λ i. i.summary) f.items ≡ reverse (map event_name shown))
      × (map (λ i. i.key) f.items ≡ below (length shown))
on_events-feed events = (
  summaries-on_events events empty_feed ∙ append-nil _,
  HasKeys-on_events events empty_feed refl
      ∙ ap below (key_num-on_events events empty_feed ∙ omega arith),
)

-- ===== src/Pool/Order.antt =====
-- The order of the cards (`sortedAuditors`).
use qrucial_dao.Common.{
  ℕ, ◌≡◌, refl, ◌∙◌, ◌<◌, Bool, true, false, Option, none, some, List, [], ◌∷◌, if◌then◌else◌, ltb,
  length, All, keep, All-map, is_some, arith, ◌⊎◌, inl, inr, Bool-cases,
}
use qrucial_dao.Common.Text.{Text}
use qrucial_dao.Pool.{Card, named}

-- The sign of a comparison.
pub data Sign : Type 0 where
  less same more : Sign

abbrev pub is_more : Sign → Bool
is_more more = true
is_more _ = false

-- `a.name.localeCompare(b.name)` goes by the locale.
abbrev pub Locale : Type 0
Locale = Text → Text → Sign

-- A score in a subtraction: null counts as 0.
abbrev pub as_number : Option ℕ → ℕ
as_number none = 0
as_number (some n) = n

unfoldable pub by_name : Locale → Option Text → Option Text → Sign
by_name compare none n = more
by_name compare (some m) none = less
by_name compare (some m) (some n) = compare m n

-- The comparator.
unfoldable pub compare_cards : Locale → Card → Card → Sign
unfolding by_name
compare_cards compare a b =
    if ltb (as_number b.score) (as_number a.score)
    then less
    else if ltb (as_number a.score) (as_number b.score)
    then more
    else by_name compare (named (a.auditor.name)) (named (b.auditor.name))

-- `sort`, which keeps the order of cards that compare the same. Two cards of one score without
-- names each come after the other, and the language leaves their order open: here the later one
-- comes first.
unfoldable pub insert : Locale → Card → List Card → List Card
insert compare c [] = c ∷ []
insert compare c (d ∷ cards) =
    let rest = insert compare c cards in
    if is_more (compare_cards compare c d) then d ∷ rest else c ∷ d ∷ cards

unfoldable pub sort : Locale → List Card → List Card
unfolding insert
sort compare [] = []
sort compare (c ∷ cards) = insert compare c (sort compare cards)

-- A higher score stands first, and of one score those that have a name.
abbrev pub IsBefore : Card → Card → Type 0
IsBefore c d =
    (as_number d.score < as_number c.score)
    ⊎ ((as_number d.score ≡ as_number c.score)
        × ((is_some (named (d.auditor.name)) ≡ true) → (is_some (named (c.auditor.name)) ≡ true)))

abbrev pub IsOrdered : List Card → Type 0
IsOrdered [] = Unit
IsOrdered (c ∷ cards) = All (IsBefore c) cards × IsOrdered cards

IsBefore-trans : (a b c : Card) → IsBefore a b → IsBefore b c → IsBefore a c
IsBefore-trans a b c (inl p) (inl q) = inl (omega arith)
IsBefore-trans a b c (inl p) (inr (q, n)) = inl (omega arith)
IsBefore-trans a b c (inr (p, m)) (inl q) = inl (omega arith)
IsBefore-trans a b c (inr (p, m)) (inr (q, n)) = inr (omega arith, λ h. m (n h))

more-IsBefore :
    (compare : Locale) (a b : Card) → is_more (compare_cards compare a b) ≡ true → IsBefore b a
unfolding compare_cards
more-IsBefore compare a b h = ground arith

other-IsBefore :
    (compare : Locale) (a b : Card) → is_more (compare_cards compare a b) ≡ false → IsBefore a b
unfolding compare_cards
other-IsBefore compare a b h = ground arith

All-insert :
    (P : Card → Type 0) (compare : Locale) (c : Card) (cards : List Card)
    → P c
    → All P cards
    → All P (insert compare c cards)
unfolding insert
All-insert P compare c [] h a = (h, tt)
All-insert P compare c (d ∷ cards) h (k, a) =
    elim (Bool-cases (is_more (compare_cards compare c d))) [
      | inl above ↦ rw above (k, All-insert P compare c cards h a)
      | inr below ↦ rw below (h, (k, a))
    ]

insert-IsOrdered :
    (compare : Locale) (c : Card) (cards : List Card)
    → IsOrdered cards
    → IsOrdered (insert compare c cards)
unfolding insert
insert-IsOrdered compare c [] o = (tt, tt)
insert-IsOrdered compare c (d ∷ cards) (a, o) =
    elim (Bool-cases (is_more (compare_cards compare c d))) [
      | inl above ↦ rw above (
        All-insert (IsBefore d) compare c cards (more-IsBefore compare c d above) a,
        insert-IsOrdered compare c cards o,
      )
      | inr below ↦
          let first = other-IsBefore compare c d below in
          rw below ((first, All-map (λ e. IsBefore-trans c d e first) cards a), (a, o))
    ]

keep-insert :
    (compare : Locale) (p : Card → Bool) (c : Card) (cards : List Card)
    → length (keep p (insert compare c cards)) ≡ length (keep p (c ∷ cards))
unfolding insert
keep-insert compare p c [] = refl
keep-insert compare p c (d ∷ cards) = ground (arith, keep-insert compare p c cards)

keep-length-cons :
    (p : Card → Bool) (c : Card) (xs ys : List Card)
    → length (keep p xs) ≡ length (keep p ys)
    → length (keep p (c ∷ xs)) ≡ length (keep p (c ∷ ys))
keep-length-cons p c xs ys h = ground arith

-- The cards that are drawn are those of the pool, each as often, with the higher scores first and,
-- of one score, those with a name first.
pub sort-IsOrdered :
    (compare : Locale) (cards : List Card)
    → IsOrdered (sort compare cards)
      × ((p : Card → Bool) → length (keep p (sort compare cards)) ≡ length (keep p cards))
unfolding sort
sort-IsOrdered compare [] = (tt, λ p. refl)
sort-IsOrdered compare (c ∷ cards) =
    let (o, k) = sort-IsOrdered compare cards in
    (
      insert-IsOrdered compare c (sort compare cards) o,
      λ p.
          keep-insert compare p c (sort compare cards)
          ∙ keep-length-cons p c (sort compare cards) cards (k p),
    )

-- ===== src/Event/Card.antt =====
-- The invariant of the cards, and how an update of one card keeps it.
use mathlib.Core.Path.{subst}
use rewardpointsweb.Base.{
  ℕ, suc, ◌+◌, ◌≤◌, ◌<◌, ◌≡◌, refl, sym, ◌∙◌, ap, true, false, ◌&&◌, ◌==◌, none, some, List, [],
  ◌∷◌, arith, length, first-holds, exists, update_where, place_by, Bool-cases, inl, inr,
}
use rewardpointsweb.Values.{reason_max_length}
use rewardpointsweb.Values.Laws.{IsText, IsAmount}
use rewardpointsweb.Entities.{EventSticker, RewardEvent}
use rewardpointsweb.Event.{find_event, is_completed, sticker_count, max_goal_count}

-- Stickers numbered one by one from `k` on.
abbrev pub IsRun : ℕ → List EventSticker → Type 0
IsRun k [] = Unit
IsRun k (s ∷ stickers) = (s.number ≡ k) × IsRun (suc k) stickers

-- A card: its stickers are numbered from 1, there are no more than it has places for, and it is
-- completed exactly when it is full; it has a goal of 1 to 50, a reward and a title.
pub record IsCard (e : RewardEvent) : Type 0 where
  pub run : IsRun 1 e.stickers
  pub fits : sticker_count e ≤ e.goal_count
  pub full : is_completed e ≡ (sticker_count e == e.goal_count)
  pub goal_pos : 1 ≤ e.goal_count
  pub goal_le : e.goal_count ≤ max_goal_count
  pub pays : IsAmount e.reward
  pub named : IsText reason_max_length e.title

-- All events are cards, and the identifiers grow towards `next`.
abbrev pub IsDeck : ℕ → List RewardEvent → Type 0
IsDeck next [] = Unit
IsDeck next (e ∷ rows) = (e.id < next) × IsCard e × IsDeck e.id rows

abbrev number_of : EventSticker → ℕ
number_of s = s.number

-- The next sticker goes to the end.
pub place_by-IsRun :
    (k : ℕ) (s : EventSticker) (stickers : List EventSticker)
    → IsRun k stickers
    → s.number ≡ k + length stickers
    → IsRun k (place_by (λ x. x.number) s stickers)
      × (length (place_by (λ x. x.number) s stickers) ≡ suc (length stickers))
unfolding place_by
place_by-IsRun k s [] run next = ground arith
place_by-IsRun k s (x ∷ stickers) run next = ground (arith, place_by-IsRun (suc k) s stickers run.1)

-- No sticker has the next number.
pub next_is_free :
    (k n : ℕ) (stickers : List EventSticker)
    → IsRun k stickers
    → k + length stickers ≤ n
    → exists (λ s. s.number == n) stickers ≡ false
next_is_free k n [] run le = refl
next_is_free k n (x ∷ stickers) run le = ground (arith, next_is_free (suc k) n stickers run.1)

-- Identifiers that are not reached yet find nothing.
find_event-below :
    (l id n : ℕ) (rows : List RewardEvent) → IsDeck n rows → n ≤ id → find_event l id rows ≡ none
unfolding find_event
find_event-below l id n [] deck le = refl
find_event-below l id n (x ∷ rows) deck le = ground (arith, find_event-below l id x.id rows deck.2)

-- Only one row has the identifier.
pub find_event-head :
    (l id n : ℕ) (e x : RewardEvent) (rows : List RewardEvent)
    → IsDeck n (x ∷ rows)
    → find_event l id (x ∷ rows) ≡ some e
    → (x.id == id) ≡ true
    → (x ≡ e) × ((x.ledger_id == l) ≡ true)
unfolding find_event
find_event-head l id n e x rows deck found hit =
    ground (arith, find_event-below l id x.id rows deck.2)

pub find_event-holds :
    (l id : ℕ) (e : RewardEvent) (rows : List RewardEvent)
    → find_event l id rows ≡ some e
    → (e.id ≡ id) × (e.ledger_id ≡ l)
unfolding find_event
find_event-holds l id e rows found =
    ground (arith, first-holds (λ (x : RewardEvent). x.id == id && x.ledger_id == l) rows e found)

-- What is found is a card.
pub find_event-IsCard :
    (l id n : ℕ) (e : RewardEvent) (rows : List RewardEvent)
    → IsDeck n rows
    → find_event l id rows ≡ some e
    → IsCard e
unfolding find_event
find_event-IsCard l id n e [] deck found = cc
find_event-IsCard l id n e (x ∷ rows) deck found =
    elim (Bool-cases (x.id == id && x.ledger_id == l)) [
      | inl hit ↦ subst IsCard (ground arith) deck.1
      | inr miss ↦ find_event-IsCard l id x.id e rows deck.2 (ground arith)
    ]

find_event-nil : (l id : ℕ) (e : RewardEvent) → find_event l id [] ≡ some e → ⊥
unfolding find_event
find_event-nil l id e found = cc

pub find_event-skip :
    (l id : ℕ) (x e : RewardEvent) (rows : List RewardEvent)
    → (x.id == id) ≡ false
    → find_event l id (x ∷ rows) ≡ some e
    → find_event l id rows ≡ some e
unfolding find_event
find_event-skip l id x e rows miss found = ground arith

-- An update of the row with one identifier, which keeps the identifier and the ledger.
module _ (id : ℕ) (f : RewardEvent → RewardEvent) (same_id : (y : RewardEvent) → (f y).id ≡ y.id)
    (same_ledger : (y : RewardEvent) → (f y).ledger_id ≡ y.ledger_id) where
  abbrev update : List RewardEvent → List RewardEvent
  update rows = update_where (λ e. e.id == id) f rows

  -- Rows with smaller identifiers are left alone.
  update_below : (n : ℕ) (rows : List RewardEvent) → IsDeck n rows → n ≤ id → update rows ≡ rows
  update_below n [] deck le = refl
  update_below n (x ∷ rows) deck le = ground (arith, update_below x.id rows deck.2)

  -- One card is replaced by a card.
  pub update-IsDeck :
      (l n : ℕ) (e : RewardEvent) (rows : List RewardEvent)
      → IsDeck n rows
      → find_event l id rows ≡ some e
      → IsCard (f e)
      → IsDeck n (update rows)
  update-IsDeck l n e [] deck found card = absurd (find_event-nil l id e found)
  update-IsDeck l n e (x ∷ rows) deck found card = elim (Bool-cases (x.id == id)) [
    | inl hit ↦
        let (xe, _) = find_event-head l id n e x rows deck found hit in
        let below = update_below x.id rows deck.2 (ground arith) in
        rw hit (
          omega (arith, same_id x, deck.0),
          subst (λ y. IsCard (f y)) (sym xe) card,
          rw (same_id x, below) deck.2,
        )
    | inr miss ↦ rw miss (
      deck.0,
      deck.1,
      update-IsDeck l x.id e rows deck.2 (find_event-skip l id x e rows miss found) card,
    )
  ]

  -- A change that leaves the found card as it is changes nothing.
  pub update-same :
      (l n : ℕ) (e : RewardEvent) (rows : List RewardEvent)
      → IsDeck n rows
      → find_event l id rows ≡ some e
      → f e ≡ e
      → update rows ≡ rows
  update-same l n e [] deck found same = refl
  update-same l n e (x ∷ rows) deck found same = elim (Bool-cases (x.id == id)) [
    | inl hit ↦
        let (xe, _) = find_event-head l id n e x rows deck found hit in
        let below = update_below x.id rows deck.2 (ground arith) in
        let kept : f x ≡ x = ap f xe ∙ same ∙ sym xe in rw hit (rw below (ap (λ y. y ∷ rows) kept))
    | inr miss ↦
        let rest =
          update-same l x.id e rows deck.2 (find_event-skip l id x e rows miss found) same in
        rw miss (ap (λ ys. x ∷ ys) rest)
  ]

  -- It is found again, as it is now.
  pub find_event-update :
      (l n : ℕ) (e : RewardEvent) (rows : List RewardEvent)
      → IsDeck n rows
      → find_event l id rows ≡ some e
      → find_event l id (update rows) ≡ some (f e)
  unfolding find_event
  find_event-update l n e [] deck found = cc
  find_event-update l n e (x ∷ rows) deck found = elim (Bool-cases (x.id == id)) [
    | inl hit ↦
        let (xe, own) = find_event-head l id n e x rows deck found hit in
        rw hit (simp (same_id x, same_ledger x, hit, own) (ap (λ y. some (f y)) xe))
    | inr miss ↦ rw (miss, miss) (find_event-update l x.id e rows deck.2 (ground arith))
  ]

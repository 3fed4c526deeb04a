-- ===== src/Event/Step.antt =====
-- What one sticker does to a card and to the table of cards (`RewardEvent` of
-- bounded_contexts/reward_points/domain/entities/reward_event.py, `stick` of its repository).
use rewardpointsweb.Base.{
  ℕ, ◌+◌, ◌≤◌, ◌<◌, ◌≡◌, refl, sym, ap, Bool, true, false, ◌&&◌, ◌==◌, ==_refl, some, List, [], ◌∷◌,
  arith, exists, update_where, Bool-cases, inl, inr,
}
use rewardpointsweb.Failure.{ok}
use rewardpointsweb.Entities.{RewardEvent}
use rewardpointsweb.Event.{find_event, is_completed, sticker_count, with_sticker, should_stick}
use rewardpointsweb.Event.Card.{
  IsRun, IsCard, IsDeck, place_by-IsRun, find_event-head, find_event-skip,
}

-- When `should_stick` says to go on.
pub should_stick-true :
    (e : RewardEvent) (number today : ℕ)
    → should_stick e number today ≡ ok true
    → (number ≡ sticker_count e + 1) × (number ≤ e.goal_count) × (is_completed e ≡ false)
unfolding should_stick
should_stick-true e number today h = ground arith

-- A number of the card that is stuck already is answered with nothing to do.
pub should_stick-false :
    (e : RewardEvent) (number today : ℕ)
    → number ≤ sticker_count e
    → should_stick e number today ≡ ok false
unfolding should_stick
should_stick-false e number today h = ground arith

-- The next sticker is not refused.
abbrev pub has_number : ℕ → RewardEvent → Bool
has_number number e = exists (λ s. s.number == number) e.stickers

pub none_below :
    (id n number : ℕ) (rows : List RewardEvent)
    → IsDeck n rows
    → n ≤ id
    → exists (λ x. x.id == id && has_number number x) rows ≡ false
none_below id n number [] deck le = refl
none_below id n number (x ∷ rows) deck le = ground (arith, none_below id x.id number rows deck.2)

pub not_stuck_yet :
    (l id n number : ℕ) (e : RewardEvent) (rows : List RewardEvent)
    → IsDeck n rows
    → find_event l id rows ≡ some e
    → has_number number e ≡ false
    → exists (λ x. x.id == id && has_number number x) rows ≡ false
not_stuck_yet l id n number e [] deck found free = refl
not_stuck_yet l id n number e (x ∷ rows) deck found free = elim (Bool-cases (x.id == id)) [
  | inl hit ↦
      let (xe, _) = find_event-head l id n e x rows deck found hit in
      ground (arith, ap (has_number number) xe, none_below id x.id number rows deck.2)
  | inr miss ↦ ground (
    arith,
    not_stuck_yet l id x.id number e rows deck.2 (find_event-skip l id x e rows miss found) free,
  )
]

-- The card with the next sticker.
pub with_sticker-count :
    (number now by : ℕ) (e : RewardEvent)
    → IsCard e
    → number ≡ sticker_count e + 1
    → IsRun 1 (with_sticker number now by e).stickers
      × (sticker_count (with_sticker number now by e) ≡ number)
with_sticker-count number now by e card next =
    let (run, more) =
      place_by-IsRun 1
        (record { number = number; stuck_at = now; stuck_by_membership_id = some by }) e.stickers
        card.run (omega arith) in
    (run, omega arith)

pub with_sticker-IsCard :
    (number now by : ℕ) (e : RewardEvent)
    → IsCard e
    → number ≡ sticker_count e + 1
    → number < e.goal_count
    → is_completed e ≡ false
    → IsCard (with_sticker number now by e)
with_sticker-IsCard number now by e card next room undone =
    let (run, count) = with_sticker-count number now by e card next in
    record {
      run = run;
      fits = omega arith;
      full = rw undone (rw count (ground arith));
      goal_pos = card.goal_pos;
      goal_le = card.goal_le;
      pays = card.pays;
      named = card.named;
    }

-- The full card.
abbrev pub completed_card : ℕ → ℕ → ℕ → ℕ → RewardEvent → RewardEvent
completed_card number now by awarded e = record (with_sticker number now by e) {
  completed_at = some now;
  awarded_transaction_id = some awarded;
}

pub completed_card-IsCard :
    (number now by awarded : ℕ) (e : RewardEvent)
    → IsCard e
    → number ≡ sticker_count e + 1
    → number ≡ e.goal_count
    → IsCard (completed_card number now by awarded e)
completed_card-IsCard number now by awarded e card next last =
    let (run, count) = with_sticker-count number now by e card next in
    record {
      run = run;
      fits = omega arith;
      full = rw (count, last) (sym (==_refl e.goal_count));
      goal_pos = card.goal_pos;
      goal_le = card.goal_le;
      pays = card.pays;
      named = card.named;
    }

-- Two updates of one row are one.
pub update_where-twice :
    (id : ℕ) (f g : RewardEvent → RewardEvent) (rows : List RewardEvent)
    → ((y : RewardEvent) → (f y).id ≡ y.id)
    → update_where (λ e. e.id == id) g (update_where (λ e. e.id == id) f rows)
      ≡ update_where (λ e. e.id == id) (λ e. g (f e)) rows
update_where-twice id f g [] same = refl
update_where-twice id f g (x ∷ rows) same =
    ground (arith, same x, update_where-twice id f g rows same)

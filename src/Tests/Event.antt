-- ===== src/Tests/Event.antt =====
-- A card of two stickers, one of them stuck.
use rewardpointsweb.Base.{
  ℕ, ◌≡◌, ◌==◌, refl, if◌then◌else◌, [], ◌∷◌, none, some, true, pos, ◌+ℤ◌, codes, arith, is_blank,
  place_by,
}
use rewardpointsweb.Failure.{ok}
use rewardpointsweb.Values.{idempotency_key}
use rewardpointsweb.Entities.{RewardEvent, Table, Db}
use rewardpointsweb.Days.{TimeZone, day_of}
use rewardpointsweb.Access.{LedgerAccess, modifiable_ledger}
use rewardpointsweb.Ledger.{find_by_key}
use rewardpointsweb.Recording.Record.{shown_balance}
use rewardpointsweb.Event.{
  event_dto, find_event, should_stick, is_expired, sticker_count, with_sticker, award_key, decimal,
  decimal_from,
}
use rewardpointsweb.Event.Key.{award_key-injective}
use rewardpointsweb.Event.Card.{IsDeck}
use rewardpointsweb.Event.Manage.{StickerCommand, stick_sticker, peel_sticker}
use rewardpointsweb.Event.Sticking.{stick_sticker_adds, stick_sticker_pays}
use rewardpointsweb.Event.Peeling.{peel_sticker_undoes}
use rewardpointsweb.Tests.Samples.{sample, the_owner, the_ledger}

abbrev greenwich : TimeZone
greenwich = record { wall = λ t. t; utc = λ t. t }

abbrev owner_access : LedgerAccess
owner_access = record { membership = the_owner; ledger = the_ledger }

abbrev card_of : ℕ → RewardEvent
card_of goal = record {
  id = 1;
  ledger_id = 1;
  title = codes "Read";
  reward = pos 20;
  goal_count = goal;
  stickers = record { number = 1; stuck_at = 30; stuck_by_membership_id = some 1 } ∷ [];
  completed_at = none;
  created_at = 25;
  deadline = none;
  awarded_transaction_id = none;
}

abbrev with_card : ℕ → Db
with_card goal = record sample { events = record { rows = card_of goal ∷ []; next_id = 2 } }

abbrev second : StickerCommand
second = record { ledger_id = 1; event_id = 1; account_id = 10; number = 2 }

of_two-IsDeck : IsDeck 2 (card_of 2 ∷ [])
unfolding is_blank
of_two-IsDeck = ground arith

of_five-IsDeck : IsDeck 2 (card_of 5 ∷ [])
unfolding is_blank
of_five-IsDeck = ground arith

second_of_two : should_stick (card_of 2) 2 (day_of greenwich 40) ≡ ok true
unfolding should_stick is_expired
second_of_two = refl

second_of_five : should_stick (card_of 5) 2 (day_of greenwich 40) ≡ ok true
unfolding should_stick is_expired
second_of_five = refl

granted : (goal : ℕ) → modifiable_ledger 1 10 (with_card goal) ≡ ok owner_access
unfolding modifiable_ledger
granted goal = refl

the_card : (goal : ℕ) → find_event 1 1 (card_of goal ∷ []) ≡ some (card_of goal)
unfolding find_event
the_card goal = refl

abbrev stuck : Table RewardEvent
stuck = record { rows = with_sticker 2 40 1 (card_of 5) ∷ []; next_id = 2 }

stick_sticker_adds_example :
    (stick_sticker greenwich second 40 (with_card 5)
      ≡ ok (
        event_dto (with_sticker 2 40 1 (card_of 5)) (day_of greenwich 40),
        record (with_card 5) { events = stuck },
      ))
    × (sticker_count (with_sticker 2 40 1 (card_of 5)) ≡ 2)
    × IsDeck 2 stuck.rows
stick_sticker_adds_example =
    stick_sticker_adds greenwich second 40 (with_card 5) owner_access (card_of 5) of_five-IsDeck
      (granted 5) (the_card 5) second_of_five (omega arith)

after_sticking :
    stick_sticker greenwich second 40 (with_card 5)
    ≡ ok (
      event_dto (with_sticker 2 40 1 (card_of 5)) (day_of greenwich 40),
      record (with_card 5) { events = stuck },
    )
after_sticking =
    (stick_sticker_adds greenwich second 40 (with_card 5) owner_access (card_of 5) of_five-IsDeck
      (granted 5) (the_card 5) second_of_five (omega arith)).0

peel_sticker_undoes_example :
    peel_sticker greenwich second 90 (record (with_card 5) { events = stuck })
    ≡ ok (event_dto (card_of 5) (day_of greenwich 90), with_card 5)
peel_sticker_undoes_example =
    peel_sticker_undoes greenwich second 40 (with_card 5) owner_access (card_of 5) of_five-IsDeck
      (granted 5) (the_card 5) second_of_five 90
      (event_dto (with_sticker 2 40 1 (card_of 5)) (day_of greenwich 40))
      (record (with_card 5) { events = stuck }) (omega arith) after_sticking

abbrev full : RewardEvent
full = record (card_of 2) {
  stickers =
      record { number = 1; stuck_at = 30; stuck_by_membership_id = some 1 }
      ∷ record { number = 2; stuck_at = 40; stuck_by_membership_id = some 1 }
      ∷ [];
  completed_at = some 40;
  awarded_transaction_id = some 3;
}

stick_sticker_pays_example :
    (db' : Db) × (stick_sticker greenwich second 40 (with_card 2)
      ≡ ok (event_dto full (day_of greenwich 40), db'))
    × ((l : ℕ)
        → shown_balance l db' ≡ (
            if 1 == l
            then pos 20 +ℤ shown_balance l (with_card 2)
            else shown_balance l (with_card 2)))
    × IsDeck db'.events.next_id db'.events.rows
    × ((later : ℕ)
        → stick_sticker greenwich second later db'
          ≡ ok (event_dto full (day_of greenwich later), db'))
unfolding find_by_key decimal decimal_from is_blank place_by
stick_sticker_pays_example =
    stick_sticker_pays greenwich second 40 (with_card 2) owner_access (card_of 2) of_two-IsDeck
      (granted 2) (the_card 2) second_of_two refl refl (refl, omega arith)

award_key-injective_example : ◌≡◌ {A = ℕ} 1 1
unfolding award_key decimal decimal_from idempotency_key is_blank
award_key-injective_example =
    award_key-injective (card_of 2) (card_of 5) (codes "reward-event#1") refl refl

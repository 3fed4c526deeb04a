-- ===== src/Event/Sticking.antt =====
-- Sticking the next sticker, and what the last one pays.
use rewardpointsweb.Base.{
  ℕ, ◌+◌, ◌≤◌, ◌≡◌, ◌≢◌, refl, subst, true, false, ◌==◌, if◌then◌else◌, none, some, arith,
  update_where, ◌+ℤ◌, Text,
}
use rewardpointsweb.Failure.{ok}
use rewardpointsweb.Values.{key_max_length, step_key}
use rewardpointsweb.Values.Laws.{IsText, idempotency_key-ok}
use rewardpointsweb.Entities.{RewardEvent, Table, Db, PointTransaction}
use rewardpointsweb.Access.{LedgerAccess, modifiable_ledger}
use rewardpointsweb.Days.{TimeZone, day_of}
use rewardpointsweb.Ledger.{find_by_key}
use rewardpointsweb.Ledger.Append.{added_row, added_table, append-fresh, violates_unique-fresh}
use rewardpointsweb.Recording.Record.{shown_balance, shown_balance-added}
use rewardpointsweb.Event.{
  event_dto, find_event, require_event, is_completed, sticker_count, with_sticker, should_stick,
  completes_with, stick, mark_completed, award_key, event_base, decimal,
}
use rewardpointsweb.Event.Card.{
  IsCard, IsDeck, next_is_free, update-IsDeck, find_event-update, find_event-holds,
  find_event-IsCard,
}
use rewardpointsweb.Event.Manage.{StickerCommand, stick_sticker, award, award_row}
use rewardpointsweb.Event.Step.{
  should_stick-true, should_stick-false, not_stuck_yet, with_sticker-count, with_sticker-IsCard,
  completed_card, completed_card-IsCard, update_where-twice,
}

-- A guardian, an event of the ledger, and a number that should be stuck, over well-formed cards.
module _ (zone : TimeZone) (c : StickerCommand) (now : ℕ) (db : Db) (found : LedgerAccess)
    (e : RewardEvent) (deck : IsDeck db.events.next_id db.events.rows)
    (granted : modifiable_ledger c.ledger_id c.account_id db ≡ ok found)
    (there : find_event found.ledger.id c.event_id db.events.rows ≡ some e)
    (should : should_stick e c.number (day_of zone now) ≡ ok true) where
  next : c.number ≡ sticker_count e + 1
  next = (should_stick-true e c.number (day_of zone now) should).0

  room : c.number ≤ e.goal_count
  room = (should_stick-true e c.number (day_of zone now) should).1

  undone : is_completed e ≡ false
  undone = (should_stick-true e c.number (day_of zone now) should).2

  card : IsCard e
  card = find_event-IsCard found.ledger.id c.event_id db.events.next_id e db.events.rows deck there

  same_event : e.id ≡ c.event_id
  same_event = (find_event-holds found.ledger.id c.event_id e db.events.rows there).0

  there' : find_event found.ledger.id e.id db.events.rows ≡ some e
  there' = simp same_event there

  -- The table with the sticker.
  abbrev pub stuck_table : Table RewardEvent
  stuck_table = record db.events {
    rows =
        update_where (λ x. x.id == e.id) (with_sticker c.number now found.membership.id)
          db.events.rows;
  }

  stick-ok : stick e.id c.number now found.membership.id db.events ≡ (true, stuck_table)
  unfolding stick
  stick-ok = ground (
    arith,
    next,
    not_stuck_yet found.ledger.id e.id db.events.next_id c.number e db.events.rows deck there'
        (next_is_free 1 c.number e.stickers card.run (omega (arith, next))),
  )

  require_event-ok : require_event found.ledger.id c.event_id db ≡ ok e
  unfolding require_event
  require_event-ok = rw there

  not_full : c.number ≢ e.goal_count → completes_with e c.number ≡ false
  unfolding completes_with
  not_full more = ground arith

  require_event-found :
      (d : Db) (k : ℕ) (x : RewardEvent)
      → find_event found.ledger.id k d.events.rows ≡ some x
      → require_event found.ledger.id k d ≡ ok x
  unfolding require_event
  require_event-found d k x h = rw h

  -- A guardian's request, over well-formed cards, for a sticker that should be stuck and does not
  -- fill the card, adds it as the card's next one and changes nothing but the table of the cards,
  -- which stay well-formed.
  pub stick_sticker_adds :
      c.number ≢ e.goal_count
      → (stick_sticker zone c now db
          ≡ ok (
            event_dto (with_sticker c.number now found.membership.id e) (day_of zone now),
            record db { events = stuck_table },
          ))
        × (sticker_count (with_sticker c.number now found.membership.id e) ≡ c.number)
        × IsDeck stuck_table.next_id stuck_table.rows
  unfolding stick_sticker
  stick_sticker_adds more =
      let (_, count) = with_sticker-count c.number now found.membership.id e card next in
      let found_again =
        find_event-update e.id (with_sticker c.number now found.membership.id) (λ y. refl)
          (λ y. refl) found.ledger.id db.events.next_id e db.events.rows deck there' in
      (
        rw granted (
            rw require_event-ok (
              rw should (
                rw stick-ok (
                  rw (not_full more) (
                    rw (
                      require_event-found (record db { events = stuck_table }) e.id
                        (with_sticker c.number now found.membership.id e) found_again)))))),
        count,
        update-IsDeck e.id (with_sticker c.number now found.membership.id) (λ y. refl) (λ y. refl)
            found.ledger.id db.events.next_id e db.events.rows deck there'
            (with_sticker-IsCard c.number now found.membership.id e card next (omega (arith, room))
              undone),
      )

  abbrev pub award_text : Text
  award_text = step_key event_base (decimal e.id)

  -- The row that the full card writes, and the tables after it.
  abbrev awarded : PointTransaction
  awarded = added_row (award_row e found award_text now) now db.transactions

  abbrev pub paid_db : Db
  paid_db = record db {
    transactions = added_table (award_row e found award_text now) now db.transactions;
    events = mark_completed e.id now awarded.id stuck_table;
  }

  abbrev pub full_card : RewardEvent
  full_card = completed_card c.number now found.membership.id awarded.id e

  -- The two updates of the event table are one.
  mark_completed-stuck :
      (mark_completed e.id now awarded.id stuck_table).rows
      ≡ update_where
          (λ x. x.id == e.id)
          (completed_card c.number now found.membership.id awarded.id)
          db.events.rows
  unfolding mark_completed
  mark_completed-stuck =
      update_where-twice e.id (with_sticker c.number now found.membership.id)
        (λ x. record x { completed_at = some now; awarded_transaction_id = some awarded.id })
        db.events.rows (λ y. refl)

  mark_completed-next : (mark_completed e.id now awarded.id stuck_table).next_id ≡ db.events.next_id
  unfolding mark_completed
  mark_completed-next = refl

  full_card-found :
      find_event found.ledger.id e.id (mark_completed e.id now awarded.id stuck_table).rows
      ≡ some full_card
  full_card-found = rw mark_completed-stuck (
      find_event-update e.id (completed_card c.number now found.membership.id awarded.id)
        (λ y. refl) (λ y. refl) found.ledger.id db.events.next_id e db.events.rows deck there')

  award-ok :
      find_by_key found.ledger.id award_text db.transactions.rows ≡ none
      → IsText key_max_length award_text
      → award true e found now (record db { events = stuck_table }) ≡ ok paid_db
  unfolding award award_key
  award-ok fresh is_key = rw (idempotency_key-ok award_text is_key) (
      rw (
        append-fresh (award_row e found award_text now) now db.transactions fresh is_key card.pays
          card.named
          (violates_unique-fresh (award_row e found award_text now) now db.transactions fresh refl
            refl)))

  is_full : c.number ≡ e.goal_count → completes_with e c.number ≡ true
  unfolding completes_with
  is_full last = ground arith

  granted-again : modifiable_ledger c.ledger_id c.account_id paid_db ≡ ok found
  unfolding modifiable_ledger
  granted-again = granted

  stick_sticker_again :
      (later : ℕ)
      → stick_sticker zone c later paid_db ≡ ok (event_dto full_card (day_of zone later), paid_db)
  unfolding stick_sticker
  stick_sticker_again later =
      let (_, count) = with_sticker-count c.number now found.membership.id e card next in
      let found_full : require_event found.ledger.id c.event_id paid_db ≡ ok full_card =
        require_event-found paid_db c.event_id full_card (
          subst (λ k. find_event found.ledger.id k paid_db.events.rows ≡ some full_card) same_event
            full_card-found) in
      rw granted-again (
        rw found_full (
          rw (should_stick-false full_card c.number (day_of zone later) (omega (arith, count)))
            refl))

  -- A guardian's request, over well-formed cards, for a sticker that should be stuck and fills the
  -- card, where the ledger does not have the award's key and that is an admissible key, completes
  -- the card and pays its reward once: the statement of the event's ledger moves by the reward and
  -- no other, the cards stay well-formed, and the same request, sent again at any time, succeeds
  -- and changes nothing.
  pub stick_sticker_pays :
      c.number ≡ e.goal_count
      → find_by_key found.ledger.id award_text db.transactions.rows ≡ none
      → IsText key_max_length award_text
      → (db' : Db) × (stick_sticker zone c now db ≡ ok (event_dto full_card (day_of zone now), db'))
        × ((l : ℕ)
            → shown_balance l db' ≡ (
                if found.ledger.id == l
                then e.reward +ℤ shown_balance l db
                else shown_balance l db))
        × IsDeck db'.events.next_id db'.events.rows
        × ((later : ℕ)
            → stick_sticker zone c later db' ≡ ok (event_dto full_card (day_of zone later), db'))
  unfolding stick_sticker
  stick_sticker_pays last fresh is_key =
      let (_, count) = with_sticker-count c.number now found.membership.id e card next in
      (
        paid_db,
        rw granted (
            rw require_event-ok (
              rw should (
                rw stick-ok (
                  rw (is_full last) (
                    rw (award-ok fresh is_key)
                      (rw (require_event-found paid_db e.id full_card full_card-found))))))),
        λ l. shown_balance-added (award_row e found award_text now) now db l,
        rw (mark_completed-next, mark_completed-stuck)
            (update-IsDeck e.id (completed_card c.number now found.membership.id awarded.id)
              (λ y. refl) (λ y. refl) found.ledger.id db.events.next_id e db.events.rows deck there'
              (completed_card-IsCard c.number now found.membership.id awarded.id e card next last)),
        λ later. stick_sticker_again later,
      )

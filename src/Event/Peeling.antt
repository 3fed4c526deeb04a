-- ===== src/Event/Peeling.antt =====
-- Peeling a sticker undoes sticking it (manage_reward_events.py of
-- bounded_contexts/reward_points/application/use_cases).
use rewardpointsweb.Base.{
  ℕ, suc, ◌+◌, ◌≡◌, ◌≢◌, refl, sym, subst, ◌∙◌, ap, true, false, ◌==◌, some, arith, List, [], ◌∷◌,
  length, delete_where, place_by,
}
use rewardpointsweb.Failure.{ok}
use rewardpointsweb.Entities.{EventSticker, RewardEvent, Table, Db}
use rewardpointsweb.Access.{LedgerAccess, modifiable_ledger}
use rewardpointsweb.Days.{TimeZone, day_of}
use rewardpointsweb.Event.{
  RewardEventDto, event_dto, find_event, require_event, is_completed, sticker_count, with_sticker,
  without_sticker, should_stick, should_peel, peel,
}
use rewardpointsweb.Event.Card.{
  IsRun, IsCard, IsDeck, find_event-update, find_event-holds, find_event-IsCard, update-same,
}
use rewardpointsweb.Event.Manage.{StickerCommand, stick_sticker, peel_sticker}
use rewardpointsweb.Event.Step.{should_stick-true, with_sticker-count, update_where-twice}
use rewardpointsweb.Event.Sticking.{stick_sticker_adds, stuck_table}

-- The last sticker of a run is the only one with its number.
run-peeled :
    (k now by : ℕ) (stickers : List EventSticker) (number : ℕ)
    → IsRun k stickers
    → number ≡ k + length stickers
    → delete_where
        (λ s. s.number == number)
        (place_by
          (λ s. s.number)
          (record { number = number; stuck_at = now; stuck_by_membership_id = some by })
          stickers)
      ≡ stickers
unfolding place_by
run-peeled k now by [] number run next = ground arith
run-peeled k now by (x ∷ stickers) number run next =
    ground (arith, run-peeled (suc k) now by stickers number run.1 (omega (arith, next)))

without-with_sticker :
    (number now by : ℕ) (e : RewardEvent)
    → IsCard e
    → number ≡ sticker_count e + 1
    → without_sticker number (with_sticker number now by e) ≡ e
without-with_sticker number now by e card next =
    ap (λ (s : List EventSticker). record e { stickers = s })
      (run-peeled 1 now by e.stickers number card.run (omega (arith, next)))

should_peel-last :
    (e : RewardEvent) (number : ℕ)
    → is_completed e ≡ false
    → sticker_count e ≡ number
    → should_peel e number ≡ ok true
unfolding should_peel
should_peel-last e number undone count = ground arith

module _ (zone : TimeZone) (c : StickerCommand) (now : ℕ) (db : Db) (found : LedgerAccess)
    (e : RewardEvent) (deck : IsDeck db.events.next_id db.events.rows)
    (granted : modifiable_ledger c.ledger_id c.account_id db ≡ ok found)
    (there : find_event found.ledger.id c.event_id db.events.rows ≡ some e)
    (should : should_stick e c.number (day_of zone now) ≡ ok true) where
  abbrev stuck : Table RewardEvent
  stuck = stuck_table zone c now db found e deck granted there should

  abbrev stuck_db : Db
  stuck_db = record db { events = stuck }

  still_granted : modifiable_ledger c.ledger_id c.account_id stuck_db ≡ ok found
  unfolding modifiable_ledger
  still_granted = granted

  same_event : e.id ≡ c.event_id
  same_event = (find_event-holds found.ledger.id c.event_id e db.events.rows there).0

  card : IsCard e
  card = find_event-IsCard found.ledger.id c.event_id db.events.next_id e db.events.rows deck there

  there' : find_event found.ledger.id e.id db.events.rows ≡ some e
  there' = simp same_event there

  stuck_found :
      require_event found.ledger.id c.event_id stuck_db
      ≡ ok (with_sticker c.number now found.membership.id e)
  unfolding require_event
  stuck_found =
      let again =
        find_event-update e.id (with_sticker c.number now found.membership.id) (λ y. refl)
          (λ y. refl) found.ledger.id db.events.next_id e db.events.rows deck there' in
      rw
        (subst
          (λ k.
            find_event found.ledger.id k stuck.rows
            ≡ some (with_sticker c.number now found.membership.id e))
          same_event again)
        refl

  peeled : peel e.id c.number stuck ≡ db.events
  unfolding peel
  peeled =
      let (next, _, _) = should_stick-true e c.number (day_of zone now) should in
      ap (λ (rows : List RewardEvent). record db.events { rows = rows })
        (update_where-twice e.id (with_sticker c.number now found.membership.id)
            (without_sticker c.number) db.events.rows (λ y. refl)
          ∙ update-same e.id
              (λ x. without_sticker c.number (with_sticker c.number now found.membership.id x))
              (λ y. refl) (λ y. refl) found.ledger.id db.events.next_id e db.events.rows deck there'
              (without-with_sticker c.number now found.membership.id e card next))

  found_there : require_event found.ledger.id e.id db ≡ ok e
  unfolding require_event
  found_there = rw there'

  -- After a guardian's request, over well-formed cards, has stuck a sticker that does not fill the
  -- card, the request to peel the same sticker, at any time, succeeds and leaves the database as it
  -- was before the sticker.
  pub peel_sticker_undoes :
      (later : ℕ) (dto : RewardEventDto) (db' : Db)
      → c.number ≢ e.goal_count
      → stick_sticker zone c now db ≡ ok (dto, db')
      → peel_sticker zone c later db' ≡ ok (event_dto e (day_of zone later), db)
  unfolding peel_sticker
  peel_sticker_undoes later dto db' more h =
      let (next, _, undone) = should_stick-true e c.number (day_of zone now) should in
      let (_, count) = with_sticker-count c.number now found.membership.id e card next in
      let (added, _, _) = stick_sticker_adds zone c now db found e deck granted there should more in
      let same : db' ≡ stuck_db = ground (arith, sym h ∙ added) in
      rw same (
        rw still_granted (
          rw stuck_found (
            rw
              (should_peel-last (with_sticker c.number now found.membership.id e) c.number undone
                count)
              (rw peeled (rw found_there refl)))))

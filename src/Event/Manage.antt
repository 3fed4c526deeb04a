-- ===== src/Event/Manage.antt =====
-- The use cases of manage_reward_events.py.
use rewardpointsweb.Base.{
  ℕ, Bool, true, false, ◌&&◌, not, if◌then◌else◌, is_some, Option, none, some, List, map, ℤ, Text,
}
use rewardpointsweb.Failure.{
  Result, ok, raise_if, or_raise, ◌>>=◌, ◌>>◌, reward_event_completed, membership_not_found,
}
use rewardpointsweb.Entities.{RewardEvent, Db}
use rewardpointsweb.Access.{LedgerAccess, modifiable_ledger, viewable_ledger, find_membership}
use rewardpointsweb.Policy.{can_modify_ledger}
use rewardpointsweb.Days.{TimeZone, day_of}
use rewardpointsweb.Ledger.{NewTransaction, append}
use rewardpointsweb.Event.{
  RewardEventDto, event_dto, events_of, add_event, ensure_not_passed, require_event, is_completed,
  change_deadline, should_stick, completes_with, stick, mark_completed, award_key, should_peel,
  peel, find_event, delete_event,
}

-- `RewardEventBoardDTO`
pub record RewardEventBoardDto : Type 0 where
  pub ledger_id : ℕ
  pub display_name : Text
  pub can_modify : Bool
  pub events : List RewardEventDto

-- `ViewRewardEventsUseCase.execute`
unfoldable pub view_events : TimeZone → ℕ → ℕ → ℕ → Db → Result RewardEventBoardDto
view_events zone ledger_id account_id now db = do
  found ← viewable_ledger ledger_id account_id db
  owner ←
      or_raise (find_membership found.ledger.membership_id db.memberships.rows) membership_not_found
  ok (record {
    ledger_id = found.ledger.id;
    display_name = owner.display_name;
    can_modify = can_modify_ledger found.membership found.ledger;
    events = map (λ e. event_dto e (day_of zone now)) (events_of found.ledger.id db.events.rows);
  })

-- `CreateRewardEventCommand`
pub record CreateRewardEventCommand : Type 0 where
  pub ledger_id : ℕ
  pub account_id : ℕ
  pub title : Text
  pub reward_points : ℤ
  pub goal_count : ℕ
  pub deadline : Option ℕ

-- `CreateRewardEventUseCase.execute`
unfoldable pub create_event :
    TimeZone → CreateRewardEventCommand → ℕ → Db → Result (RewardEventDto × Db)
create_event zone c now db = do
  found ← modifiable_ledger c.ledger_id c.account_id db
  let today = day_of zone now
  ensure_not_passed c.deadline today
  (event, events) ←
      add_event
        (record {
          ledger_id = found.ledger.id;
          title = c.title;
          reward = c.reward_points;
          goal_count = c.goal_count;
          deadline = c.deadline;
        })
        now db.events
  ok (event_dto event today, record db { events = events })

-- `ChangeDeadlineCommand`
pub record ChangeDeadlineCommand : Type 0 where
  pub ledger_id : ℕ
  pub event_id : ℕ
  pub account_id : ℕ
  pub deadline : Option ℕ

-- `ChangeRewardEventDeadlineUseCase.execute`
unfoldable pub change_event_deadline :
    TimeZone → ChangeDeadlineCommand → ℕ → Db → Result (RewardEventDto × Db)
change_event_deadline zone c now db = do
  found ← modifiable_ledger c.ledger_id c.account_id db
  event ← require_event found.ledger.id c.event_id db
  raise_if (is_completed event) reward_event_completed
  let today = day_of zone now
  ensure_not_passed c.deadline today
  let db' = record db { events = change_deadline event.id c.deadline db.events }
  changed ← require_event found.ledger.id event.id db'
  ok (event_dto changed today, db')

-- `StickerCommand`
pub record StickerCommand : Type 0 where
  pub ledger_id : ℕ
  pub event_id : ℕ
  pub account_id : ℕ
  pub number : ℕ

-- The row that a full card writes.
abbrev pub award_row : RewardEvent → LedgerAccess → Text → ℕ → NewTransaction
award_row e found key now = record {
  ledger_id = found.ledger.id;
  amount = e.reward;
  reason = e.title;
  granted_by_membership_id = some found.membership.id;
  occurred_at = now;
  idempotency_key = key;
  reversal_of_id = none;
  corrects_id = none;
}

-- The last sticker's consequences, in `StickRewardEventStickerUseCase.execute`.
unfoldable pub award : Bool → RewardEvent → LedgerAccess → ℕ → Db → Result Db
award false e found now db = ok db
award true e found now db = do
  key ← award_key e
  (awarded, transactions) ← append (award_row e found key now) now db.transactions
  ok (record db {
    transactions = transactions;
    events = mark_completed e.id now awarded.id db.events;
  })

-- What is done when a sticker should be stuck.
unfoldable pub stick_and_award :
    StickerCommand → RewardEvent → LedgerAccess → ℕ → ℕ → Db → Result (RewardEventDto × Db)
unfolding award
stick_and_award c event found now today db = do
  let (stuck, events) = stick event.id c.number now found.membership.id db.events
  db' ←
      award (stuck && completes_with event c.number) event found now (record db { events = events })
  event' ← require_event found.ledger.id event.id db'
  ok (event_dto event' today, db')

-- `StickRewardEventStickerUseCase.execute`
unfoldable pub stick_sticker : TimeZone → StickerCommand → ℕ → Db → Result (RewardEventDto × Db)
unfolding stick_and_award
stick_sticker zone c now db = do
  found ← modifiable_ledger c.ledger_id c.account_id db
  event ← require_event found.ledger.id c.event_id db
  let today = day_of zone now
  should ← should_stick event c.number today
  if not should then ok (event_dto event today, db) else stick_and_award c event found now today db

-- What is done when a sticker should be peeled off.
unfoldable pub peel_off :
    StickerCommand → RewardEvent → LedgerAccess → ℕ → Db → Result (RewardEventDto × Db)
peel_off c event found today db = do
  let db' = record db { events = peel event.id c.number db.events }
  event' ← require_event found.ledger.id event.id db'
  ok (event_dto event' today, db')

-- `PeelRewardEventStickerUseCase.execute`
unfoldable pub peel_sticker : TimeZone → StickerCommand → ℕ → Db → Result (RewardEventDto × Db)
unfolding peel_off
peel_sticker zone c now db = do
  found ← modifiable_ledger c.ledger_id c.account_id db
  event ← require_event found.ledger.id c.event_id db
  should ← should_peel event c.number
  if should
      then peel_off c event found (day_of zone now) db
      else ok (event_dto event (day_of zone now), db)

-- `DeleteRewardEventUseCase.execute`
unfoldable pub delete_reward_event : ℕ → ℕ → ℕ → Db → Result Db
delete_reward_event ledger_id event_id account_id db = do
  found ← modifiable_ledger ledger_id account_id db
  ok (
      if is_some (find_event found.ledger.id event_id db.events.rows)
      then record db { events = delete_event event_id db.events }
      else db)

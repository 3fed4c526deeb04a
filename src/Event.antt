-- ===== src/Event.antt =====
-- Reward events: a card of numbered stickers that pays its reward when it is full.
-- domain/entities/reward_event.py, infrastructure/sql_reward_event_repository.py,
-- application/use_cases/manage_reward_events.py and application/dto/reward_event_dto.py of
-- bounded_contexts/reward_points. `now` is the reading of `utcnow()`.
pub mod Key
pub mod Card
pub mod Manage
pub mod Step
pub mod Sticking
pub mod Peeling
use rewardpointsweb.Base.{
  ℕ, zero, suc, ◌+◌, ◌-◌, ◌/◌, Bool, true, false, ◌||◌, ◌&&◌, not, if◌then◌else◌, ◌==◌, ltb, leb,
  is_some, Option, none, some, List, [], ◌∷◌, ◌++◌, map, length, first, select, exists,
  delete_where, update_where, place_by, sort_by, ℤ, pos, ltb_ℤ, Text, codes,
}
use rewardpointsweb.Failure.{
  Result, ok, err, raise_if, or_raise, ◌>>=◌, ◌>>◌, value_error, reward_event_completed,
  reward_event_expired, sticker_out_of_order, reward_event_not_found, reward_event_deadline_passed,
  membership_not_found,
}
use rewardpointsweb.Values.{idempotency_key, step_key, point_amount, transaction_reason}
use rewardpointsweb.Entities.{EventSticker, RewardEvent, Table, insert_row, Db}
use rewardpointsweb.Access.{LedgerAccess, modifiable_ledger, viewable_ledger, find_membership}
use rewardpointsweb.Policy.{can_modify_ledger}
use rewardpointsweb.Days.{TimeZone, day_of, digit}
use rewardpointsweb.Ledger.{NewTransaction, append}

abbrev pub title_max_length : ℕ
title_max_length = 100

abbrev pub max_goal_count : ℕ
max_goal_count = 50

-- `str(n)`, with fuel above the number of digits.
unfoldable pub decimal_from : ℕ → ℕ → Text
decimal_from zero n = []
decimal_from (suc fuel) n =
    let higher = decimal_from fuel (n / 10) in
    if ltb n 10 then digit n ∷ [] else higher ++ (digit n ∷ [])

unfoldable pub decimal : ℕ → Text
unfolding decimal_from
decimal n = decimal_from (suc n) n

-- `IDEMPOTENCY_BASE`
abbrev pub event_base : Text
event_base = codes "reward-event"

-- `RewardEvent.__post_init__`, with the value objects of its fields.
unfoldable pub checked_event : RewardEvent → Result RewardEvent
checked_event e = do
  title ← transaction_reason e.title
  reward ← point_amount e.reward
  raise_if (not (ltb_ℤ (pos 0) reward)) value_error
  raise_if (ltb title_max_length (length title)) value_error
  raise_if (not (leb 1 e.goal_count && leb e.goal_count max_goal_count)) value_error
  ok e

-- `RewardEvent.sticker_count`
abbrev pub sticker_count : RewardEvent → ℕ
sticker_count e = length e.stickers

-- `RewardEvent.is_completed`
abbrev pub is_completed : RewardEvent → Bool
is_completed e = is_some e.completed_at

-- The deadline of an event is before `today`.
abbrev pub is_past : Option ℕ → ℕ → Bool
is_past none today = false
is_past (some deadline) today = ltb deadline today

-- `RewardEvent.is_expired`
unfoldable pub is_expired : RewardEvent → ℕ → Bool
is_expired e today = not (is_completed e) && is_past e.deadline today

-- `RewardEvent.award_key`
unfoldable pub award_key : RewardEvent → Result Text
award_key e = idempotency_key (step_key event_base (decimal e.id))

-- `RewardEvent.should_stick`
unfoldable pub should_stick : RewardEvent → ℕ → ℕ → Result Bool
unfolding is_expired
should_stick e number today = if leb number (sticker_count e) then ok false else do
  raise_if (is_completed e) reward_event_completed
  raise_if (is_expired e today) reward_event_expired
  raise_if (not (number == sticker_count e + 1) || ltb e.goal_count number) sticker_out_of_order
  ok true

-- `RewardEvent.completes_with`
unfoldable pub completes_with : RewardEvent → ℕ → Bool
completes_with e number = number == e.goal_count

-- `RewardEvent.should_peel`
unfoldable pub should_peel : RewardEvent → ℕ → Result Bool
should_peel e number = do
  raise_if (is_completed e) reward_event_completed
  if ltb (sticker_count e) number
      then ok false
      else do raise_if (not (number == sticker_count e)) sticker_out_of_order; ok true

-- `find_in_ledger` of the repository.
unfoldable pub find_event : ℕ → ℕ → List RewardEvent → Option RewardEvent
find_event ledger_id event_id rows = first (λ e. e.id == event_id && e.ledger_id == ledger_id) rows

-- `list_by_ledger`
unfoldable pub events_of : ℕ → List RewardEvent → List RewardEvent
events_of ledger_id rows = sort_by (λ e. e.id) (select (λ e. e.ledger_id == ledger_id) rows)

-- `NewRewardEvent`
pub record NewRewardEvent : Type 0 where
  pub ledger_id : ℕ
  pub title : Text
  pub reward : ℤ
  pub goal_count : ℕ
  pub deadline : Option ℕ

-- `add`
unfoldable pub add_event :
    NewRewardEvent → ℕ → Table RewardEvent → Result (RewardEvent × Table RewardEvent)
unfolding checked_event
add_event new now t = do
  let (row, t') =
      insert_row
        (λ id. record {
          id = id;
          ledger_id = new.ledger_id;
          title = new.title;
          reward = new.reward;
          goal_count = new.goal_count;
          stickers = [];
          completed_at = none;
          created_at = now;
          deadline = new.deadline;
          awarded_transaction_id = none;
        })
        t
  event ← checked_event row
  ok (event, t')

-- The stickers with one more, by number.
abbrev pub with_sticker : ℕ → ℕ → ℕ → RewardEvent → RewardEvent
with_sticker number now membership_id e = record e {
  stickers =
      place_by (λ s. s.number)
        (record { number = number; stuck_at = now; stuck_by_membership_id = some membership_id })
        e.stickers;
}

-- The constraints of the sticker table refuse the number for the event.
abbrev pub sticker_refused : ℕ → ℕ → List RewardEvent → Bool
sticker_refused event_id number rows =
    number == 0
    || exists (λ e. e.id == event_id && exists (λ s. s.number == number) e.stickers) rows

-- `stick`: whether the sticker was added.
unfoldable pub stick : ℕ → ℕ → ℕ → ℕ → Table RewardEvent → Bool × Table RewardEvent
stick event_id number now membership_id t =
    if sticker_refused event_id number t.rows then (false, t) else (
      true,
      record t {
        rows = update_where (λ e. e.id == event_id) (with_sticker number now membership_id) t.rows;
      },
    )

-- The stickers without one.
abbrev pub without_sticker : ℕ → RewardEvent → RewardEvent
without_sticker number e = record e { stickers = delete_where (λ s. s.number == number) e.stickers }

-- `peel`
unfoldable pub peel : ℕ → ℕ → Table RewardEvent → Table RewardEvent
peel event_id number t = record t {
  rows = update_where (λ e. e.id == event_id) (without_sticker number) t.rows;
}

-- `mark_completed`
unfoldable pub mark_completed : ℕ → ℕ → ℕ → Table RewardEvent → Table RewardEvent
mark_completed event_id now awarded t = record t {
  rows =
      update_where (λ e. e.id == event_id)
        (λ e. record e { completed_at = some now; awarded_transaction_id = some awarded }) t.rows;
}

-- `change_deadline`
unfoldable pub change_deadline : ℕ → Option ℕ → Table RewardEvent → Table RewardEvent
change_deadline event_id deadline t = record t {
  rows = update_where (λ e. e.id == event_id) (λ e. record e { deadline = deadline }) t.rows;
}

-- `delete`
unfoldable pub delete_event : ℕ → Table RewardEvent → Table RewardEvent
delete_event event_id t = record t { rows = delete_where (λ e. e.id == event_id) t.rows }

-- `_ensure_not_passed`
unfoldable pub ensure_not_passed : Option ℕ → ℕ → Result (Unit {0})
ensure_not_passed deadline today = raise_if (is_past deadline today) reward_event_deadline_passed

-- `_find`
unfoldable pub require_event : ℕ → ℕ → Db → Result RewardEvent
require_event ledger_id event_id db =
    or_raise (find_event ledger_id event_id db.events.rows) reward_event_not_found

-- `RewardEventDTO`
pub record RewardEventDto : Type 0 where
  pub id : ℕ
  pub ledger_id : ℕ
  pub title : Text
  pub reward_points : ℤ
  pub goal_count : ℕ
  pub stickers : List EventSticker
  pub completed_at : Option ℕ
  pub created_at : ℕ
  pub deadline : Option ℕ
  pub is_expired : Bool

-- `to_dto`
unfoldable pub event_dto : RewardEvent → ℕ → RewardEventDto
event_dto e today = record {
  id = e.id;
  ledger_id = e.ledger_id;
  title = e.title;
  reward_points = e.reward;
  goal_count = e.goal_count;
  stickers = e.stickers;
  completed_at = e.completed_at;
  created_at = e.created_at;
  deadline = e.deadline;
  is_expired = is_expired e today;
}

-- ===== src/Bonus.antt =====
-- The daily bonus: domain/entities/daily_bonus.py, infrastructure/sql_daily_bonus_repository.py,
-- application/use_cases/grant_due_daily_bonuses.py and configure_daily_bonus.py of
-- bounded_contexts/reward_points. A day is its number, as in Days.
pub mod Due
pub mod Grant
pub mod Settled
use rewardpointsweb.Base.{
  ℕ, zero, suc, ◌+◌, ◌-◌, Bool, true, false, ◌||◌, ◌&&◌, if◌then◌else◌, ◌==◌, ltb, leb, Option,
  none, some, List, [], ◌∷◌, first, select, delete_where, update_where, sort_by, ℤ, Text, codes,
  pos, ltb_ℤ, not,
}
use Prim.Native.Nat.{max}
use rewardpointsweb.Failure.{Result, ok, err, raise_if, ◌>>=◌, ◌>>◌, value_error}
use rewardpointsweb.Values.{idempotency_key, for_step, point_amount, transaction_reason}
use rewardpointsweb.Entities.{PointTransaction, DailyBonus, Table, insert_row, Db}
use rewardpointsweb.Access.{modifiable_ledger}
use rewardpointsweb.Days.{date_of, isoformat, TimeZone, day_of, starts_at}
use rewardpointsweb.Ledger.{NewTransaction, append}

-- `IDEMPOTENCY_BASE`
abbrev pub bonus_base : Text
bonus_base = codes "daily-bonus"

-- `idempotency_key_for`
unfoldable pub idempotency_key_for : ℕ → Result Text
idempotency_key_for day = do
  base ← idempotency_key bonus_base
  for_step base (isoformat (date_of day))

-- `DueDays`
pub record DueDays : Type 0 where
  pub days : List ℕ
  pub skipped : ℕ

-- `start + timedelta(days=offset) for offset in range(count)`
unfoldable pub days_from : ℕ → ℕ → List ℕ
days_from start zero = []
days_from start (suc count) = start ∷ days_from (start + 1) count

-- `DailyBonus.__post_init__`
unfoldable pub checked_bonus : DailyBonus → Result DailyBonus
checked_bonus b = do raise_if (not (ltb_ℤ (pos 0) b.amount)) value_error; ok b

-- The first day that is not granted yet.
unfoldable pub first_due : DailyBonus → ℕ
first_due b = elim b.granted_through [ none ↦ b.starts_on | some last ↦ last + 1 ]

-- `DailyBonus.due_days`
unfoldable pub due_days : DailyBonus → ℕ → ℕ → DueDays
unfolding first_due days_from
due_days b today limit =
    if ltb today (first_due b)
    then record { days = []; skipped = 0 }
    else let total = today - first_due b + 1 in
      let skipped = total - max 1 limit in
      record { days = days_from (first_due b + skipped) (total - skipped); skipped = skipped }

-- `DailyBonusDraft`
pub record DailyBonusDraft : Type 0 where
  pub ledger_id : ℕ
  pub amount : ℤ
  pub reason : Text
  pub starts_on : ℕ

-- `_find_row`
unfoldable pub find_bonus : ℕ → List DailyBonus → Option DailyBonus
find_bonus ledger_id rows = first (λ b. b.ledger_id == ledger_id) rows

-- `_add_row`, where no other request adds the row at the same time.
abbrev pub new_bonus : DailyBonusDraft → ℤ → Text → ℕ → DailyBonus
new_bonus draft amount reason id = record {
  id = id;
  ledger_id = draft.ledger_id;
  amount = amount;
  reason = reason;
  starts_on = draft.starts_on;
  granted_through = none;
}

abbrev pub add_or_update :
    Option DailyBonus
    → DailyBonusDraft
    → ℤ
    → Text
    → Table DailyBonus
    → DailyBonus × Table DailyBonus
add_or_update none draft amount reason t = insert_row (new_bonus draft amount reason) t
add_or_update (some row) draft amount reason t =
    let row' = record row { amount = amount; reason = reason } in
    (row', record t { rows = update_where (λ b. b.id == row.id) (λ b. row') t.rows })

-- `save`
unfoldable pub save_bonus :
    DailyBonusDraft → Table DailyBonus → Result (DailyBonus × Table DailyBonus)
save_bonus draft t = do
  amount ← point_amount draft.amount
  reason ← transaction_reason draft.reason
  let (row, t') = add_or_update (find_bonus draft.ledger_id t.rows) draft amount reason t
  bonus ← checked_bonus row
  ok (bonus, t')

-- The condition of `list_due`.
unfoldable pub is_due : ℕ → DailyBonus → Bool
is_due today b = elim b.granted_through [
  | none ↦ leb b.starts_on today
  | some last ↦ ltb last today
]

-- `list_due`
unfoldable pub list_due : ℕ → List DailyBonus → List DailyBonus
unfolding is_due
list_due today rows = sort_by (λ b. b.id) (select (is_due today) rows)

-- `mark_granted_through`
unfoldable pub mark_granted_through : ℕ → ℕ → List DailyBonus → List DailyBonus
mark_granted_through bonus_id day rows =
    update_where (λ b. b.id == bonus_id) (λ b. record b { granted_through = some day }) rows

-- `delete_by_ledger`
unfoldable pub delete_bonus_of : ℕ → List DailyBonus → List DailyBonus
delete_bonus_of ledger_id rows = delete_where (λ b. b.ledger_id == ledger_id) rows

-- `GrantDueDailyBonusesUseCase._entry_for`
unfoldable pub entry_for : TimeZone → DailyBonus → ℕ → Result NewTransaction
entry_for zone b day = do
  key ← idempotency_key_for day
  ok (record {
    ledger_id = b.ledger_id;
    amount = b.amount;
    reason = b.reason;
    granted_by_membership_id = none;
    occurred_at = starts_at zone day;
    idempotency_key = key;
    reversal_of_id = none;
    corrects_id = none;
  })

-- The inner loop of `execute`: one row for each day, and their number.
unfoldable pub grant_days :
    TimeZone
    → ℕ
    → DailyBonus
    → List ℕ
    → ℕ × Table PointTransaction
    → Result (ℕ × Table PointTransaction)
grant_days zone now b [] (granted, t) = ok (granted, t)
grant_days zone now b (day ∷ days) (granted, t) = do
  entry ← entry_for zone b day
  (_, t') ← append entry now t
  grant_days zone now b days (granted + 1, t')

-- `due.days[-1]`, or nothing for no days.
unfoldable pub last_day : List ℕ → Option ℕ
last_day [] = none
last_day (d ∷ []) = some d
last_day (d ∷ e ∷ days) = last_day (e ∷ days)

-- `GrantedDailyBonuses`
pub record Granted : Type 0 where
  pub granted : ℕ
  pub skipped : ℕ

-- The end of a round of the outer loop, which `continue` passes over when no day is due.
abbrev pub mark_last : Option ℕ → ℕ → Db → Db
mark_last none bonus_id db = db
mark_last (some day) bonus_id db = record db {
  bonuses = record db.bonuses { rows = mark_granted_through bonus_id day db.bonuses.rows };
}

-- One round of the outer loop.
unfoldable pub grant_bonus :
    TimeZone → ℕ → ℕ → ℕ → DailyBonus → Granted × Db → Result (Granted × Db)
grant_bonus zone limit now today b (counts, db) = do
  let due = due_days b today limit
  (granted, t) ← grant_days zone now b due.days (counts.granted, db.transactions)
  ok (
    record { granted = granted; skipped = counts.skipped + due.skipped },
    mark_last (last_day due.days) b.id (record db { transactions = t }),
  )

unfoldable pub grant_all :
    TimeZone → ℕ → ℕ → ℕ → List DailyBonus → Granted × Db → Result (Granted × Db)
grant_all zone limit now today [] state = ok state
grant_all zone limit now today (b ∷ bonuses) state = do
  state' ← grant_bonus zone limit now today b state
  grant_all zone limit now today bonuses state'

-- `GrantDueDailyBonusesUseCase.execute`
unfoldable pub grant_due_bonuses : TimeZone → ℕ → ℕ → Db → Result (Granted × Db)
grant_due_bonuses zone limit now db =
    let today = day_of zone now in
    grant_all zone limit now today (list_due today db.bonuses.rows)
      (record { granted = 0; skipped = 0 }, db)

-- `ConfigureDailyBonusCommand`
pub record ConfigureDailyBonusCommand : Type 0 where
  pub ledger_id : ℕ
  pub account_id : ℕ
  pub amount : ℤ
  pub reason : Text

-- `ConfigureDailyBonusUseCase.execute`, with `_next_day`
unfoldable pub configure_bonus :
    TimeZone → ConfigureDailyBonusCommand → ℕ → Db → Result (DailyBonus × Db)
configure_bonus zone c now db = do
  found ← modifiable_ledger c.ledger_id c.account_id db
  (bonus, bonuses) ←
      save_bonus
        (record {
          ledger_id = found.ledger.id;
          amount = c.amount;
          reason = c.reason;
          starts_on = day_of zone now + 1;
        })
        db.bonuses
  ok (bonus, record db { bonuses = bonuses })

-- `StopDailyBonusUseCase.execute`
unfoldable pub stop_bonus : ℕ → ℕ → Db → Result Db
stop_bonus ledger_id account_id db = do
  found ← modifiable_ledger ledger_id account_id db
  ok (record db {
    bonuses = record db.bonuses { rows = delete_bonus_of found.ledger.id db.bonuses.rows };
  })

-- ===== src/Tests/Bonus.antt =====
-- A daily bonus of the sample ledger, in a time zone behind that of Greenwich.
use Prim.Native.Nat.{max}
use rewardpointsweb.Base.{
  ℕ, suc, ◌+◌, ◌-◌, ◌≤◌, ◌<◌, ◌≡◌, ◌⊎◌, refl, [], ◌∷◌, none, some, Text, pos, codes, arith,
  is_blank, sort_by, place_by, ◌*◌,
}
use rewardpointsweb.Failure.{ok}
use rewardpointsweb.Entities.{DailyBonus, PointTransaction, Table, Db}
use rewardpointsweb.Days.{
  TimeZone, day_of, starts_at, date_of, next_date, isoformat, is_leap, days_in_month,
}
use rewardpointsweb.Ledger.{append, append_unless, insert_once, find_by_key, violates_unique}
use rewardpointsweb.Bonus.{
  grant_due_bonuses, grant_all, grant_bonus, entry_for, list_due, is_due, last_day,
  mark_granted_through, idempotency_key_for, days_from, due_days, first_due, grant_days,
}
use rewardpointsweb.Bonus.Settled.{grant_due_bonuses-settles}
use rewardpointsweb.Values.{idempotency_key, point_amount, transaction_reason, for_step}
use rewardpointsweb.Bonus.Due.{due_days_lem}
use rewardpointsweb.Bonus.Grant.{
  day_key, HasGranted, grant_days_moves, grant_days_again, idempotency_key_for-injective,
}
use rewardpointsweb.Tests.Samples.{sample, sample-IsValid}

-- Five hours behind.
abbrev lima : TimeZone
lima = record { wall = λ t. t - 18000000000; utc = λ t. t + 18000000000 }

-- Its third day.
lima_day : day_of lima (starts_at lima 3) ≡ 3
unfolding day_of starts_at
lima_day = refl

abbrev pocket_money : DailyBonus
pocket_money = record {
  id = 1;
  ledger_id = 1;
  amount = pos 5;
  reason = codes "daily";
  starts_on = 2;
  granted_through = none;
}

due_days_example :
    (9 < 2 → due_days pocket_money 9 3 ≡ record { days = []; skipped = 0 })
    × (2 ≤ 9
        → (skipped : ℕ) × (count : ℕ) × (due_days pocket_money 9 3
            ≡ record { days = days_from (2 + skipped) (suc count); skipped = skipped })
          × (2 + skipped + count ≡ 9)
          × (suc count ≤ max 1 3)
          × ((skipped ≡ 0) ⊎ (suc count ≡ max 1 3)))
unfolding first_due
due_days_example = due_days_lem pocket_money 9 3

-- Nothing is granted yet: no key of the sample's rows is a day's key.
all_open : (day : ℕ) → find_by_key 1 (day_key day) sample.transactions.rows ≡ none
unfolding find_by_key
all_open day = refl

early : (date_of 5).year < 10000
unfolding date_of next_date
early = omega arith

-- The table with the three rows.
granted_three :
    (t' : Table PointTransaction) × (grant_days lima 40 pocket_money
        (days_from 2 3)
        (0, sample.transactions)
      ≡ ok (0 + 3, t'))
    × HasGranted lima 40 pocket_money sample.transactions t' 2 3
unfolding is_blank
granted_three =
    grant_days_moves lima 40 pocket_money (omega arith) (refl, omega arith) sample.transactions 2 3
      0 sample-IsValid early (λ k lo hi. all_open k)

grant_days_moves_example :
    (t' : Table PointTransaction) × (grant_days lima 40 pocket_money
        (days_from 2 3)
        (0, sample.transactions)
      ≡ ok (0 + 3, t'))
    × HasGranted lima 40 pocket_money sample.transactions t' 2 3
unfolding is_blank
grant_days_moves_example =
    grant_days_moves lima 40 pocket_money (omega arith) (refl, omega arith) sample.transactions 2 3
      0 sample-IsValid early (λ k lo hi. all_open k)

grant_days_again_example :
    grant_days lima 50 pocket_money (days_from 2 3) (0, granted_three.0)
    ≡ ok (0 + 3, granted_three.0)
grant_days_again_example =
    grant_days_again lima 50 pocket_money granted_three.0 2 3 0 granted_three.2.found

idempotency_key_for-injective_example : ◌≡◌ {A = ℕ} 5 5
idempotency_key_for-injective_example = idempotency_key_for-injective 5 5 early early refl

-- A whole run on the fourth day, for a bonus that begins on the third.
abbrev greenwich : TimeZone
greenwich = record { wall = λ t. t; utc = λ t. t }

abbrev with_bonus : Db
with_bonus = record sample { bonuses = record { rows = pocket_money ∷ []; next_id = 2 } }

abbrev bonus_row : ℕ → ℕ → Text → PointTransaction
bonus_row id day key = record {
  id = id;
  ledger_id = 1;
  amount = pos 5;
  reason = codes "daily";
  granted_by_membership_id = none;
  occurred_at = day * 86400000000;
  created_at = 259200000001;
  idempotency_key = key;
  reversal_of_id = none;
  corrects_id = none;
}

abbrev after_run : Db
after_run = record with_bonus {
  transactions = record {
    rows =
        bonus_row 4 3 (codes "daily-bonus#0001-01-04")
        ∷ bonus_row 3 2 (codes "daily-bonus#0001-01-03")
        ∷ sample.transactions.rows;
    next_id = 5;
  };
  bonuses = record { rows = record pocket_money { granted_through = some 3 } ∷ []; next_id = 2 };
}

ran :
    grant_due_bonuses greenwich 31 259200000001 with_bonus
    ≡ ok (record { granted = 2; skipped = 0 }, after_run)
unfolding grant_due_bonuses grant_all grant_bonus grant_days entry_for append append_unless
    insert_once violates_unique find_by_key idempotency_key point_amount transaction_reason is_blank
    list_due is_due due_days days_from first_due last_day mark_granted_through idempotency_key_for
    for_step date_of next_date isoformat sort_by place_by day_of starts_at is_leap days_in_month
ran = refl

grant_due_bonuses-settles_example :
    grant_due_bonuses greenwich 31 270000000000 after_run
    ≡ ok (record { granted = 0; skipped = 0 }, after_run)
unfolding day_of
grant_due_bonuses-settles_example =
    grant_due_bonuses-settles greenwich 31 259200000001 270000000000
      (record { granted = 2; skipped = 0 }) with_bonus after_run ran refl

-- ===== src/Days.antt =====
-- Days and their limits. A day is a number, counted from day 0, 0001-01-01; a point in time is
-- the number of microseconds from the start of day 0, in UTC without an offset.
-- bounded_contexts/reward_points/domain/services/day_boundary.py stands here, and what
-- entities/daily_bonus.py uses of Python's `date`: the calendar and `isoformat`.
pub mod Laws
use rewardpointsweb.Base.{
  ℕ, zero, suc, ◌+◌, ◌*◌, ◌/◌, ◌%◌, Bool, true, false, ◌&&◌, ◌||◌, not, ◌==◌, ltb, if◌then◌else◌,
  [], ◌∷◌, Text,
}

-- A date of the proleptic Gregorian calendar.
pub record Date : Type 0 where
  pub year : ℕ
  pub month : ℕ
  pub day : ℕ

unfoldable pub is_leap : ℕ → Bool
is_leap year = year % 4 == 0 && (not (year % 100 == 0) || year % 400 == 0)

unfoldable pub days_in_month : ℕ → ℕ → ℕ
unfolding is_leap
days_in_month year month =
    if month == 2
    then (if is_leap year then 29 else 28)
    else if month == 4 || month == 6 || month == 9 || month == 11
    then 30
    else 31

-- `date + timedelta(days=1)`
unfoldable pub next_date : Date → Date
unfolding days_in_month
next_date d =
    if ltb d.day (days_in_month d.year d.month)
    then record d { day = d.day + 1 }
    else if ltb d.month 12
    then record { year = d.year; month = d.month + 1; day = 1 }
    else record { year = d.year + 1; month = 1; day = 1 }

-- The date of a day number.
unfoldable pub date_of : ℕ → Date
unfolding next_date
date_of zero = record { year = 1; month = 1; day = 1 }
date_of (suc n) = next_date (date_of n)

abbrev pub digit : ℕ → ℕ
digit n = 48 + n % 10

-- `date.isoformat()`, "2026-08-09". Years have four digits: Python's dates end with 9999.
unfoldable pub isoformat : Date → Text
isoformat d =
    digit (d.year / 1000)
    ∷ digit (d.year / 100)
    ∷ digit (d.year / 10)
    ∷ digit d.year
    ∷ b'-'
    ∷ digit (d.month / 10)
    ∷ digit d.month
    ∷ b'-'
    ∷ digit (d.day / 10)
    ∷ digit d.day
    ∷ []

-- The time zone of `DayBoundary`, a `tzinfo` of Python: the wall clock's reading at a point in
-- time, and the point in time of a reading.
pub record TimeZone : Type 0 where
  pub wall : ℕ → ℕ
  pub utc : ℕ → ℕ

abbrev pub day_length : ℕ
day_length = 86400000000

-- `DayBoundary.day_of`
unfoldable pub day_of : TimeZone → ℕ → ℕ
day_of zone moment = zone.wall moment / day_length

-- `DayBoundary.starts_at`
unfoldable pub starts_at : TimeZone → ℕ → ℕ
starts_at zone day = zone.utc (day * day_length)

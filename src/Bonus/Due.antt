-- ===== src/Bonus/Due.antt =====
-- Which days are due.
use Prim.Native.Nat.{max}
use rewardpointsweb.Base.{
  ℕ, zero, suc, ◌+◌, ◌-◌, ◌≤◌, ◌<◌, ◌≡◌, refl, ◌⊎◌, false, [], length, some, not, ap, arith, ltb,
}
use rewardpointsweb.Entities.{DailyBonus}
use rewardpointsweb.Bonus.{DueDays, days_from, due_days, first_due, last_day, is_due}

pub length-days_from : (s n : ℕ) → length (days_from s n) ≡ n
unfolding days_from
length-days_from s zero = refl
length-days_from s (suc n) = omega (arith, length-days_from (s + 1) n)

pub last_day-days_from : (s n : ℕ) → last_day (days_from s (suc n)) ≡ some (s + n)
unfolding days_from last_day
last_day-days_from s zero = ground arith
last_day-days_from s (suc n) = ground (arith, last_day-days_from (s + 1) n)

-- A bonus is listed as due exactly when a day is due: its first day is not after today.
pub is_due-first_due : (today : ℕ) (b : DailyBonus) → is_due today b ≡ not (ltb today (first_due b))
unfolding is_due first_due
is_due-first_due today b = ground arith

abbrev due : ℕ → ℕ → ℕ → DueDays
due start skipped count = record { days = days_from start count; skipped = skipped }

-- No day is due before the first one. From then on the days that `due_days` gives are
-- consecutive and end with today, and with those that it skips they are all the days from the
-- first due one. At most `max 1 limit` are given, and some are skipped only if that many are.
pub due_days_lem :
    (b : DailyBonus) (today limit : ℕ)
    → (today < first_due b → due_days b today limit ≡ record { days = []; skipped = 0 })
      × (first_due b ≤ today
          → (skipped : ℕ) × (count : ℕ) × (due_days b today limit
              ≡ record { days = days_from (first_due b + skipped) (suc count); skipped = skipped })
            × (first_due b + skipped + count ≡ today)
            × (suc count ≤ max 1 limit)
            × ((skipped ≡ 0) ⊎ (suc count ≡ max 1 limit)))
unfolding due_days
due_days_lem b today limit = (
  λ h. ground arith,
  λ h.
      let total = today - first_due b + 1 in
      let skipped = total - max 1 limit in
      let count = total - skipped - 1 in
      let enough : total - skipped ≡ suc count = omega arith in
      let reached : ltb today (first_due b) ≡ false = ground arith in
      (
        skipped,
        count,
        rw reached (ap (due (first_due b + skipped) skipped) enough),
        omega arith,
        omega arith,
        omega arith,
      ),
)

-- ===== src/Bonus/Grant.antt =====
-- Granting the days that are due: once for each day, however often it is tried.
use mathlib.Core.Path.{subst}
use rewardpointsweb.Base.{
  ℕ, zero, suc, ◌+◌, ◌≤◌, ◌<◌, ◌≡◌, refl, sym, ◌==◌, if◌then◌else◌, none, some, Bool-cases, inl,
  inr, ◌∙◌, ==_eq, ℤ, pos, ◌+ℤ◌, +ℤ_zero, arith, int_laws, Text, text_eq-ne, is_blank,
}
use rewardpointsweb.Failure.{ok}
use rewardpointsweb.Values.{key_max_length, reason_max_length, step_key, is_derived}
use rewardpointsweb.Values.Laws.{
  IsText, IsAmount, for_step-ok, idempotency_key-ok, step_key-injective, IsText-step_key,
}
use rewardpointsweb.Entities.{PointTransaction, DailyBonus, Table}
use rewardpointsweb.Days.{date_of, isoformat, TimeZone, starts_at}
use rewardpointsweb.Days.Laws.{
  date_of-IsDate, date_of-injective, isoformat-injective, length-isoformat, year-date_of,
}
use rewardpointsweb.Ledger.{NewTransaction, append, find_by_key}
use rewardpointsweb.Ledger.History.{IsValid}
use rewardpointsweb.Ledger.Sum.{balance_in}
use rewardpointsweb.Ledger.Append.{
  added_row, added_table, append-fresh, append-replay, append-found, append-IsValid,
  violates_unique-fresh, find_by_key-added_ne, balance_in-added,
}
use rewardpointsweb.Ledger.Race.{append-keeps}
use rewardpointsweb.Bonus.{bonus_base, idempotency_key_for, days_from, entry_for, grant_days}

-- The key of a day, "daily-bonus#2026-08-09".
abbrev pub day_key : ℕ → Text
day_key day = step_key bonus_base (isoformat (date_of day))

-- Every day has a key: it is never refused.
pub idempotency_key_for-ok : (day : ℕ) → idempotency_key_for day ≡ ok (day_key day)
unfolding idempotency_key_for is_blank
idempotency_key_for-ok day = rw (idempotency_key-ok bonus_base (refl, omega arith)) (
    for_step-ok bonus_base (isoformat (date_of day)) (omega (arith, length-isoformat (date_of day)))
      (omega (arith, length-isoformat (date_of day))) (omega arith))

-- Days up to the year 9999 have different keys.
pub day_key-injective :
    (m n : ℕ) → (date_of m).year < 10000 → (date_of n).year < 10000 → day_key m ≡ day_key n → m ≡ n
unfolding is_derived
day_key-injective m n hm hn e =
    let (_, same) =
      step_key-injective bonus_base bonus_base (isoformat (date_of m)) (isoformat (date_of n)) refl
        refl e in
    date_of-injective m n
      (isoformat-injective (date_of m) (date_of n) (date_of-IsDate m) (date_of-IsDate n) hm hn same)

-- Days up to the year 9999 are granted under different keys: the same key is made for two days
-- only if they are one.
pub idempotency_key_for-injective :
    (m n : ℕ)
    → (date_of m).year < 10000
    → (date_of n).year < 10000
    → idempotency_key_for m ≡ idempotency_key_for n
    → m ≡ n
idempotency_key_for-injective m n hm hn e =
    let same : day_key m ≡ day_key n =
      ground (arith, sym (idempotency_key_for-ok m) ∙ e ∙ idempotency_key_for-ok n) in
    day_key-injective m n hm hn same

-- `n` times an amount.
abbrev pub times : ℕ → ℤ → ℤ
times zero a = pos 0
times (suc n) a = a +ℤ times n a

module _ (zone : TimeZone) (now : ℕ) (b : DailyBonus) where
  abbrev pub entry : ℕ → NewTransaction
  entry day = record {
    ledger_id = b.ledger_id;
    amount = b.amount;
    reason = b.reason;
    granted_by_membership_id = none;
    occurred_at = starts_at zone day;
    idempotency_key = day_key day;
    reversal_of_id = none;
    corrects_id = none;
  }

  pub entry_for-ok : (day : ℕ) → entry_for zone b day ≡ ok (entry day)
  unfolding entry_for
  entry_for-ok day = rw (idempotency_key_for-ok day)

  IsText-day_key : (day : ℕ) → IsText key_max_length (day_key day)
  IsText-day_key day =
      IsText-step_key bonus_base (isoformat (date_of day))
        (omega (arith, length-isoformat (date_of day))) (omega arith)

  -- The ledger has no row for the days from `day` on.
  abbrev pub IsOpen : Table PointTransaction → ℕ → ℕ → Type 0
  IsOpen t day count =
      (k : ℕ) → day ≤ k → k < day + count → find_by_key b.ledger_id (day_key k) t.rows ≡ none

  -- The ledger has a row for each of the days.
  abbrev pub IsGranted : Table PointTransaction → ℕ → ℕ → Type 0
  IsGranted t day count =
      (k : ℕ)
      → day ≤ k
      → k < day + count
      → (r : PointTransaction) × (find_by_key b.ledger_id (day_key k) t.rows ≡ some r)

  -- If the ledger has a row for each of the `count` days from `day` on, granting them succeeds,
  -- counts them and leaves the table as it is.
  pub grant_days_again :
      (t : Table PointTransaction) (day count granted : ℕ)
      → IsGranted t day count
      → grant_days zone now b (days_from day count) (granted, t) ≡ ok (granted + count, t)
  unfolding grant_days days_from
  grant_days_again t day zero granted h = ground arith
  grant_days_again t day (suc count) granted h =
      let (r, found) = h day (omega arith) (omega arith) in
      rw (entry_for-ok day) (
        rw (append-replay (entry day) now t r found (IsText-day_key day)) (
          rw
            (grant_days_again t (day + 1) count (granted + 1)
              (λ k lo hi. h k (omega arith) (omega arith)))
            (ground arith)))

  -- What granting `count` days from `day` on makes of a table.
  pub record HasGranted (t t' : Table PointTransaction) (day count : ℕ) : Type 0 where
    pub valid : IsValid t'
    pub balance :
        (l : ℕ)
        → balance_in l t'.rows ≡ (
            if b.ledger_id == l
            then times count b.amount +ℤ balance_in l t.rows
            else balance_in l t.rows)
    pub keeps :
        (l : ℕ) (key : Text) (r : PointTransaction)
        → find_by_key l key t.rows ≡ some r
        → find_by_key l key t'.rows ≡ some r
    pub found : IsGranted t' day count

  module _ (amount : IsAmount b.amount) (reason : IsText reason_max_length b.reason) where
    -- One open day.
    append-entry :
        (t : Table PointTransaction) (day : ℕ)
        → find_by_key b.ledger_id (day_key day) t.rows ≡ none
        → append (entry day) now t ≡ ok (added_row (entry day) now t, added_table (entry day) now t)
    append-entry t day open_day =
        append-fresh (entry day) now t open_day (IsText-day_key day) amount reason
          (violates_unique-fresh (entry day) now t open_day refl refl)

    -- The other days stay open.
    still-IsOpen :
        (t : Table PointTransaction) (day count : ℕ)
        → (date_of (day + suc count)).year < 10000
        → IsOpen t day (suc count)
        → IsOpen (added_table (entry day) now t) (day + 1) count
    still-IsOpen t day count in_range open_days k lo hi =
        find_by_key-added_ne (entry day) now t (day_key k) (open_days k (omega arith) (omega arith))
          (text_eq-ne (day_key day) (day_key k) (λ e. absurd (
            omega (
              arith,
              day_key-injective day k
                  (omega (arith, year-date_of day (day + suc count) (omega arith)))
                  (omega (arith, year-date_of k (day + suc count) (omega arith))) e,
            ))))

    add_times :
        (l day count : ℕ) (t : Table PointTransaction)
        → (if b.ledger_id == l
            then times count b.amount +ℤ balance_in l (added_table (entry day) now t).rows
            else balance_in l (added_table (entry day) now t).rows)
          ≡ (if b.ledger_id == l
              then times (suc count) b.amount +ℤ balance_in l t.rows
              else balance_in l t.rows)
    add_times l day count t =
        rw (balance_in-added (entry day) now t l) (elim (Bool-cases (b.ledger_id == l)) [
          | inl own ↦ rw own (omega int_laws)
          | inr other ↦ rw other
        ])

    -- One day more.
    HasGranted-next :
        (t t' : Table PointTransaction) (day count : ℕ)
        → append (entry day) now t ≡ ok (added_row (entry day) now t, added_table (entry day) now t)
        → HasGranted (added_table (entry day) now t) t' (day + 1) count
        → HasGranted t t' day (suc count)
    HasGranted-next t t' day count appended h = record {
      valid = h.valid;
      balance = λ l. h.balance l ∙ add_times l day count t;
      keeps = λ l key r found. h.keeps l key r (
          append-keeps (entry day) now t (added_table (entry day) now t)
            (added_row (entry day) now t) l key r appended found);
      found = λ k lo hi. elim (Bool-cases (k == day)) [
        | inl same ↦ (
          added_row (entry day) now t,
          h.keeps b.ledger_id (day_key k) (added_row (entry day) now t) (
              rw (==_eq k day same) (
                append-found (entry day) now t (added_row (entry day) now t)
                  (added_table (entry day) now t) appended)),
        )
        | inr later ↦ h.found k (ground arith) (omega arith)
      ];
    }

    -- For a bonus with an admissible amount and reason, on a well-formed table that has no row for
    -- the `count` days from `day` on, all of them up to the year 9999, granting these days succeeds
    -- and counts them; the balance of the bonus's ledger moves by the amount for each day and no
    -- other, each day has its row, what was found by a key is found still, and the table stays
    -- well-formed.
    pub grant_days_moves :
        (t : Table PointTransaction) (day count granted : ℕ)
        → IsValid t
        → (date_of (day + count)).year < 10000
        → IsOpen t day count
        → (t' : Table PointTransaction) × (grant_days zone now b (days_from day count) (granted, t)
            ≡ ok (granted + count, t'))
          × HasGranted t t' day count
    unfolding grant_days days_from
    grant_days_moves t day zero granted valid in_range open_days = (
      t,
      ground arith,
      record {
        valid = valid;
        balance = λ l. ground (arith, +ℤ_zero (balance_in l t.rows));
        keeps = λ l key r found. found;
        found = λ k lo hi. absurd (omega arith);
      },
    )
    grant_days_moves t day (suc count) granted valid in_range open_days =
        let u = added_table (entry day) now t in
        let appended = append-entry t day (open_days day (omega arith) (omega arith)) in
        let valid' =
          append-IsValid (entry day) now t (added_row (entry day) now t) u appended valid tt tt in
        let (t', ran, h) =
          grant_days_moves u (day + 1) count (granted + 1) valid'
            (subst (λ n. (date_of n).year < 10000) (omega arith) in_range)
            (still-IsOpen t day count in_range open_days) in
        (
          t',
          rw (entry_for-ok day) (rw appended (rw ran (ground arith))),
          HasGranted-next t t' day count appended h,
        )

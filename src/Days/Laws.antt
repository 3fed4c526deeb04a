-- ===== src/Days/Laws.antt =====
-- Different days are written differently.
use rewardpointsweb.Base.{
  ℕ, zero, suc, ◌+◌, ◌*◌, ◌≤◌, ◌<◌, ◌≡◌, refl, arith, ap, length, Text, [], ◌∷◌, inl, inr,
  Bool-cases, ltb, ltb→lt,
}
use rewardpointsweb.Days.{Date, days_in_month, next_date, date_of, isoformat}

-- A date within the fields' ranges.
pub record IsDate (d : Date) : Type 0 where
  pub month_pos : 1 ≤ d.month
  pub month_le : d.month ≤ 12
  pub day_pos : 1 ≤ d.day
  pub day_le : d.day ≤ 31

-- A number that grows with the date.
abbrev rank : Date → ℕ
rank d = d.year * 10000 + d.month * 100 + d.day

days_in_month-le : (y m : ℕ) → days_in_month y m ≤ 31
unfolding days_in_month
days_in_month-le y m = ground arith

next_date-IsDate : (d : Date) → IsDate d → IsDate (next_date d)
unfolding next_date
next_date-IsDate d h = ground (arith, days_in_month-le d.year d.month)

rank-next_date : (d : Date) → IsDate d → rank d < rank (next_date d)
unfolding next_date
rank-next_date d h = ground arith

pub date_of-IsDate : (n : ℕ) → IsDate (date_of n)
unfolding date_of
date_of-IsDate zero = omega arith
date_of-IsDate (suc n) = next_date-IsDate (date_of n) (date_of-IsDate n)

-- Later days have greater ranks.
rank-date_of : (m n : ℕ) → m < n → rank (date_of m) < rank (date_of n)
unfolding date_of
rank-date_of m zero h = absurd (omega arith)
rank-date_of m (suc n) h = elim (Bool-cases (ltb m n)) [
  | inl less ↦
      omega
        (arith, rank-date_of m n (ltb→lt m n less), rank-next_date (date_of n) (date_of-IsDate n))
  | inr last ↦
      let same : m ≡ n = ground arith in rw same (rank-next_date (date_of n) (date_of-IsDate n))
]

pub date_of-injective : (m n : ℕ) → date_of m ≡ date_of n → m ≡ n
date_of-injective m n e = ground (
  arith,
  rank-date_of m n,
  rank-date_of n m,
  ap (λ (d : Date). d.year) e,
  ap (λ (d : Date). d.month) e,
  ap (λ (d : Date). d.day) e,
)

-- The character at a place.
abbrev nth : ℕ → Text → ℕ
nth i [] = 0
nth zero (c ∷ s) = c
nth (suc i) (c ∷ s) = nth i s

-- Dates up to the year 9999 are told apart by their text.
pub isoformat-injective :
    (a b : Date)
    → IsDate a
    → IsDate b
    → a.year < 10000
    → b.year < 10000
    → isoformat a ≡ isoformat b
    → a ≡ b
unfolding isoformat
isoformat-injective a b ha hb ya yb e =
    let year : a.year ≡ b.year =
      omega (arith, ap (nth 0) e, ap (nth 1) e, ap (nth 2) e, ap (nth 3) e) in
    let month : a.month ≡ b.month =
      omega (arith, ap (nth 5) e, ap (nth 6) e, ha.month_le, hb.month_le) in
    let day : a.day ≡ b.day = omega (arith, ap (nth 8) e, ap (nth 9) e, ha.day_le, hb.day_le) in
    ground arith

pub length-isoformat : (d : Date) → length (isoformat d) ≡ 10
unfolding isoformat
length-isoformat d = refl

-- Years do not go back.
pub year-date_of : (m n : ℕ) → m ≤ n → (date_of m).year ≤ (date_of n).year
year-date_of m n h = elim (Bool-cases (ltb m n)) [
  | inl less ↦
      let a = date_of-IsDate m in
      let b = date_of-IsDate n in
      omega (arith, rank-date_of m n (ltb→lt m n less), a.month_le, a.day_le, b.month_le, b.day_le)
  | inr last ↦ let same : m ≡ n = ground arith in rw same (omega arith)
]

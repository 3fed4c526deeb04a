-- ===== src/Bonus/Settled.antt =====
-- A run that grants every bonus that is due leaves none due on that day.
use rewardpointsweb.Base.{
  ℕ, ◌+◌, ◌≡◌, refl, sym, ◌∙◌, ap, Bool, true, false, ◌==◌, ==_refl, if◌then◌else◌, some, List, [],
  ◌∷◌, All, select, exists, place_by, sort_by, inl, inr, Bool-cases, arith,
}
use rewardpointsweb.Failure.{ok, succeeds-steps}
use rewardpointsweb.Entities.{DailyBonus, Db}
use rewardpointsweb.Days.{TimeZone, day_of}
use rewardpointsweb.Bonus.{
  is_due, list_due, due_days, first_due, last_day, mark_granted_through, mark_last, Granted,
  grant_days, grant_bonus, grant_all, grant_due_bonuses,
}
use rewardpointsweb.Bonus.Due.{due_days_lem, is_due-first_due, last_day-days_from}

-- One row, when the bonus `id` is marked.
abbrev mark_row : ℕ → ℕ → DailyBonus → DailyBonus
mark_row today id b = if b.id == id then record b { granted_through = some today } else b

abbrev marks_row : ℕ → List DailyBonus → DailyBonus → DailyBonus
marks_row today [] r = r
marks_row today (b ∷ due) r = marks_row today due (mark_row today b.id r)

abbrev marks : ℕ → List DailyBonus → List DailyBonus → List DailyBonus
marks today [] rows = rows
marks today (b ∷ due) rows = marks today due (mark_granted_through b.id today rows)

marks-nil : (today : ℕ) (due : List DailyBonus) → marks today due [] ≡ []
unfolding mark_granted_through
marks-nil today [] = refl
marks-nil today (b ∷ due) = marks-nil today due

marks-cons :
    (today : ℕ) (due : List DailyBonus) (r : DailyBonus) (rows : List DailyBonus)
    → marks today due (r ∷ rows) ≡ marks_row today due r ∷ marks today due rows
unfolding mark_granted_through
marks-cons today [] r rows = refl
marks-cons today (b ∷ due) r rows =
    marks-cons today due (mark_row today b.id r) (mark_granted_through b.id today rows)

-- A marked bonus is not due, and one that is not due stays so.
marks_row-settled :
    (today : ℕ) (due : List DailyBonus) (r : DailyBonus)
    → is_due today r ≡ false
    → is_due today (marks_row today due r) ≡ false
unfolding is_due
marks_row-settled today [] r h = h
marks_row-settled today (b ∷ due) r h = elim (Bool-cases (r.id == b.id)) [
  | inl hit ↦ marks_row-settled today due (mark_row today b.id r) (rw hit (ground arith))
  | inr miss ↦ marks_row-settled today due (mark_row today b.id r) (rw miss h)
]

marks_row-marked :
    (today : ℕ) (due : List DailyBonus) (r : DailyBonus)
    → exists (λ b. b.id == r.id) due ≡ true
    → is_due today (marks_row today due r) ≡ false
unfolding is_due
marks_row-marked today [] r h = cc
marks_row-marked today (b ∷ due) r h = elim (Bool-cases (r.id == b.id)) [
  | inl hit ↦ marks_row-settled today due (mark_row today b.id r) (rw hit (ground arith))
  | inr miss ↦ rw miss (marks_row-marked today due r (ground arith))
]

-- If every row that is due is among the marked, none is due afterwards.
none_due :
    (today : ℕ) (due rows : List DailyBonus)
    → ((k : ℕ)
        → exists (λ b. b.id == k) (select (is_due today) rows) ≡ true
        → exists (λ b. b.id == k) due ≡ true)
    → select (is_due today) (marks today due rows) ≡ []
none_due today due [] covered = rw (marks-nil today due) refl
none_due today due (r ∷ rows) covered =
    let settled : is_due today (marks_row today due r) ≡ false =
      elim (Bool-cases (is_due today r)) [
        | inl now_due ↦
            marks_row-marked today due r (covered r.id (rw now_due (rw (==_refl r.id) refl)))
        | inr idle ↦ marks_row-settled today due r idle
      ] in
    rw (marks-cons today due r rows)
      (rw settled (none_due today due rows (λ k h. covered k (ground arith))))

exists-place_by :
    (p : DailyBonus → Bool) (b : DailyBonus) (rows : List DailyBonus)
    → exists p (place_by (λ x. x.id) b rows) ≡ (if p b then true else exists p rows)
unfolding place_by
exists-place_by p b [] = refl
exists-place_by p b (x ∷ rows) = ground (arith, exists-place_by p b rows)

exists-sort_by :
    (p : DailyBonus → Bool) (rows : List DailyBonus)
    → exists p (sort_by (λ x. x.id) rows) ≡ exists p rows
unfolding sort_by
exists-sort_by p [] = refl
exists-sort_by p (x ∷ rows) =
    exists-place_by p x (sort_by (λ b. b.id) rows)
    ∙ ap (λ found. if p x then true else found) (exists-sort_by p rows)

-- A round for a bonus that is due marks it through today.
grant_bonus-marks :
    (zone : TimeZone) (limit now today : ℕ) (b : DailyBonus) (counts counts' : Granted)
    (db db' : Db)
    → is_due today b ≡ true
    → grant_bonus zone limit now today b (counts, db) ≡ ok (counts', db')
    → db'.bonuses.rows ≡ mark_granted_through b.id today db.bonuses.rows
unfolding grant_bonus
grant_bonus-marks zone limit now today b counts counts' db db' is h =
    let (skipped, count, days, reach, _, _) =
      (due_days_lem b today limit).1 (ground (arith, is_due-first_due today b)) in
    let last : last_day (due_days b today limit).days ≡ some today =
      rw days (last_day-days_from (first_due b + skipped) count ∙ ap some reach) in
    let ((granted, t), rest, _) =
      succeeds-steps _
        (grant_days zone now b (due_days b today limit).days (counts.granted, db.transactions)) h in
    let marked : mark_last (last_day (due_days b today limit).days) b.id
          (record db { transactions = t })
        ≡ db' =
      ground arith in
    sym (ap (λ (d : Db). d.bonuses.rows) marked) ∙ rw last refl

grant_all-marks :
    (zone : TimeZone) (limit now today : ℕ) (due : List DailyBonus) (counts counts' : Granted)
    (db db' : Db)
    → All (λ b. is_due today b ≡ true) due
    → grant_all zone limit now today due (counts, db) ≡ ok (counts', db')
    → db'.bonuses.rows ≡ marks today due db.bonuses.rows
unfolding grant_all
grant_all-marks zone limit now today [] counts counts' db db' all h = ground arith
grant_all-marks zone limit now today (b ∷ due) counts counts' db db' all h =
    let ((between, mid), rest, round) =
      succeeds-steps _ (grant_bonus zone limit now today b (counts, db)) h in
    grant_all-marks zone limit now today due between counts' mid db' all.1 rest
    ∙ ap (marks today due)
        (grant_bonus-marks zone limit now today b counts between db mid all.0 round)

All-place_by :
    (today : ℕ) (b : DailyBonus) (rows : List DailyBonus)
    → is_due today b ≡ true
    → All (λ x. is_due today x ≡ true) rows
    → All (λ x. is_due today x ≡ true) (place_by (λ x. x.id) b rows)
unfolding place_by
All-place_by today b [] h all = (h, tt)
All-place_by today b (x ∷ rows) h all = ground (arith, All-place_by today b rows h all.1)

All-list_due :
    (today : ℕ) (rows : List DailyBonus)
    → All (λ b. is_due today b ≡ true) (sort_by (λ b. b.id) (select (is_due today) rows))
unfolding sort_by
All-list_due today [] = tt
All-list_due today (r ∷ rows) = elim (Bool-cases (is_due today r)) [
  | inl now_due ↦ rw now_due (
      All-place_by today r (sort_by (λ b. b.id) (select (is_due today) rows)) now_due
        (All-list_due today rows))
  | inr idle ↦ rw idle (All-list_due today rows)
]

-- After a run of the granting has succeeded, a second run later on the same day finds no bonus due:
-- it grants and skips nothing and changes nothing.
pub grant_due_bonuses-settles :
    (zone : TimeZone) (limit now later : ℕ) (counts : Granted) (db db' : Db)
    → grant_due_bonuses zone limit now db ≡ ok (counts, db')
    → day_of zone later ≡ day_of zone now
    → grant_due_bonuses zone limit later db' ≡ ok (record { granted = 0; skipped = 0 }, db')
unfolding grant_due_bonuses list_due grant_all sort_by
grant_due_bonuses-settles zone limit now later counts db db' h same_day =
    let today = day_of zone now in
    let due = sort_by (λ b. b.id) (select (is_due today) db.bonuses.rows) in
    let marked =
      grant_all-marks zone limit now today due (record { granted = 0; skipped = 0 }) counts db db'
        (All-list_due today db.bonuses.rows) h in
    let settled = none_due today due db.bonuses.rows (λ k found.
      exists-sort_by (λ b. b.id == k) (select (is_due today) db.bonuses.rows) ∙ found) in
    rw same_day (rw marked (rw settled refl))

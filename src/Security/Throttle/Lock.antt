-- ===== src/Security/Throttle/Lock.antt =====
-- What the throttle promises: how many guesses a window allows, and how long a lock lasts.
use rewardpointsweb.Base.{
  ℕ, ◌≤◌, ◌<◌, ◌+◌, ◌-◌, ◌*◌, ◌≡◌, refl, sym, ◌∙◌, inl, inr, Bool, true, not, ◌&&◌, ltb, leb,
  if◌then◌else◌, none, some, List, [], ◌∷◌, Bool-cases, arith, Text, is_some, text_eq_refl,
}
use rewardpointsweb.Failure.{ok, err, too_many_attempts, is_err}
use rewardpointsweb.Security.Throttle.{
  ThrottlePolicy, LoginAttempts, retry_after, is_over, after_failure, counted, enabled, is_for, get,
  save, sweep, require_allowed, record_attempt, normalize_identifier, wait_seconds,
}
use rewardpointsweb.Security.Throttle.Table.{get-put, get-keyed}

-- A row finds itself.
is_for-keys :
    (p i : Text) (a : LoginAttempts) → a.purpose ≡ p → a.identifier ≡ i → is_for p i a ≡ true
unfolding is_for
is_for-keys p i a h k = rw (h, k, text_eq_refl p, text_eq_refl i) refl

after_failure-key :
    (a : LoginAttempts) (now : ℕ) (p : ThrottlePolicy)
    → ((after_failure a now p).purpose ≡ a.purpose)
      × ((after_failure a now p).identifier ≡ a.identifier)
unfolding after_failure
after_failure-key a now p = ground arith

-- What is found after a failure was written.
get-save :
    (p i : Text) (now : ℕ) (pol : ThrottlePolicy) (rows : List LoginAttempts)
    → get p i (save (after_failure (get p i rows) now pol) now pol rows)
      ≡ after_failure (get p i rows) now pol
unfolding save
get-save p i now pol rows =
    let a = get p i rows in
    let (purpose, identifier) = get-keyed p i rows in
    let (kept, same) = after_failure-key a now pol in
    let found = is_for-keys p i (after_failure a now pol) (ground arith) (ground arith) in
    rw (get-put p i (after_failure a now pol) (sweep now pol rows), found) refl

after_failure-lock :
    (a : LoginAttempts) (now later : ℕ) (p : ThrottlePolicy)
    → is_some (after_failure a now p).locked_until ≡ true
    → retry_after (after_failure a now p) later
      ≡ (if ltb later (now + p.lock_duration) then some (now + p.lock_duration - later) else none)
unfolding after_failure retry_after
after_failure-lock a now later p h = ground arith

-- When a failed login has started a lock, then under every spelling of the name that the
-- normalization takes for the same, a login is refused until the lock's time has passed, with the
-- seconds that are left, and from then on it is let pass.
pub require_allowed-record_attempt :
    (lower : Text → Text) (pol : ThrottlePolicy) (purpose name spelled : Text) (now later : ℕ)
    (rows : List LoginAttempts)
    → (record_attempt lower pol purpose name now rows).0 ≡ true
    → normalize_identifier lower spelled ≡ normalize_identifier lower name
    → require_allowed lower pol purpose spelled later
        (record_attempt lower pol purpose name now rows).1
      ≡ (if ltb later (now + pol.lock_duration)
          then err (too_many_attempts (wait_seconds (now + pol.lock_duration - later)))
          else ok tt)
unfolding require_allowed record_attempt
require_allowed-record_attempt lower pol purpose name spelled now later rows h same =
    let i = normalize_identifier lower name in
    ground (
      arith,
      same,
      get-save purpose i now pol rows,
      after_failure-lock (get purpose i rows) now later pol,
    )

-- Failed logins at these times, while `require_allowed` lets each of them pass.
abbrev pub guessed :
    (Text → Text) → ThrottlePolicy → Text → Text → List ℕ → List LoginAttempts → Bool
guessed lower pol purpose name [] rows = true
guessed lower pol purpose name (now ∷ times) rows =
    not (is_err (require_allowed lower pol purpose name now rows))
    && guessed lower pol purpose name times (record_attempt lower pol purpose name now rows).1

-- Each time is in the window that starts then.
abbrev pub Within : ℕ → ThrottlePolicy → List ℕ → Type 0
Within started p [] = Unit
Within started p (now ∷ times) =
    (started ≤ now) × ((now < started + p.window) × Within started p times)

abbrev pub count : List ℕ → ℕ
count [] = 0
count (now ∷ times) = count times + 1

-- The same for the row.
abbrev passed : List ℕ → ThrottlePolicy → LoginAttempts → Bool
passed [] p a = true
passed (now ∷ times) p a =
    not (is_some (retry_after a now)) && passed times p (after_failure a now p)

guessed-passed :
    (lower : Text → Text) (pol : ThrottlePolicy) (purpose name : Text) (times : List ℕ)
    (rows : List LoginAttempts)
    → enabled pol ≡ true
    → guessed lower pol purpose name times rows
      ≡ passed times pol (get purpose (normalize_identifier lower name) rows)
unfolding require_allowed record_attempt
guessed-passed lower pol purpose name [] rows on = refl
guessed-passed lower pol purpose name (now ∷ times) rows on =
    let i = normalize_identifier lower name in
    let row = after_failure (get purpose i rows) now pol in
    ground (
      arith,
      get-save purpose i now pol rows,
      guessed-passed lower pol purpose name times (save row now pol rows) on,
    )

-- In a window, a failure adds one, and locks from the limit on.
after_failure-next :
    (a : LoginAttempts) (started now : ℕ) (p : ThrottlePolicy)
    → a.window_started_at ≡ some started
    → now < started + p.window
    → after_failure a now p ≡ counted a (a.failures + 1) started now p
unfolding after_failure
after_failure-next a started now p h lt = ground arith

-- Once locked, each further guess waits for the lock before it.
passed-locked :
    (times : List ℕ) (p : ThrottlePolicy) (a : LoginAttempts) (started until : ℕ)
    → a.window_started_at ≡ some started
    → a.locked_until ≡ some until
    → p.max_failures ≤ a.failures
    → Within started p times
    → passed times p a ≡ true
    → until < started + p.window + p.lock_duration
    → until + count times * p.lock_duration < started + p.window + p.lock_duration
unfolding retry_after
passed-locked [] p a started until s l f w h u = ground arith
passed-locked (now ∷ times) p a started until s l f w h u =
    let next = after_failure-next a started now p s w.1.0 in
    let waited : until ≤ now = ground arith in
    let rest =
      passed-locked times p (counted a (a.failures + 1) started now p) started
        (now + p.lock_duration) refl (ground arith) (ground arith) w.1.1 (ground (arith, next))
        (ground arith) in
    ground arith

-- Until then, guesses count up to the limit.
passed-open :
    (times : List ℕ) (p : ThrottlePolicy) (a : LoginAttempts) (started : ℕ)
    → a.window_started_at ≡ some started
    → a.failures < p.max_failures
    → 0 < p.window
    → Within started p times
    → passed times p a ≡ true
    → (a.failures + count times - p.max_failures) * p.lock_duration < p.window
unfolding retry_after
passed-open [] p a started s f w0 w h =
    let none_over : a.failures + 0 - p.max_failures ≡ 0 = omega arith in rw none_over (omega arith)
passed-open (now ∷ times) p a started s f w0 w h =
    let next = after_failure-next a started now p s w.1.0 in
    elim (Bool-cases (leb p.max_failures (a.failures + 1))) [
      | inl full ↦
          let rest =
            passed-locked times p (counted a (a.failures + 1) started now p) started
              (now + p.lock_duration) refl (ground arith) (ground arith) w.1.1
              (ground (arith, next)) (ground arith) in
          let over : a.failures + (count times + 1) - p.max_failures ≡ count times = ground arith in
          rw over (ground arith)
      | inr room ↦
          let rest =
            passed-open times p (counted a (a.failures + 1) started now p) started refl
              (ground arith) w0 w.1.1 (ground (arith, next)) in
          let same : a.failures + (count times + 1) ≡ a.failures + 1 + count times = omega arith in
          rw same rest
    ]

after_failure-first :
    (a : LoginAttempts) (now : ℕ) (p : ThrottlePolicy)
    → is_over a.window_started_at now p ≡ true
    → after_failure a now p ≡ counted a 1 now now p
unfolding after_failure
after_failure-first a now p h = rw h refl

-- A product below its factor is none of it.
below_one : (n limit l w : ℕ) → w ≤ l → (n - limit) * l < w → n ≤ limit
below_one n limit l w long h = elim (Bool-cases (leb n limit)) [
  | inl le ↦ ground arith
  | inr gt ↦
      let more : n - limit ≡ n - (limit + 1) + 1 = ground arith in
      let covers : (n - limit) * l ≡ (n - (limit + 1)) * l + l = rw more (omega arith) in
      absurd (omega arith)
]

-- Guesses at a name whose window starts with the first of them: while all of them are let pass,
-- those over the limit, times the length of a lock, fit in one window.
pub guessed_bound :
    (lower : Text → Text) (pol : ThrottlePolicy) (purpose name : Text) (start : ℕ) (times : List ℕ)
    (rows : List LoginAttempts)
    → enabled pol ≡ true
    → is_over (get purpose (normalize_identifier lower name) rows).window_started_at start pol
      ≡ true
    → Within start pol (start ∷ times)
    → guessed lower pol purpose name (start ∷ times) rows ≡ true
    → (count (start ∷ times) - pol.max_failures) * pol.lock_duration < pol.window
guessed_bound lower pol purpose name start times rows on over w h =
    let a = get purpose (normalize_identifier lower name) rows in
    let first_guess = after_failure-first a start pol over in
    let all : passed (start ∷ times) pol a ≡ true =
      sym (guessed-passed lower pol purpose name (start ∷ times) rows on) ∙ h in
    elim (Bool-cases (leb pol.max_failures 1)) [
      | inl single ↦
          let rest =
            passed-locked times pol (counted a 1 start start pol) start (start + pol.lock_duration)
              refl (ground arith) (ground arith) w.1.1 (ground (arith, first_guess))
              (ground arith) in
          let over : count times + 1 - pol.max_failures ≡ count times = ground arith in
          rw over (ground arith)
      | inr several ↦
          let rest =
            passed-open times pol (counted a 1 start start pol) start refl (ground arith)
              (ground arith) w.1.1 (ground (arith, first_guess)) in
          let same : count times + 1 ≡ 1 + count times = omega arith in rw same rest
    ]

-- Under a policy whose lock is at least as long as its window, no more guesses at a name are let
-- pass in the window that starts with the first of them than the policy's number of failures.
pub guessed_limit :
    (lower : Text → Text) (pol : ThrottlePolicy) (purpose name : Text) (start : ℕ) (times : List ℕ)
    (rows : List LoginAttempts)
    → enabled pol ≡ true
    → pol.window ≤ pol.lock_duration
    → is_over (get purpose (normalize_identifier lower name) rows).window_started_at start pol
      ≡ true
    → Within start pol (start ∷ times)
    → guessed lower pol purpose name (start ∷ times) rows ≡ true
    → count (start ∷ times) ≤ pol.max_failures
guessed_limit lower pol purpose name start times rows on long over w h =
    below_one (count (start ∷ times)) pol.max_failures pol.lock_duration pol.window long
      (guessed_bound lower pol purpose name start times rows on over w h)

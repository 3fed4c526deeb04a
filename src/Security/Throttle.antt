-- ===== src/Security/Throttle.antt =====
-- Counting failed logins for each name that was sent: domain/entities/login_attempts.py,
-- application/use_cases/throttle_login.py and infrastructure/sql_login_attempt_repository.py of
-- bounded_contexts/account_security. Each operation of the repository commits by itself, so an
-- operation returns the new table whatever the request ends with. `lower` is `str.lower`.
pub mod Table
pub mod Sweep
pub mod Lock
use Prim.Native.Nat.{max}
use rewardpointsweb.Base.{
  ℕ, ◌+◌, ◌-◌, ◌/◌, Bool, true, false, ◌&&◌, ◌||◌, not, ltb, leb, if◌then◌else◌, is_some, Option,
  none, some, List, [], ◌∷◌, first, delete_where, Text, text_eq, strip,
}
use rewardpointsweb.Failure.{Result, ok, err, too_many_attempts}

-- `ThrottlePolicy`
pub record ThrottlePolicy : Type 0 where
  pub max_failures : ℕ
  pub window : ℕ
  pub lock_duration : ℕ

-- `ThrottlePolicy.enabled`
abbrev pub enabled : ThrottlePolicy → Bool
enabled p = ltb 0 p.max_failures

-- `LoginAttempts`, and the row of `login_attempts` with the key (purpose, identifier).
pub record LoginAttempts : Type 0 where
  pub purpose : Text
  pub identifier : Text
  pub failures : ℕ
  pub window_started_at : Option ℕ
  pub locked_until : Option ℕ

-- `LoginAttempts(purpose=…, identifier=…)`
abbrev pub no_attempts : Text → Text → LoginAttempts
no_attempts purpose identifier = record {
  purpose = purpose;
  identifier = identifier;
  failures = 0;
  window_started_at = none;
  locked_until = none;
}

-- `LoginAttempts.retry_after`
unfoldable pub retry_after : LoginAttempts → ℕ → Option ℕ
retry_after a now = elim a.locked_until [
  | none ↦ none
  | some until ↦ if leb until now then none else some (until - now)
]

-- Whether a window that started then is over: `now - started >= window`.
abbrev pub is_over : Option ℕ → ℕ → ThrottlePolicy → Bool
is_over none now p = true
is_over (some started) now p = leb (started + p.window) now

-- `self.window_started_at`, inside a window.
abbrev pub started_at : Option ℕ → ℕ → ℕ
started_at none now = now
started_at (some started) now = started

-- The row after a failure that is the window's number `failures`.
abbrev pub counted : LoginAttempts → ℕ → ℕ → ℕ → ThrottlePolicy → LoginAttempts
counted a failures started now p = record a {
  failures = failures;
  window_started_at = some started;
  locked_until = if leb p.max_failures failures then some (now + p.lock_duration) else none;
}

-- `LoginAttempts.after_failure`
unfoldable pub after_failure : LoginAttempts → ℕ → ThrottlePolicy → LoginAttempts
after_failure a now p =
    if is_over a.window_started_at now p
    then counted a 1 now now p
    else counted a (a.failures + 1) (started_at a.window_started_at now) now p

-- `LoginAttempts.is_stale`
unfoldable pub is_stale : LoginAttempts → ℕ → ThrottlePolicy → Bool
unfolding retry_after
is_stale a now p = if is_some (retry_after a now) then false else is_over a.window_started_at now p

-- The primary key.
unfoldable pub is_for : Text → Text → LoginAttempts → Bool
is_for purpose identifier a = text_eq a.purpose purpose && text_eq a.identifier identifier

-- `get`
unfoldable pub get : Text → Text → List LoginAttempts → LoginAttempts
unfolding is_for
get purpose identifier rows = elim (first (is_for purpose identifier) rows) [
  | none ↦ no_attempts purpose identifier
  | some a ↦ a
]

-- `locked_until` is null or not after `now`.
abbrev pub lock_is_over : Option ℕ → ℕ → Bool
lock_is_over none now = true
lock_is_over (some until) now = leb until now

-- `_sweep`
unfoldable pub sweep : ℕ → ThrottlePolicy → List LoginAttempts → List LoginAttempts
sweep now p rows =
    delete_where (λ a. lock_is_over a.locked_until now && is_over a.window_started_at now p) rows

-- The row with the key of `a` becomes `a`, or `a` is added.
unfoldable pub put : LoginAttempts → List LoginAttempts → List LoginAttempts
unfolding is_for
put a [] = a ∷ []
put a (x ∷ rows) = if is_for a.purpose a.identifier x then a ∷ rows else x ∷ put a rows

-- `save`
unfoldable pub save : LoginAttempts → ℕ → ThrottlePolicy → List LoginAttempts → List LoginAttempts
save a now p rows = put a (sweep now p rows)

-- `forget`
unfoldable pub forget : Text → Text → List LoginAttempts → List LoginAttempts
forget purpose identifier rows = delete_where (is_for purpose identifier) rows

-- `normalize_identifier`
unfoldable pub normalize_identifier : (Text → Text) → Text → Text
normalize_identifier lower identifier = lower (strip identifier)

-- `max(int(retry_after.total_seconds()), 1)`
unfoldable pub wait_seconds : ℕ → ℕ
wait_seconds retry = max (retry / 1000000) 1

-- `ThrottleLogin.require_allowed`
unfoldable pub require_allowed :
    (Text → Text) → ThrottlePolicy → Text → Text → ℕ → List LoginAttempts → Result (Unit {0})
require_allowed lower p purpose identifier now rows =
    if not (enabled p)
    then ok tt
    else elim (retry_after (get purpose (normalize_identifier lower identifier) rows) now) [
      | none ↦ ok tt
      | some retry ↦ err (too_many_attempts (wait_seconds retry))
    ]

-- `ThrottleLogin.record_attempt`: whether this attempt starts a lock, and the table.
unfoldable pub record_attempt :
    (Text → Text)
    → ThrottlePolicy
    → Text
    → Text
    → ℕ
    → List LoginAttempts
    → Bool × List LoginAttempts
record_attempt lower p purpose identifier now rows =
    if not (enabled p)
    then (false, rows)
    else let before = get purpose (normalize_identifier lower identifier) rows in
      let after = after_failure before now p in
      (is_some after.locked_until && not (is_some (retry_after before now)), save after now p rows)

-- `ThrottleLogin.record_success`
unfoldable pub record_success :
    (Text → Text) → ThrottlePolicy → Text → Text → List LoginAttempts → List LoginAttempts
record_success lower p purpose identifier rows =
    if not (enabled p) then rows else forget purpose (normalize_identifier lower identifier) rows

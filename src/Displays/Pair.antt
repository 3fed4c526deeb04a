-- ===== src/Displays/Pair.antt =====
-- The use cases of bounded_contexts/display_devices: application/use_cases/pair_display.py and
-- open_display_session.py.
use rewardpointsweb.Base.{
  ℕ, suc, zero, ◌+◌, ◌-◌, ◌/◌, not, ◌||◌, ltb, if◌then◌else◌, none, some, List, Text, delete_where,
  holds,
}
use rewardpointsweb.Failure.{
  Result, ok, err, ◌>>◌, ◌>>=◌, raise_if, or_raise, pairing_not_found, pairing_expired,
  authorization_pending, expired_token, invalid_device_credential, device_credential_expired,
  no_free_pairing_code,
}
use rewardpointsweb.Displays.{
  Codes, pairing_ttl, pairing_retention, credential_idle_limit, poll_interval_seconds,
  format_user_code, normalize_user_code, DisplayPairing, is_expired, is_claimed, is_approved,
  can_be_approved, DisplayCredential, Displays, find_by_user_code, find_by_device_code,
  is_user_code_in_use, add, mark_approved, mark_claimed, delete_expired_before, replace,
  find_by_hash, touch, delete,
}

-- `StartedPairing`
pub record StartedPairing : Type 0 where
  pub user_code : Text
  pub device_code : Text
  pub expires_in : ℕ
  pub interval : ℕ

-- `_USER_CODE_ATTEMPTS`
abbrev pub user_code_attempts : ℕ
user_code_attempts = 5

-- `_fresh_user_code`: what `new_user_code` gives at each attempt, and the attempts that are left.
unfoldable pub fresh_user_code : Codes → ℕ → (ℕ → Text) → List DisplayPairing → Result Text
fresh_user_code lib zero drawn rows = err no_free_pairing_code
fresh_user_code lib (suc n) drawn rows =
    let rest = fresh_user_code lib n (λ k. drawn (suc k)) rows in
    if not (is_user_code_in_use (lib.sha256 (drawn 0)) rows) then ok (drawn 0) else rest

-- `StartPairingUseCase.execute`
unfoldable pub start_pairing :
    Codes → (ℕ → Text) → Text → ℕ → Displays → Result (StartedPairing × Displays)
unfolding fresh_user_code
start_pairing lib drawn device_code now db =
    let swept = delete_expired_before (now - pairing_retention) db.pairings in
    do
      user_code ← fresh_user_code lib user_code_attempts drawn swept.rows
      pairings ← add (lib.sha256 user_code) (lib.sha256 device_code) (now + pairing_ttl) now swept
      ok (
        record {
          user_code = format_user_code user_code;
          device_code = device_code;
          expires_in = pairing_ttl / 1000000;
          interval = poll_interval_seconds;
        },
        record db { pairings = pairings },
      )

-- `ApprovePairingUseCase._approvable`
unfoldable pub approvable : Codes → Text → ℕ → List DisplayPairing → Result DisplayPairing
approvable lib user_code now rows = do
  normalized ← or_raise (normalize_user_code lib user_code) pairing_not_found
  pairing ← or_raise (find_by_user_code (lib.sha256 normalized) rows) pairing_not_found
  raise_if (is_approved pairing || is_claimed pairing) pairing_not_found
  raise_if (not (can_be_approved pairing now)) pairing_expired
  ok pairing

-- `ApprovePairingUseCase.execute`: `enroll` changes the state of reward_points.
unfoldable pub approve_pairing :
    {S : Type 0}
    → Codes
    → Text
    → (S → Result (ℕ × S))
    → ℕ
    → ℕ
    → S
    → Displays
    → Result (ℕ × S × Displays)
approve_pairing lib user_code enroll now approved_at state db = do
  pairing ← approvable lib user_code now db.pairings.rows
  (account_id, state') ← enroll state
  pairings ← mark_approved pairing.id account_id approved_at db.pairings
  ok (account_id, state', record db { pairings = pairings })

-- `ClaimPairingUseCase.execute`, with the credential that `new_secret` gives.
unfoldable pub claim_pairing : Codes → Text → Text → ℕ → Displays → Result (Text × Displays)
claim_pairing lib device_code credential now db = do
  pairing ← or_raise (find_by_device_code (lib.sha256 device_code) db.pairings.rows) expired_token
  raise_if (is_claimed pairing || is_expired pairing now) expired_token
  account_id ← or_raise pairing.approved_account_id authorization_pending
  credentials ← replace account_id (lib.sha256 credential) now db.credentials
  pairings ← mark_claimed pairing.id now db.pairings
  ok (credential, record { pairings = pairings; credentials = credentials })

-- `OpenDisplaySessionUseCase.execute`. The request catches `DeviceCredentialExpiredError`, so the
-- credentials that are left are kept with the answer.
unfoldable pub open_display_session :
    Codes → Text → ℕ → List DisplayCredential → Result ℕ × List DisplayCredential
open_display_session lib device_credential now rows =
    elim (find_by_hash (lib.sha256 device_credential) rows) [
      | none ↦ (err invalid_device_credential, rows)
      | some found ↦
          if ltb (found.last_used_at + credential_idle_limit) now
          then (err (device_credential_expired found.account_id), delete found.account_id rows)
          else (ok found.account_id, touch found.account_id now rows)
    ]

-- The display's account is deleted: the foreign keys of both tables delete its rows.
unfoldable pub delete_account : ℕ → Displays → Displays
delete_account account_id db = record db {
  pairings = record db.pairings {
    rows = delete_where (λ p. holds p.approved_account_id account_id) db.pairings.rows;
  };
  credentials = delete account_id db.credentials;
}

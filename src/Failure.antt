-- ===== src/Failure.antt =====
-- How a use case fails: the exceptions of bounded_contexts/reward_points/domain/exceptions.py and,
-- from `totp_already_enabled` on, those of account_security and display_devices,
-- `ValueError` of the value objects, `KeyError` and the database's `IntegrityError`; and a request, which
-- reads and writes a state. An exception that leaves a use case rolls the whole transaction back
-- (shared/kernel/database/session.py), so a failed action has no state.
use rewardpointsweb.Base.{ℕ, ◌≡◌, refl, ◌⊎◌, inl, inr, Bool, true, false, Option, none, some}

pub data Error : Type 0 where
  value_error : Error
  integrity_error : Error
  family_not_found : Error
  family_access_denied : Error
  membership_not_found : Error
  ledger_not_found : Error
  transaction_not_found : Error
  transaction_already_reversed : Error
  reversal_of_reversal : Error
  correction_of_reversal : Error
  idempotency_key_reused : Error
  invitation_not_found : Error
  role_not_invitable : Error
  invitation_target_unavailable : Error
  account_already_in_family : Error
  already_belongs_to_family : Error
  child_cannot_leave_family : Error
  last_guardian_cannot_leave : Error
  family_not_empty : Error
  independence_not_proposed : Error
  username_already_taken : Error
  child_account_required : Error
  guardian_account_required : Error
  child_invitation_requires_signup : Error
  guardian_invitation_requires_sign_in : Error
  display_name_required : Error
  membership_not_linked : Error
  ledger_not_empty : Error
  invalid_member_order : Error
  reward_event_not_found : Error
  reward_event_completed : Error
  reward_event_expired : Error
  reward_event_deadline_passed : Error
  sticker_out_of_order : Error
  invalid_family_archive : Error
  unsupported_archive_version : Error
  display_not_found : Error
  totp_already_enabled : Error
  totp_not_enrolled : Error
  invalid_totp_code : Error
  totp_required : Error
  too_many_attempts : ℕ → Error
  key_error : Error
  challenge_not_found : Error
  passkey_already_registered : Error
  passkey_verification_failed : Error
  passkey_not_found : Error
  pairing_not_found : Error
  pairing_expired : Error
  authorization_pending : Error
  expired_token : Error
  invalid_device_credential : Error
  device_credential_expired : ℕ → Error
  no_free_pairing_code : Error

-- What a use case gives back, or the exception that leaves it.
pub data Result {ℓ} (A : Type ℓ) : Type ℓ where
  err : Error → Result A
  ok : A → Result A

infixl 5 ◌>>=◌ ◌>>◌
-- A statement without a value, and what comes after it.
abbrev pub ◌>>◌ {ℓ} : {A : Type ℓ} → Result (Unit {0}) → Result A → Result A
err raised >> rest = err raised
ok done >> rest = rest

-- `raise` under a test
abbrev pub raise_if : Bool → Error → Result (Unit {0})
raise_if true e = err e
raise_if false e = ok tt

-- An assignment, and what comes after it.
abbrev pub ◌>>=◌ {κ ℓ} : {A : Type κ} {B : Type ℓ} → Result A → (A → Result B) → Result B
err raised >>= rest = err raised
ok value >>= rest = rest value

abbrev pub is_err {ℓ} : {A : Type ℓ} → Result A → Bool
is_err (err e) = true
is_err (ok a) = false

-- `if x is None: raise`
abbrev pub or_raise {ℓ} : {A : Type ℓ} → Option A → Error → Result A
or_raise none e = err e
or_raise (some a) e = ok a

-- What a use case that succeeds has done: its first step gave a value, with which the rest went on.
pub succeeds-steps {κ ℓ} :
    {A : Type κ} {B : Type ℓ} {answer : B} (rest : A → Result B) (tried : Result A)
    → tried >>= rest ≡ ok answer
    → (value : A) × (rest value ≡ ok answer) × (tried ≡ ok value)
succeeds-steps rest (err raised) done = cc
succeeds-steps rest (ok value) done = (value, done, refl)

pub Result-cases {ℓ} :
    {A : Type ℓ} (r : Result A) → ((e : Error) × (r ≡ err e)) ⊎ ((a : A) × (r ≡ ok a))
Result-cases (err e) = inl (e, refl)
Result-cases (ok a) = inr (a, refl)

-- A statement that did not raise.
pub raise_if-passes {ℓ} :
    {A : Type ℓ} (raised : Bool) (e : Error) (rest : Result A) {answer : A}
    → raise_if raised e >> rest ≡ ok answer
    → (rest ≡ ok answer) × (raised ≡ false)
raise_if-passes true e rest h = cc
raise_if-passes false e rest h = (h, refl)

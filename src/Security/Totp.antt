-- ===== src/Security/Totp.antt =====
-- The second factor: domain/entities/totp_secret.py, application/use_cases/manage_totp.py and
-- verify_second_factor.py, infrastructure/sql_totp_secret_repository.py and
-- pyotp_totp_authenticator.py of bounded_contexts/account_security. The code of `pyotp` and the
-- Unicode tables are the fields of `TotpLibrary`; a fresh secret is an argument.
pub mod Enabled
use rewardpointsweb.Base.{
  ℕ, Bool, true, false, ◌&&◌, not, ◌==◌, if◌then◌else◌, is_some, Option, none, some, List, [], ◌∷◌,
  first, select, delete_where, Text, strip, is_empty,
}
use rewardpointsweb.Failure.{
  Result, ok, err, ◌>>◌, ◌>>=◌, raise_if, or_raise, totp_already_enabled, totp_not_enrolled,
  invalid_totp_code, totp_required,
}

-- `pyotp.TOTP(secret).verify(code, valid_window=1)` at a time, `provisioning_uri`, and the
-- characters of which `str.isdigit` holds.
pub record TotpLibrary : Type 0 where
  pub verifies : Text → Text → ℕ → Bool
  pub uri : Text → Text → Text
  pub is_digit : ℕ → Bool

-- `TotpSecret`, and the row of `totp_secrets`.
pub record TotpSecret : Type 0 where
  pub user_id : ℕ
  pub secret : Text
  pub confirmed_at : Option ℕ

-- `TotpSecret.is_confirmed`
abbrev pub is_confirmed : TotpSecret → Bool
is_confirmed s = is_some s.confirmed_at

abbrev pub all_digits : (ℕ → Bool) → Text → Bool
all_digits is_digit [] = true
all_digits is_digit (c ∷ s) = is_digit c && all_digits is_digit s

-- `normalised.isdigit()`
abbrev pub isdigit : (ℕ → Bool) → Text → Bool
isdigit is_digit s = not (is_empty s) && all_digits is_digit s

-- `.replace(" ", "")`
abbrev pub without_blanks : Text → Text
without_blanks s = delete_where (λ c. c == 32) s

-- `PyotpTotpAuthenticator.verify`
unfoldable pub verify : TotpLibrary → Text → Text → ℕ → Bool
verify lib secret code now =
    let normalised = without_blanks (strip code) in
    if not (isdigit lib.is_digit normalised) then false else lib.verifies secret normalised now

-- `find_by_user`
unfoldable pub find_by_user : ℕ → List TotpSecret → Option TotpSecret
find_by_user user_id rows = first (λ s. s.user_id == user_id) rows

-- `save`
unfoldable pub save : TotpSecret → List TotpSecret → List TotpSecret
save s [] = s ∷ []
save s (x ∷ rows) = if x.user_id == s.user_id then s ∷ rows else x ∷ save s rows

-- The row of `record.confirmed_at = confirmed_at`.
abbrev pub confirmed : TotpSecret → ℕ → TotpSecret
confirmed s now = record s { confirmed_at = some now }

-- `confirm`
unfoldable pub confirm : ℕ → ℕ → List TotpSecret → Result (List TotpSecret)
unfolding find_by_user save
confirm user_id now rows = do
  s ← or_raise (find_by_user user_id rows) totp_not_enrolled
  ok (save (confirmed s now) rows)

-- `delete`
unfoldable pub delete : ℕ → List TotpSecret → List TotpSecret
delete user_id rows = delete_where (λ s. s.user_id == user_id) rows

-- `TwoFactorStatusDto`
pub record TwoFactorStatusDto : Type 0 where
  pub enabled : Bool
  pub enrolling : Bool

-- `GetTwoFactorStatus.execute`
unfoldable pub get_two_factor_status : ℕ → List TotpSecret → TwoFactorStatusDto
get_two_factor_status user_id rows = elim (find_by_user user_id rows) [
  | none ↦ record { enabled = false; enrolling = false }
  | some s ↦ record { enabled = is_confirmed s; enrolling = not (is_confirmed s) }
]

-- `TotpEnrollmentDto`
pub record TotpEnrollmentDto : Type 0 where
  pub secret : Text
  pub otpauth_uri : Text

-- `stored is not None and stored.is_confirmed`
abbrev pub has_confirmed : Option TotpSecret → Bool
has_confirmed none = false
has_confirmed (some s) = is_confirmed s

-- `StartTotpEnrollment.execute`, with the secret that `generate_secret` gives.
unfoldable pub start_totp_enrollment :
    TotpLibrary → ℕ → Text → Text → List TotpSecret → Result (TotpEnrollmentDto × List TotpSecret)
start_totp_enrollment lib user_id account_name secret rows =
    if has_confirmed (find_by_user user_id rows)
    then err totp_already_enabled
    else ok (
      record { secret = secret; otpauth_uri = lib.uri secret account_name },
      save (record { user_id = user_id; secret = secret; confirmed_at = none }) rows,
    )

-- `ConfirmTotpEnrollment.execute`
unfoldable pub confirm_totp_enrollment :
    TotpLibrary → ℕ → Text → ℕ → List TotpSecret → Result (List TotpSecret)
confirm_totp_enrollment lib user_id code now rows = do
  stored ← or_raise (find_by_user user_id rows) totp_not_enrolled
  raise_if (is_confirmed stored) totp_already_enabled
  raise_if (not (verify lib stored.secret code now)) invalid_totp_code
  confirm user_id now rows

-- `DisableTotp.execute`
unfoldable pub disable_totp :
    TotpLibrary → ℕ → Text → ℕ → List TotpSecret → Result (List TotpSecret)
disable_totp lib user_id code now rows = do
  stored ← or_raise (find_by_user user_id rows) totp_not_enrolled
  raise_if (is_confirmed stored && not (verify lib stored.secret code now)) invalid_totp_code
  ok (delete user_id rows)

-- `not code`
abbrev pub is_missing : Option Text → Bool
is_missing none = true
is_missing (some code) = is_empty code

-- `verify` of a code that was sent.
abbrev pub verify_sent : TotpLibrary → Text → Option Text → ℕ → Bool
verify_sent lib secret none now = false
verify_sent lib secret (some code) now = verify lib secret code now

-- `VerifySecondFactor.execute`
unfoldable pub verify_second_factor :
    TotpLibrary → ℕ → Option Text → ℕ → List TotpSecret → Result (Unit {0})
verify_second_factor lib user_id code now rows = elim (find_by_user user_id rows) [
  | none ↦ ok tt
  | some stored ↦
      if not (is_confirmed stored)
      then ok tt
      else if is_missing code
      then err totp_required
      else raise_if (not (verify_sent lib stored.secret code now)) invalid_totp_code
]

-- ===== src/Displays.antt =====
-- Pairing a display device (bounded_contexts/display_devices): domain/entities/display_pairing.py,
-- domain/services, infrastructure/sql_display_repositories.py, application/use_cases. A display's
-- account is made by reward_points: `enroll` is an argument, with the state that it changes. What
-- `secrets` draws is an argument too; `str.upper`, `str.isalnum` and SHA-256 are in `Codes`.
pub mod Code
pub mod Pair
pub mod Runs
pub mod Once
pub mod Opened
use rewardpointsweb.Base.{
  ℕ, suc, zero, ◌+◌, ◌-◌, ◌*◌, Bool, true, false, ◌&&◌, ◌||◌, not, ◌==◌, ltb, leb, if◌then◌else◌,
  is_some, Option, none, some, List, [], ◌∷◌, ◌++◌, length, first, select, exists, delete_where,
  update_where, Text, text_eq, contains, codes,
}
use rewardpointsweb.Failure.{
  Result, ok, err, ◌>>◌, ◌>>=◌, raise_if, or_raise, value_error, integrity_error, pairing_not_found,
  pairing_expired, authorization_pending, expired_token, invalid_device_credential,
  device_credential_expired, no_free_pairing_code,
}
use rewardpointsweb.Entities.{Table, insert_row}

pub record Codes : Type 0 where
  pub upper : Text → Text
  pub isalnum : ℕ → Bool
  pub sha256 : Text → Text

-- `USER_CODE_ALPHABET`, `USER_CODE_LENGTH` and `_USER_CODE_GROUP`
abbrev pub user_code_alphabet : Text
user_code_alphabet = codes "ABCDEFGHJKMNPQRSTUVWXYZ23456789"

abbrev pub user_code_length : ℕ
user_code_length = 8

abbrev pub user_code_group : ℕ
user_code_group = 4

-- `PAIRING_TTL`, `PAIRING_RETENTION`, `CREDENTIAL_IDLE_LIMIT`, in microseconds, and
-- `POLL_INTERVAL_SECONDS`, in seconds.
abbrev pub pairing_ttl : ℕ
pairing_ttl = 600000000

abbrev pub pairing_retention : ℕ
pairing_retention = 86400000000

abbrev pub credential_idle_limit : ℕ
credential_idle_limit = 7776000000000

abbrev pub poll_interval_seconds : ℕ
poll_interval_seconds = 5

-- `s[:n]` and `s[n:]`
abbrev pub take : ℕ → Text → Text
take zero s = []
take (suc n) [] = []
take (suc n) (c ∷ s) = c ∷ take n s

abbrev pub drop : ℕ → Text → Text
drop zero s = s
drop (suc n) [] = []
drop (suc n) (c ∷ s) = drop n s

-- `format_user_code`
unfoldable pub format_user_code : Text → Text
format_user_code code = take user_code_group code ++ 45 ∷ drop user_code_group code

-- `any(ch not in USER_CODE_ALPHABET for ch in code)`
abbrev pub has_foreign : Text → Bool
has_foreign code = exists (λ ch. not (contains ch user_code_alphabet)) code

-- `normalize_user_code`
unfoldable pub normalize_user_code : Codes → Text → Option Text
normalize_user_code lib raw =
    let code = select lib.isalnum (lib.upper raw) in
    if not (length code == user_code_length) || has_foreign code then none else some code

-- `DisplayPairing`, and the row of `display_pairings`.
pub record DisplayPairing : Type 0 where
  pub id : ℕ
  pub user_code_hash : Text
  pub device_code_hash : Text
  pub expires_at : ℕ
  pub created_at : ℕ
  pub approved_account_id : Option ℕ
  pub approved_at : Option ℕ
  pub claimed_at : Option ℕ

-- `is_expired`
abbrev pub is_expired : DisplayPairing → ℕ → Bool
is_expired p now = leb p.expires_at now

-- `is_claimed`
abbrev pub is_claimed : DisplayPairing → Bool
is_claimed p = is_some p.claimed_at

-- `is_approved`
abbrev pub is_approved : DisplayPairing → Bool
is_approved p = is_some p.approved_account_id

-- `can_be_approved`
abbrev pub can_be_approved : DisplayPairing → ℕ → Bool
can_be_approved p now = not (is_expired p now) && not (is_approved p) && not (is_claimed p)

-- The row of `display_credentials`.
pub record DisplayCredential : Type 0 where
  pub account_id : ℕ
  pub credential_hash : Text
  pub created_at : ℕ
  pub last_used_at : ℕ

-- The two tables.
pub record Displays : Type 0 where
  pub pairings : Table DisplayPairing
  pub credentials : List DisplayCredential

abbrev pub has_user_code : Text → DisplayPairing → Bool
has_user_code hash p = text_eq p.user_code_hash hash

abbrev pub has_device_code : Text → DisplayPairing → Bool
has_device_code hash p = text_eq p.device_code_hash hash

-- `find_by_user_code`
unfoldable pub find_by_user_code : Text → List DisplayPairing → Option DisplayPairing
find_by_user_code hash rows = first (has_user_code hash) rows

-- `find_by_device_code`
unfoldable pub find_by_device_code : Text → List DisplayPairing → Option DisplayPairing
find_by_device_code hash rows = first (has_device_code hash) rows

-- `is_user_code_in_use`
unfoldable pub is_user_code_in_use : Text → List DisplayPairing → Bool
is_user_code_in_use hash rows = is_some (find_by_user_code hash rows)

-- The row of `add`.
abbrev pub new_pairing : Text → Text → ℕ → ℕ → ℕ → DisplayPairing
new_pairing user_code_hash device_code_hash expires_at now id = record {
  id = id;
  user_code_hash = user_code_hash;
  device_code_hash = device_code_hash;
  expires_at = expires_at;
  created_at = now;
  approved_account_id = none;
  approved_at = none;
  claimed_at = none;
}

-- `add`, under the unique constraints on both hashes.
unfoldable pub add : Text → Text → ℕ → ℕ → Table DisplayPairing → Result (Table DisplayPairing)
add user_code_hash device_code_hash expires_at now t =
    if exists (has_user_code user_code_hash) t.rows
      || exists (has_device_code device_code_hash) t.rows
    then err integrity_error
    else ok (insert_row (new_pairing user_code_hash device_code_hash expires_at now) t).1

-- `_require`, and what `update` writes to that row.
unfoldable pub change :
    ℕ → (DisplayPairing → DisplayPairing) → Table DisplayPairing → Result (Table DisplayPairing)
change pairing_id update t =
    if exists (λ p. p.id == pairing_id) t.rows
    then ok (record t { rows = update_where (λ p. p.id == pairing_id) update t.rows })
    else err value_error

abbrev pub approved_by : ℕ → ℕ → DisplayPairing → DisplayPairing
approved_by account_id at p = record p {
  approved_account_id = some account_id;
  approved_at = some at;
}

abbrev pub claimed : ℕ → DisplayPairing → DisplayPairing
claimed at p = record p { claimed_at = some at }

-- `mark_approved`
unfoldable pub mark_approved : ℕ → ℕ → ℕ → Table DisplayPairing → Result (Table DisplayPairing)
unfolding change
mark_approved pairing_id account_id approved_at t =
    change pairing_id (approved_by account_id approved_at) t

-- `mark_claimed`
unfoldable pub mark_claimed : ℕ → ℕ → Table DisplayPairing → Result (Table DisplayPairing)
unfolding change
mark_claimed pairing_id claimed_at t = change pairing_id (claimed claimed_at) t

-- `delete_expired_before`
unfoldable pub delete_expired_before : ℕ → Table DisplayPairing → Table DisplayPairing
delete_expired_before moment t = record t {
  rows = delete_where (λ p. ltb p.expires_at moment) t.rows;
}

-- `replace`: the row of an account, under the unique constraint on the hash.
abbrev pub put_credential : DisplayCredential → List DisplayCredential → List DisplayCredential
put_credential c [] = c ∷ []
put_credential c (x ∷ rows) =
    if x.account_id == c.account_id then c ∷ rows else x ∷ put_credential c rows

unfoldable pub replace : ℕ → Text → ℕ → List DisplayCredential → Result (List DisplayCredential)
replace account_id credential_hash issued_at rows =
    if exists (λ c. text_eq c.credential_hash credential_hash && not (c.account_id == account_id))
      rows
    then err integrity_error
    else ok (
        put_credential
          (record {
            account_id = account_id;
            credential_hash = credential_hash;
            created_at = issued_at;
            last_used_at = issued_at;
          })
          rows)

-- `find_by_hash`
unfoldable pub find_by_hash : Text → List DisplayCredential → Option DisplayCredential
find_by_hash hash rows = first (λ c. text_eq c.credential_hash hash) rows

-- `touch`
unfoldable pub touch : ℕ → ℕ → List DisplayCredential → List DisplayCredential
touch account_id used_at rows =
    update_where (λ c. c.account_id == account_id) (λ c. record c { last_used_at = used_at }) rows

-- `delete`
unfoldable pub delete : ℕ → List DisplayCredential → List DisplayCredential
delete account_id rows = delete_where (λ c. c.account_id == account_id) rows

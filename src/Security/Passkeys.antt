-- ===== src/Security/Passkeys.antt =====
-- Passkeys: webauthn_challenge.py and passkey_credential.py of the entities, register_passkey.py,
-- authenticate_with_passkey.py and manage_passkeys.py of the use cases, and their repositories in
-- bounded_contexts/account_security. The WebAuthn library and what it makes of the browser's answer
-- are the fields of `RelyingParty`; drawn identifiers and challenges are arguments.
pub mod Stored
pub mod Challenge
pub mod Login
use rewardpointsweb.Base.{
  ℕ, ◌+◌, ◌*◌, Bool, true, false, ◌&&◌, not, ◌==◌, ltb, leb, if◌then◌else◌, is_some, holds, Option,
  none, some, List, [], ◌∷◌, ◌++◌, first, exists, delete_where, update_where, Text, text_eq, strip,
  is_empty, codes,
}
use rewardpointsweb.Failure.{
  Result, ok, err, ◌>>◌, ◌>>=◌, raise_if, or_raise, integrity_error, challenge_not_found,
  passkey_already_registered, passkey_verification_failed, passkey_not_found,
}
use rewardpointsweb.Entities.{Table, insert_row}

-- `CHALLENGE_PURPOSES`
pub data Purpose : Type 0 where
  registration : Purpose
  authentication : Purpose

abbrev pub same_purpose : Purpose → Purpose → Bool
same_purpose registration registration = true
same_purpose authentication authentication = true
same_purpose registration authentication = false
same_purpose authentication registration = false

-- `WebAuthnChallenge`
pub record WebAuthnChallenge : Type 0 where
  pub challenge_id : Text
  pub challenge : Text
  pub purpose : Purpose
  pub expires_at : ℕ
  pub user_id : Option ℕ

-- `PasskeyCredential`, and the row of `passkey_credentials`, without the columns of the attestation and
-- the backup, which are written and decide nothing.
pub record PasskeyCredential : Type 0 where
  pub id : ℕ
  pub user_id : ℕ
  pub credential_id : Text
  pub public_key : Text
  pub sign_count : ℕ
  pub transports : List Text
  pub name : Option Text
  pub last_used_at : Option ℕ
  pub created_at : ℕ

-- What a verified registration gives.
pub record VerifiedRegistration : Type 0 where
  pub credential_id : Text
  pub public_key : Text
  pub sign_count : ℕ

-- The library's verification of an answer, and what the answer says of itself.
pub record RelyingParty (Answer : Type 0) : Type 0 where
  pub verify_registration : Answer → Text → Result VerifiedRegistration
  pub verify_authentication : Answer → Text → Text → ℕ → Result ℕ
  pub extract_credential_id : Answer → Option Text
  pub transports_of : Answer → List Text

-- The two tables.
pub record Passkeys : Type 0 where
  pub challenges : List WebAuthnChallenge
  pub credentials : Table PasskeyCredential

-- `issue`
unfoldable pub issue_challenge :
    WebAuthnChallenge → ℕ → List WebAuthnChallenge → Result (List WebAuthnChallenge)
issue_challenge c now rows =
    let swept = delete_where (λ x. ltb x.expires_at now) rows in
    if exists (λ x. text_eq x.challenge_id c.challenge_id) swept
    then err integrity_error
    else ok (c ∷ swept)

-- `consume`: one request at a time, so that the row that was read is the one that is deleted.
unfoldable pub consume_challenge :
    Text
    → Purpose
    → ℕ
    → List WebAuthnChallenge
    → Result (WebAuthnChallenge × List WebAuthnChallenge)
consume_challenge challenge_id purpose now rows = do
  c ← or_raise (first (λ x. text_eq x.challenge_id challenge_id) rows) challenge_not_found
  raise_if (not (same_purpose c.purpose purpose)) challenge_not_found
  raise_if (leb c.expires_at now) challenge_not_found
  ok (c, delete_where (λ x. text_eq x.challenge_id challenge_id) rows)

-- `find_by_credential_id`
unfoldable pub find_by_credential_id : Text → List PasskeyCredential → Option PasskeyCredential
find_by_credential_id credential_id rows = first (λ c. text_eq c.credential_id credential_id) rows

-- What `add` writes to the row.
abbrev pub registered :
    VerifiedRegistration → List Text → Option Text → PasskeyCredential → PasskeyCredential
registered v transports name c = record c {
  public_key = v.public_key;
  sign_count = v.sign_count;
  transports = transports;
  name = name;
}

abbrev pub new_passkey :
    ℕ → VerifiedRegistration → List Text → Option Text → ℕ → ℕ → PasskeyCredential
new_passkey user_id v transports name now id = record {
  id = id;
  user_id = user_id;
  credential_id = v.credential_id;
  public_key = v.public_key;
  sign_count = v.sign_count;
  transports = transports;
  name = name;
  last_used_at = none;
  created_at = now;
}

-- `add`
unfoldable pub add_passkey :
    ℕ
    → VerifiedRegistration
    → List Text
    → Option Text
    → ℕ
    → Table PasskeyCredential
    → Result (PasskeyCredential × Table PasskeyCredential)
add_passkey user_id v transports name now t = elim (find_by_credential_id v.credential_id t.rows) [
  | none ↦ ok (insert_row (new_passkey user_id v transports name now) t)
  | some existing ↦
      if not (existing.user_id == user_id)
      then err passkey_already_registered
      else ok (
        registered v transports name existing,
        record t {
          rows =
              update_where (λ c. c.id == existing.id) (λ c. registered v transports name existing)
                t.rows;
        },
      )
]

-- `update_usage` of `with_usage`
unfoldable pub update_usage :
    PasskeyCredential → ℕ → ℕ → Table PasskeyCredential → Result (Table PasskeyCredential)
update_usage stored sign_count used_at t = do
  row ← or_raise (find_by_credential_id stored.credential_id t.rows) passkey_not_found
  ok (record t {
    rows =
        update_where (λ c. c.id == row.id)
          (λ c. record c { sign_count = sign_count; last_used_at = some used_at }) t.rows;
  })

-- `delete`
unfoldable pub delete_passkey : ℕ → ℕ → Table PasskeyCredential → Result (Table PasskeyCredential)
delete_passkey user_id passkey_id t = do
  row ← or_raise (first (λ c. c.id == passkey_id) t.rows) passkey_not_found
  raise_if (not (row.user_id == user_id)) passkey_not_found
  ok (record t { rows = delete_where (λ c. c.id == passkey_id) t.rows })

-- `(name or "").strip() or None`
abbrev pub name_or_none : Option Text → Option Text
name_or_none none = none
name_or_none (some name) = if is_empty (strip name) then none else some (strip name)

-- `StartPasskeyRegistration.execute`, with the identifier and the challenge that are drawn.
unfoldable pub start_passkey_registration :
    ℕ → Text → Text → ℕ → ℕ → Passkeys → Result (Text × Passkeys)
unfolding issue_challenge
start_passkey_registration user_id challenge_id challenge ttl now db = do
  challenges ←
      issue_challenge
        (record {
          challenge_id = challenge_id;
          challenge = challenge;
          purpose = registration;
          expires_at = now + ttl;
          user_id = some user_id;
        })
        now db.challenges
  ok (challenge_id, record db { challenges = challenges })

-- `CompletePasskeyRegistration.execute`
unfoldable pub complete_passkey_registration :
    {Answer : Type 0}
    → RelyingParty Answer
    → ℕ
    → Text
    → Answer
    → Option Text
    → ℕ
    → Passkeys
    → Result (PasskeyCredential × Passkeys)
unfolding consume_challenge add_passkey
complete_passkey_registration party user_id challenge_id answer name now db = do
  (challenge, challenges) ← consume_challenge challenge_id registration now db.challenges
  raise_if (not (holds challenge.user_id user_id)) challenge_not_found
  verified ← party.verify_registration answer challenge.challenge
  (stored, credentials) ←
      add_passkey user_id verified (party.transports_of answer) (name_or_none name) now
        db.credentials
  ok (stored, record { challenges = challenges; credentials = credentials })

-- `StartPasskeyAuthentication.execute`
unfoldable pub start_passkey_authentication :
    Text → Text → ℕ → ℕ → Passkeys → Result (Text × Passkeys)
unfolding issue_challenge
start_passkey_authentication challenge_id challenge ttl now db = do
  challenges ←
      issue_challenge
        (record {
          challenge_id = challenge_id;
          challenge = challenge;
          purpose = authentication;
          expires_at = now + ttl;
          user_id = none;
        })
        now db.challenges
  ok (challenge_id, record db { challenges = challenges })

-- `find_by_credential_id(credential_id) if credential_id else None`
abbrev pub find_given : Option Text → List PasskeyCredential → Option PasskeyCredential
find_given none rows = none
find_given (some []) rows = none
find_given (some (c ∷ id)) rows = find_by_credential_id (c ∷ id) rows

-- `CompletePasskeyAuthentication.execute`: the owner of the passkey.
unfoldable pub complete_passkey_authentication :
    {Answer : Type 0} → RelyingParty Answer → Text → Answer → ℕ → Passkeys → Result (ℕ × Passkeys)
unfolding consume_challenge update_usage
complete_passkey_authentication party challenge_id answer now db = do
  (challenge, challenges) ← consume_challenge challenge_id authentication now db.challenges
  stored ←
      or_raise (find_given (party.extract_credential_id answer) db.credentials.rows)
        passkey_verification_failed
  sign_count ←
      party.verify_authentication answer challenge.challenge stored.public_key stored.sign_count
  credentials ← update_usage stored sign_count now db.credentials
  ok (stored.user_id, record { challenges = challenges; credentials = credentials })

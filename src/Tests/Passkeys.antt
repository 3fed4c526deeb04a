-- ===== src/Tests/Passkeys.antt =====
-- A passkey that is registered and signs in, with a library that verifies everything.
use rewardpointsweb.Base.{
  ℕ, ◌<◌, first, text_eq, Option, some, ◌≡◌, refl, none, [], Text, codes, arith,
}
use rewardpointsweb.Failure.{Result, ok, err, challenge_not_found}
use rewardpointsweb.Security.Passkeys.{
  authentication, WebAuthnChallenge, PasskeyCredential, RelyingParty, Passkeys, find_given,
  start_passkey_registration, complete_passkey_registration, start_passkey_authentication,
  complete_passkey_authentication, find_by_credential_id,
}
use rewardpointsweb.Security.Passkeys.Stored.{used_as}
use rewardpointsweb.Security.Passkeys.Login.{
  signed_in, start_passkey_registration-unfit, complete_passkey_authentication-owner,
  complete_passkey_registration-login,
}

abbrev trusting : RelyingParty Text
trusting = record {
  verify_registration = λ answer challenge.
      ok (record { credential_id = answer; public_key = codes "key"; sign_count = 0 });
  verify_authentication = λ answer challenge key count. ok 5;
  extract_credential_id = λ answer. some answer;
  transports_of = λ answer. [];
}

abbrev no_passkeys : Passkeys
no_passkeys = record { challenges = []; credentials = record { rows = []; next_id = 1 } }

abbrev state_of {ℓ} : {A : Type ℓ} → Result (A × Passkeys) → Passkeys
state_of (ok (answer, db)) = db
state_of (err e) = no_passkeys

abbrev after_start : Passkeys
after_start = state_of (start_passkey_registration 7 (codes "r1") (codes "abc") 100 10 no_passkeys)

abbrev registering : Result (PasskeyCredential × Passkeys)
registering =
    complete_passkey_registration trusting 7 (codes "r1") (codes "cred") none 20 after_start

abbrev the_passkey : PasskeyCredential
the_passkey = record {
  id = 1;
  user_id = 7;
  credential_id = codes "cred";
  public_key = codes "key";
  sign_count = 0;
  transports = [];
  name = none;
  last_used_at = none;
  created_at = 20;
}

registers_well : registering ≡ ok (the_passkey, state_of registering)
unfolding start_passkey_registration complete_passkey_registration find_by_credential_id
registers_well = refl

abbrev beginning : Result (Text × Passkeys)
beginning = start_passkey_authentication (codes "a1") (codes "xyz") 100 30 (state_of registering)

begins_well : beginning ≡ ok (codes "a1", state_of beginning)
unfolding start_passkey_authentication start_passkey_registration complete_passkey_registration
    find_by_credential_id
begins_well = refl

complete_passkey_registration-login_example :
    signed_in
      (complete_passkey_authentication trusting (codes "a1") (codes "cred") 40 (state_of beginning))
    ≡ ok 7
complete_passkey_registration-login_example =
    complete_passkey_registration-login trusting 7 (codes "r1") (codes "cred") none 20 after_start
      (state_of registering) (state_of beginning) the_passkey (codes "a1") (codes "xyz") 100 30 40 5
      (codes "cred") registers_well begins_well refl refl refl (omega arith)

abbrev signing_in : Result (ℕ × Passkeys)
signing_in =
    complete_passkey_authentication trusting (codes "a1") (codes "cred") 40 (state_of beginning)

signs_in : signing_in ≡ ok (7, state_of signing_in)
unfolding complete_passkey_authentication start_passkey_authentication start_passkey_registration
    complete_passkey_registration find_by_credential_id
signs_in = refl

complete_passkey_authentication-owner_example :
    (c : WebAuthnChallenge) × (stored : PasskeyCredential) × (sign_count : ℕ) × (first
        (λ x. text_eq x.challenge_id (codes "a1"))
        (state_of beginning).challenges
      ≡ some c)
    × (c.purpose ≡ authentication)
    × (40 < c.expires_at)
    × (find_given (some (codes "cred")) (state_of beginning).credentials.rows ≡ some stored)
    × (stored.user_id ≡ 7)
    × (trusting.verify_authentication (codes "cred") c.challenge stored.public_key stored.sign_count
        ≡ ok sign_count)
    × (find_by_credential_id stored.credential_id (state_of signing_in).credentials.rows
        ≡ some (used_as sign_count 40 stored))
    × ((again : Text) (later : ℕ)
        → complete_passkey_authentication trusting (codes "a1") again later (state_of signing_in)
          ≡ err challenge_not_found)
    × ((member : ℕ) (again : Text) (name : Option Text) (later : ℕ)
        → complete_passkey_registration trusting member
            (codes "a1")
            again
            name
            later
            (state_of signing_in)
          ≡ err challenge_not_found)
complete_passkey_authentication-owner_example =
    complete_passkey_authentication-owner trusting (codes "a1") (codes "cred") 40 7
      (state_of beginning) (state_of signing_in) signs_in

abbrev starting : Result (Text × Passkeys)
starting = start_passkey_registration 7 (codes "r1") (codes "abc") 100 10 no_passkeys

abbrev opening : Result (Text × Passkeys)
opening = start_passkey_authentication (codes "r1") (codes "abc") 100 10 no_passkeys

starts_well :
    (starting ≡ ok (codes "r1", state_of starting)) × (opening ≡ ok (codes "r1", state_of opening))
unfolding start_passkey_registration start_passkey_authentication
starts_well = (refl, refl)

start_passkey_registration-unfit_example :
    ((answer : Text) (later : ℕ)
      → complete_passkey_authentication trusting (codes "r1") answer later (state_of starting)
        ≡ err challenge_not_found)
    × ((member : ℕ) (answer : Text) (name : Option Text) (later : ℕ)
        → complete_passkey_registration trusting member
            (codes "r1")
            answer
            name
            later
            (state_of opening)
          ≡ err challenge_not_found)
start_passkey_registration-unfit_example =
    start_passkey_registration-unfit trusting 7 (codes "r1") (codes "abc") 100 10 no_passkeys
      (state_of starting) (state_of opening) starts_well.0 starts_well.1

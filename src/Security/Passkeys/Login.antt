-- ===== src/Security/Passkeys/Login.antt =====
-- About signing in with a passkey (authenticate_with_passkey.py) after its registration
-- (register_passkey.py).
use rewardpointsweb.Base.{
  ℕ, ◌<◌, ◌+◌, ◌≡◌, refl, sym, subst, ap, ◌∙◌, false, not, ◌==◌, ltb, leb, holds, Option, none,
  some, List, [], ◌∷◌, first, delete_where, update_where, Text, text_eq, text_eq_refl, is_empty,
  arith,
}
use rewardpointsweb.Failure.{
  Result, ok, err, or_raise, succeeds-steps, raise_if-passes, challenge_not_found,
  passkey_verification_failed,
}
use rewardpointsweb.Entities.{Table}
use rewardpointsweb.Security.Passkeys.{
  registration, authentication, WebAuthnChallenge, PasskeyCredential, RelyingParty, Passkeys,
  issue_challenge, consume_challenge, find_by_credential_id, find_given, add_passkey, update_usage,
  name_or_none, complete_passkey_registration, start_passkey_registration,
  start_passkey_authentication, complete_passkey_authentication,
}
use rewardpointsweb.Security.Passkeys.Stored.{
  add_passkey-IsStored, find_given-stored, used_as, update_usage-writes,
}
use rewardpointsweb.Security.Passkeys.Challenge.{
  consumed-gone, consume_challenge-takes, issued-unfit,
}

-- Who was signed in.
abbrev pub signed_in : Result (ℕ × Passkeys) → Result ℕ
signed_in (ok (user_id, db)) = ok user_id
signed_in (err e) = err e

module _ {Answer : Type 0} (party : RelyingParty Answer) where
  -- A login with a passkey is the owner's: the challenge was issued for logins and had not expired,
  -- the answer names a stored passkey of that account, and the library has verified it against the
  -- challenge with that passkey's key. Afterwards the passkey has the sign count that the library
  -- gave, and the challenge serves no other login and no registration.
  pub complete_passkey_authentication-owner :
      (challenge_id : Text) (answer : Answer) (now user_id : ℕ) (db after : Passkeys)
      → complete_passkey_authentication party challenge_id answer now db ≡ ok (user_id, after)
      → (c : WebAuthnChallenge) × (stored : PasskeyCredential) × (sign_count : ℕ) × (first
            (λ x. text_eq x.challenge_id challenge_id)
            db.challenges
          ≡ some c)
        × (c.purpose ≡ authentication)
        × (now < c.expires_at)
        × (find_given (party.extract_credential_id answer) db.credentials.rows ≡ some stored)
        × (stored.user_id ≡ user_id)
        × (party.verify_authentication answer c.challenge stored.public_key stored.sign_count
            ≡ ok sign_count)
        × (find_by_credential_id stored.credential_id after.credentials.rows
            ≡ some (used_as sign_count now stored))
        × ((again : Answer) (later : ℕ)
            → complete_passkey_authentication party challenge_id again later after
              ≡ err challenge_not_found)
        × ((member : ℕ) (again : Answer) (name : Option Text) (later : ℕ)
            → complete_passkey_registration party member challenge_id again name later after
              ≡ err challenge_not_found)
  unfolding complete_passkey_authentication complete_passkey_registration consume_challenge
  complete_passkey_authentication-owner challenge_id answer now user_id db after h =
      let ((c, rest), h1, taken) =
        succeeds-steps _ (consume_challenge challenge_id authentication now db.challenges) h in
      let given = party.extract_credential_id answer in
      let (stored, h2, found) =
        succeeds-steps _
          (or_raise (find_given given db.credentials.rows) passkey_verification_failed) h1 in
      let (sign_count, h3, verified) =
        succeeds-steps _
          (party.verify_authentication answer c.challenge stored.public_key stored.sign_count) h2 in
      let (credentials, h4, updated) =
        succeeds-steps _ (update_usage stored sign_count now db.credentials) h3 in
      let (left, was) =
        consume_challenge-takes challenge_id authentication now db.challenges rest c taken in
      let kept : after.challenges ≡ rest = ground arith in
      let written : credentials ≡ after.credentials = ground arith in
      let named : find_given given db.credentials.rows ≡ some stored = ground arith in
      let used =
        update_usage-writes stored sign_count now db.credentials credentials
          (find_given-stored given db.credentials.rows stored named) updated in
      let gone = consumed-gone challenge_id db.challenges in
      (
        c,
        stored,
        sign_count,
        was.there,
        was.fits,
        was.live,
        named,
        ground arith,
        verified,
        subst
            (λ (t : Table PasskeyCredential).
              find_by_credential_id stored.credential_id t.rows
              ≡ some (used_as sign_count now stored))
            written used,
        λ again later. rw kept (rw left (rw gone refl)),
        λ member again name later. rw kept (rw left (rw gone refl)),
      )

  registration-IsStored :
      (user_id : ℕ) (challenge_id : Text) (answer : Answer) (name : Option Text) (now : ℕ)
      (db after : Passkeys) (stored : PasskeyCredential)
      → complete_passkey_registration party user_id challenge_id answer name now db
        ≡ ok (stored, after)
      → (stored.user_id ≡ user_id)
        × (find_by_credential_id stored.credential_id after.credentials.rows ≡ some stored)
  unfolding complete_passkey_registration
  registration-IsStored user_id challenge_id answer name now db after stored h =
      let ((c, rest), h1, _) =
        succeeds-steps _ (consume_challenge challenge_id registration now db.challenges) h in
      let (h2, _) = raise_if-passes (not (holds c.user_id user_id)) challenge_not_found _ h1 in
      let (v, h3, _) = succeeds-steps _ (party.verify_registration answer c.challenge) h2 in
      let ((row, t), h4, written) =
        succeeds-steps _
          (add_passkey user_id v (party.transports_of answer) (name_or_none name) now
            db.credentials)
          h3 in
      let is_stored =
        add_passkey-IsStored user_id v (party.transports_of answer) (name_or_none name) now
          db.credentials t row written in
      let same : row ≡ stored = ground arith in
      let table : t ≡ after.credentials = ground arith in
      let at_row : find_by_credential_id row.credential_id t.rows ≡ some row =
        rw is_stored.credential is_stored.found in
      (
        ap (λ (c : PasskeyCredential). c.user_id) (sym same) ∙ is_stored.owner,
        subst
            (λ (c : PasskeyCredential).
              find_by_credential_id c.credential_id after.credentials.rows ≡ some c)
            same
            (subst
              (λ (x : Table PasskeyCredential).
                find_by_credential_id row.credential_id x.rows ≡ some row)
              table at_row),
      )

  found-given :
      (id : Text) (rows : List PasskeyCredential)
      → is_empty id ≡ false
      → find_given (some id) rows ≡ find_by_credential_id id rows
  found-given [] rows h = cc
  found-given (c ∷ id) rows h = refl

  update_usage-found :
      (stored : PasskeyCredential) (count now : ℕ) (t : Table PasskeyCredential)
      → find_by_credential_id stored.credential_id t.rows ≡ some stored
      → (t' : Table PasskeyCredential) × (update_usage stored count now t ≡ ok t')
  unfolding update_usage
  update_usage-found stored count now t h = (
    record t {
      rows =
          update_where (λ c. c.id == stored.id)
            (λ c. record c { sign_count = count; last_used_at = some now }) t.rows;
    },
    ground (arith, h),
  )

  -- After a registration, a login that starts with a challenge that is issued, and is completed
  -- before it expires with an answer that names the registered passkey and that the library
  -- verifies with its key, signs in the account that registered it.
  pub complete_passkey_registration-login :
      (user_id : ℕ) (challenge_id : Text) (answer : Answer) (name : Option Text) (now : ℕ)
      (db db1 db2 : Passkeys) (stored : PasskeyCredential) (login_id challenge : Text)
      (ttl start later count : ℕ) (login : Answer)
      → complete_passkey_registration party user_id challenge_id answer name now db
        ≡ ok (stored, db1)
      → start_passkey_authentication login_id challenge ttl start db1 ≡ ok (login_id, db2)
      → party.extract_credential_id login ≡ some stored.credential_id
      → is_empty stored.credential_id ≡ false
      → party.verify_authentication login challenge stored.public_key stored.sign_count ≡ ok count
      → later < start + ttl
      → signed_in (complete_passkey_authentication party login_id login later db2) ≡ ok user_id
  unfolding complete_passkey_authentication consume_challenge start_passkey_authentication
      issue_challenge
  complete_passkey_registration-login user_id challenge_id answer name now db db1 db2 stored
        login_id challenge ttl start later count login registers begins names given verified soon =
      let (owner, found) =
        registration-IsStored user_id challenge_id answer name now db db1 stored registers in
      let c : WebAuthnChallenge = record {
        challenge_id = login_id;
        challenge = challenge;
        purpose = authentication;
        expires_at = start + ttl;
        user_id = none;
      } in
      let (challenges, h1, issued) =
        succeeds-steps _ (issue_challenge c start db1.challenges) begins in
      let same : db2.credentials ≡ db1.credentials = ground arith in
      let rows : db2.challenges ≡ c ∷ delete_where (λ x. ltb x.expires_at start) db1.challenges =
        ground arith in
      let live : leb (start + ttl) later ≡ false = ground arith in
      let (t', used) = update_usage-found stored count later db1.credentials found in
      let looked : find_given (some stored.credential_id) db1.credentials.rows ≡ some stored =
        found-given stored.credential_id db1.credentials.rows given ∙ found in
      rw (rows, same)
        (rw (text_eq_refl login_id)
          (rw live (rw names (rw looked (rw verified (rw used (ap ok owner)))))))

  -- A challenge that is issued for a registration signs nobody in, and one that is issued for a login
  -- registers no passkey, whatever the answer, the account and the time.
  pub start_passkey_registration-unfit :
      (user_id : ℕ) (challenge_id challenge : Text) (ttl now : ℕ) (db db1 db2 : Passkeys)
      → start_passkey_registration user_id challenge_id challenge ttl now db
        ≡ ok (challenge_id, db1)
      → start_passkey_authentication challenge_id challenge ttl now db ≡ ok (challenge_id, db2)
      → ((answer : Answer) (later : ℕ)
          → complete_passkey_authentication party challenge_id answer later db1
            ≡ err challenge_not_found)
        × ((member : ℕ) (answer : Answer) (name : Option Text) (later : ℕ)
            → complete_passkey_registration party member challenge_id answer name later db2
              ≡ err challenge_not_found)
  unfolding start_passkey_registration start_passkey_authentication complete_passkey_authentication
      complete_passkey_registration
  start_passkey_registration-unfit user_id challenge_id challenge ttl now db db1 db2 registers
        begins =
      let c : WebAuthnChallenge = record {
        challenge_id = challenge_id;
        challenge = challenge;
        purpose = registration;
        expires_at = now + ttl;
        user_id = some user_id;
      } in
      let d : WebAuthnChallenge = record c { purpose = authentication; user_id = none } in
      let (rest, h1, issued) = succeeds-steps _ (issue_challenge c now db.challenges) registers in
      let (rest', h2, issued') = succeeds-steps _ (issue_challenge d now db.challenges) begins in
      let kept : db1.challenges ≡ rest = ground arith in
      let kept' : db2.challenges ≡ rest' = ground arith in
      (
        λ answer later.
            rw kept
              (rw (issued-unfit c authentication now later db.challenges rest issued refl) refl),
        λ member answer name later.
            rw kept'
              (rw (issued-unfit d registration now later db.challenges rest' issued' refl) refl),
      )

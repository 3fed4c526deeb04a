-- ===== src/Security/Passkeys/Stored.antt =====
-- About the table of passkeys: registering, updating and finding its rows
-- (sql_passkey_credential_repository.py).
use rewardpointsweb.Base.{
  ℕ, ◌≡◌, refl, sym, subst, ap, ◌∙◌, Bool, true, ◌==◌, ==_refl, Option, none, some, List, [], ◌∷◌,
  first, update_where, Text, text_eq, text_eq_refl, text_eq-true, Bool-cases, Option-cases, inl,
  inr, arith,
}
use rewardpointsweb.Failure.{ok}
use rewardpointsweb.Entities.{Table}
use rewardpointsweb.Security.Passkeys.{
  PasskeyCredential, VerifiedRegistration, find_by_credential_id, find_given, registered,
  new_passkey, add_passkey, update_usage,
}

-- A write to the first row that a query finds.
first-update :
    (p q : PasskeyCredential → Bool) (new e : PasskeyCredential) (rows : List PasskeyCredential)
    → first p rows ≡ some e
    → q e ≡ true
    → p new ≡ true
    → first p (update_where q (λ c. new) rows) ≡ some new
first-update p q new e [] h k n = cc
first-update p q new e (x ∷ rows) h k n = ground (arith, first-update p q new e rows)

find_by_credential_id-holds :
    (credential_id : Text) (rows : List PasskeyCredential) (c : PasskeyCredential)
    → find_by_credential_id credential_id rows ≡ some c
    → c.credential_id ≡ credential_id
unfolding find_by_credential_id
find_by_credential_id-holds credential_id [] c h = cc
find_by_credential_id-holds credential_id (x ∷ rows) c h =
    elim (Bool-cases (text_eq x.credential_id credential_id)) [
      | inl hit ↦
          let same : x ≡ c = ground arith in
          subst (λ (y : PasskeyCredential). y.credential_id ≡ credential_id) same
            (text_eq-true x.credential_id credential_id hit)
      | inr miss ↦ find_by_credential_id-holds credential_id rows c (ground arith)
    ]

-- A registered passkey is found by its credential.
pub record IsStored (user_id : ℕ) (v : VerifiedRegistration) (stored : PasskeyCredential)
    (t : Table PasskeyCredential) : Type 0 where
  pub owner : stored.user_id ≡ user_id
  pub credential : stored.credential_id ≡ v.credential_id
  pub found : find_by_credential_id v.credential_id t.rows ≡ some stored

pub add_passkey-IsStored :
    (user_id : ℕ) (v : VerifiedRegistration) (transports : List Text) (name : Option Text) (now : ℕ)
    (t t' : Table PasskeyCredential) (stored : PasskeyCredential)
    → add_passkey user_id v transports name now t ≡ ok (stored, t')
    → IsStored user_id v stored t'
unfolding add_passkey find_by_credential_id
add_passkey-IsStored user_id v transports name now t t' stored h =
    elim (Option-cases (find_by_credential_id v.credential_id t.rows)) [
      | inl missing ↦
          let new = new_passkey user_id v transports name now t.next_id in
          let same : stored ≡ new = ground arith in
          let rows : t'.rows ≡ new ∷ t.rows = ground arith in
          record {
            owner = ap (λ (c : PasskeyCredential). c.user_id) same;
            credential = ap (λ (c : PasskeyCredential). c.credential_id) same;
            found = rw rows (rw (text_eq_refl v.credential_id) (ap some (sym same)));
          }
      | inr (existing, found) ↦
          let named = find_by_credential_id-holds v.credential_id t.rows existing found in
          let own : (existing.user_id == user_id) ≡ true = ground arith in
          let new = registered v transports name existing in
          let same : stored ≡ new = ground arith in
          let rows : t'.rows ≡ update_where (λ c. c.id == existing.id) (λ c. new) t.rows =
            ground arith in
          let itself : text_eq existing.credential_id v.credential_id ≡ true =
            ap (λ n. text_eq n v.credential_id) named ∙ text_eq_refl v.credential_id in
          record {
            owner = ap (λ (c : PasskeyCredential). c.user_id) same ∙ ground arith;
            credential = ap (λ (c : PasskeyCredential). c.credential_id) same ∙ named;
            found = rw rows (
                first-update (λ c. text_eq c.credential_id v.credential_id)
                  (λ c. c.id == existing.id) new existing t.rows found (==_refl existing.id) itself
                ∙ ap some (sym same));
          }
    ]

-- A write that a query does not see, to the row that the query finds.
first-change :
    (p q : PasskeyCredential → Bool) (f : PasskeyCredential → PasskeyCredential)
    (e : PasskeyCredential) (rows : List PasskeyCredential)
    → ((x : PasskeyCredential) → p (f x) ≡ p x)
    → first p rows ≡ some e
    → q e ≡ true
    → first p (update_where q f rows) ≡ some (f e)
first-change p q f e [] blind h k = cc
first-change p q f e (x ∷ rows) blind h k = ground (arith, blind x, first-change p q f e rows blind)

pub find_given-stored :
    (given : Option Text) (rows : List PasskeyCredential) (stored : PasskeyCredential)
    → find_given given rows ≡ some stored
    → find_by_credential_id stored.credential_id rows ≡ some stored
find_given-stored none rows stored h = cc
find_given-stored (some []) rows stored h = cc
find_given-stored (some (c ∷ id)) rows stored h =
    ap (λ n. find_by_credential_id n rows) (find_by_credential_id-holds (c ∷ id) rows stored h) ∙ h

-- The count of the passkey that signed in is the library's.
abbrev pub used_as : ℕ → ℕ → PasskeyCredential → PasskeyCredential
used_as count now stored = record stored { sign_count = count; last_used_at = some now }

pub update_usage-writes :
    (stored : PasskeyCredential) (count now : ℕ) (t t' : Table PasskeyCredential)
    → find_by_credential_id stored.credential_id t.rows ≡ some stored
    → update_usage stored count now t ≡ ok t'
    → find_by_credential_id stored.credential_id t'.rows ≡ some (used_as count now stored)
unfolding update_usage find_by_credential_id
update_usage-writes stored count now t t' found h =
    let rows : t'.rows ≡ update_where (λ c. c.id == stored.id) (used_as count now) t.rows =
      ground (arith, found) in
    rw rows (
      first-change (λ c. text_eq c.credential_id stored.credential_id) (λ c. c.id == stored.id)
        (used_as count now) stored t.rows (λ x. refl) found (==_refl stored.id))

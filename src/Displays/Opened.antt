-- ===== src/Displays/Opened.antt =====
-- From the code that a display shows to its session.
use rewardpointsweb.Base.{
  ℕ, zero, suc, ◌+◌, ◌-◌, ◌≤◌, ◌<◌, ◌≡◌, refl, sym, subst, ◌∙◌, ap, true, false, ◌&&◌, not, ◌==◌,
  ltb, none, some, List, [], ◌∷◌, exists, update_where, Text, text_eq, text_eq_refl, Bool-cases,
  inl, inr, arith, ==_refl,
}
use rewardpointsweb.Failure.{Result, ok, ◌>>=◌, succeeds-steps}
use rewardpointsweb.Entities.{Table}
use rewardpointsweb.Displays.{
  Codes, pairing_ttl, pairing_retention, credential_idle_limit, format_user_code, DisplayPairing,
  DisplayCredential, Displays, new_pairing, is_expired, add, find_by_user_code, find_by_device_code,
  is_user_code_in_use, change, mark_approved, mark_claimed, approved_by, claimed, replace,
  put_credential, find_by_hash, delete_expired_before,
}
use rewardpointsweb.Displays.Code.{IsAsciiAware, is_user_code, normalize_user_code-format}
use rewardpointsweb.Displays.Pair.{
  StartedPairing, user_code_attempts, fresh_user_code, start_pairing, approvable, approve_pairing,
  claim_pairing, open_display_session,
}

-- The code that is taken is one of those drawn.
fresh_user_code-drawn :
    (lib : Codes) (n : ℕ) (drawn : ℕ → Text) (rows : List DisplayPairing) (code : Text)
    → ((k : ℕ) → is_user_code (drawn k) ≡ true)
    → fresh_user_code lib n drawn rows ≡ ok code
    → is_user_code code ≡ true
unfolding fresh_user_code
fresh_user_code-drawn lib zero drawn rows code codes h = cc
fresh_user_code-drawn lib (suc n) drawn rows code codes h =
    elim (Bool-cases (is_user_code_in_use (lib.sha256 (drawn 0)) rows)) [
      | inl used ↦
          fresh_user_code-drawn lib n (λ k. drawn (suc k)) rows code (λ k. codes (suc k))
            (ground arith)
      | inr free ↦
          let same : drawn 0 ≡ code = ground arith in
          subst (λ c. is_user_code c ≡ true) same (codes 0)
    ]

-- What a start leaves: the code that is shown, and the newest row.
record Started (lib : Codes) (device_code : Text) (now : ℕ) (s : StartedPairing)
    (db after : Displays) : Type 0 where
  code : Text
  fits : is_user_code code ≡ true
  shown : s.user_code ≡ format_user_code code
  device : s.device_code ≡ device_code
  older : List DisplayPairing
  id : ℕ
  newest :
      after.pairings.rows
      ≡ new_pairing (lib.sha256 code) (lib.sha256 device_code) (now + pairing_ttl) now id ∷ older
  credentials : after.credentials ≡ db.credentials

start_pairing-Started :
    (lib : Codes) (drawn : ℕ → Text) (device_code : Text) (now : ℕ) (db : Displays)
    (s : StartedPairing) (after : Displays)
    → ((k : ℕ) → is_user_code (drawn k) ≡ true)
    → start_pairing lib drawn device_code now db ≡ ok (s, after)
    → Started lib device_code now s db after
unfolding start_pairing add
start_pairing-Started lib drawn device_code now db s after codes h =
    let swept = delete_expired_before (now - pairing_retention) db.pairings in
    let (code, h1, took) =
      succeeds-steps _ (fresh_user_code lib user_code_attempts drawn swept.rows) h in
    let (pairings, h2, added) =
      succeeds-steps _
        (add (lib.sha256 code) (lib.sha256 device_code) (now + pairing_ttl) now swept) h1 in
    let new =
      new_pairing (lib.sha256 code) (lib.sha256 device_code) (now + pairing_ttl) now
        swept.next_id in
    let fits = fresh_user_code-drawn lib user_code_attempts drawn swept.rows code codes took in
    let rows : pairings.rows ≡ new ∷ swept.rows = ground arith in
    let done : after.pairings ≡ pairings = ground arith in
    record {
      code = code;
      fits = fits;
      shown = ground arith;
      device = ground arith;
      older = swept.rows;
      id = swept.next_id;
      newest = ap (λ (t : Table DisplayPairing). t.rows) done ∙ rows;
      credentials = ground arith;
    }

-- The newest row is the one that both codes find, and what is written to it.
find-newest :
    (p : DisplayPairing) (older : List DisplayPairing)
    → (find_by_user_code p.user_code_hash (p ∷ older) ≡ some p)
      × (find_by_device_code p.device_code_hash (p ∷ older) ≡ some p)
unfolding find_by_user_code find_by_device_code
find-newest p older =
    (rw (text_eq_refl p.user_code_hash) refl, rw (text_eq_refl p.device_code_hash) refl)

change-newest :
    (update : DisplayPairing → DisplayPairing) (p : DisplayPairing) (older : List DisplayPairing)
    (t : Table DisplayPairing)
    → t.rows ≡ p ∷ older
    → change p.id update t
      ≡ ok (record t { rows = update p ∷ update_where (λ x. x.id == p.id) update older })
unfolding change
change-newest update p older t h = rw h (rw (==_refl p.id) refl)

approve-newest :
    {S : Type 0} (lib : Codes)
    → IsAsciiAware lib
    → (code : Text) (enroll : S → Result (ℕ × S)) (now approved_at account_id : ℕ)
      (state state' : S) (db : Displays) (p : DisplayPairing) (older : List DisplayPairing)
    → db.pairings.rows ≡ p ∷ older
    → is_user_code code ≡ true
    → p.user_code_hash ≡ lib.sha256 code
    → p.approved_account_id ≡ none
    → p.claimed_at ≡ none
    → now < p.expires_at
    → enroll state ≡ ok (account_id, state')
    → approve_pairing lib (format_user_code code) enroll now approved_at state db
      ≡ ok (
        account_id,
        state',
        record db {
          pairings = record db.pairings {
            rows =
                approved_by account_id approved_at p
                ∷ update_where (λ x. x.id == p.id) (approved_by account_id approved_at) older;
          };
        },
      )
unfolding approve_pairing approvable mark_approved
approve-newest lib aware code enroll now approved_at account_id state state' db p older rows fits
      hash fresh unclaimed time enrolled =
    let found : find_by_user_code (lib.sha256 code) db.pairings.rows ≡ some p =
      rw (rows, sym hash) (find-newest p older).0 in
    let written = change-newest (approved_by account_id approved_at) p older db.pairings rows in
    let live : is_expired p now ≡ false = ground arith in
    simp (
      normalize_user_code-format lib aware code fits,
      found,
      fresh,
      unclaimed,
      live,
      enrolled,
      written,
    )

-- The credential of an account, once it is replaced.
find_by_hash-put :
    (c : DisplayCredential) (rows : List DisplayCredential)
    → exists (λ x. text_eq x.credential_hash c.credential_hash) rows ≡ false
    → find_by_hash c.credential_hash (put_credential c rows) ≡ some c
unfolding find_by_hash
find_by_hash-put c [] h = rw (text_eq_refl c.credential_hash) refl
find_by_hash-put c (x ∷ rows) h =
    ground (arith, text_eq_refl c.credential_hash, find_by_hash-put c rows)

replace-fresh :
    (account_id : ℕ) (hash : Text) (now : ℕ) (rows : List DisplayCredential)
    → exists (λ x. text_eq x.credential_hash hash) rows ≡ false
    → exists (λ c. text_eq c.credential_hash hash && not (c.account_id == account_id)) rows ≡ false
replace-fresh account_id hash now [] h = refl
replace-fresh account_id hash now (x ∷ rows) h =
    ground (arith, replace-fresh account_id hash now rows)

open_display_session-found :
    (lib : Codes) (credential : Text) (now : ℕ) (c : DisplayCredential)
    (rows : List DisplayCredential)
    → find_by_hash (lib.sha256 credential) rows ≡ some c
    → ltb (c.last_used_at + credential_idle_limit) now ≡ false
    → (open_display_session lib credential now rows).0 ≡ ok c.account_id
unfolding open_display_session
open_display_session-found lib credential now c rows h k = ground arith

-- A claim of the newest row, and the session that its credential opens.
claim-opens :
    (lib : Codes) (device_code credential : Text) (now later account_id : ℕ) (db : Displays)
    (p : DisplayPairing) (older : List DisplayPairing)
    → db.pairings.rows ≡ p ∷ older
    → p.device_code_hash ≡ lib.sha256 device_code
    → p.approved_account_id ≡ some account_id
    → p.claimed_at ≡ none
    → now < p.expires_at
    → later ≤ now + credential_idle_limit
    → exists (λ c. text_eq c.credential_hash (lib.sha256 credential)) db.credentials ≡ false
    → (do
      (given, after) ← claim_pairing lib device_code credential now db
      (open_display_session lib given later after.credentials).0)
      ≡ ok account_id
unfolding claim_pairing replace mark_claimed
claim-opens lib device_code credential now later account_id db p older rows hash approved unclaimed
      time soon unused =
    let c : DisplayCredential = record {
      account_id = account_id;
      credential_hash = lib.sha256 credential;
      created_at = now;
      last_used_at = now;
    } in
    let found : find_by_device_code (lib.sha256 device_code) db.pairings.rows ≡ some p =
      rw (rows, sym hash) (find-newest p older).1 in
    let written = change-newest (claimed now) p older db.pairings rows in
    let live : is_expired p now ≡ false = ground arith in
    let used : ltb (now + credential_idle_limit) later ≡ false = ground arith in
    let free = replace-fresh account_id (lib.sha256 credential) now db.credentials unused in
    simp (found, approved, unclaimed, live, free, written)
      (open_display_session-found lib credential later c (put_credential c db.credentials)
        (find_by_hash-put c db.credentials unused) used)

-- A display's way from a start at `t0` to the request for a session, at `t3`, with an approval of
-- the shown code, at `t1`, and a claim, at `t2`, in between.
abbrev pub pair_and_open :
    {S : Type 0}
    → Codes
    → (ℕ → Text)
    → Text
    → Text
    → (S → Result (ℕ × S))
    → ℕ
    → ℕ
    → ℕ
    → ℕ
    → S
    → Displays
    → Result ℕ
pair_and_open lib drawn device_code secret enroll t0 t1 t2 t3 state db = do
  (started, db1) ← start_pairing lib drawn device_code t0 db
  (account_id, state', db2) ← approve_pairing lib started.user_code enroll t1 t1 state db1
  (credential, db3) ← claim_pairing lib started.device_code secret t2 db2
  (open_display_session lib credential t3 db3.credentials).0

-- A display that could start gets a session of the account that was enrolled for it, when its code
-- is approved and its credential claimed within ten minutes and the session opened within ninety
-- days. That is so if `upper` and `isalnum` are as documented on ASCII, the drawn codes are made
-- of the alphabet, the enrolment succeeds and no credential has the hash of the drawn one.
pub pair_and_open-account :
    {S : Type 0} (lib : Codes)
    → IsAsciiAware lib
    → (drawn : ℕ → Text) (device_code secret : Text) (enroll : S → Result (ℕ × S)) (t0 t1 t2 t3 : ℕ)
      (state state' : S) (account_id : ℕ) (db db1 : Displays) (started : StartedPairing)
    → ((k : ℕ) → is_user_code (drawn k) ≡ true)
    → start_pairing lib drawn device_code t0 db ≡ ok (started, db1)
    → enroll state ≡ ok (account_id, state')
    → exists (λ c. text_eq c.credential_hash (lib.sha256 secret)) db.credentials ≡ false
    → t1 < t0 + pairing_ttl
    → t2 < t0 + pairing_ttl
    → t3 ≤ t2 + credential_idle_limit
    → pair_and_open lib drawn device_code secret enroll t0 t1 t2 t3 state db ≡ ok account_id
unfolding open_display_session
pair_and_open-account lib aware drawn device_code secret enroll t0 t1 t2 t3 state state' account_id
      db db1 started codes begun enrolled unused le1 le2 le3 =
    let s = start_pairing-Started lib drawn device_code t0 db started db1 codes begun in
    let p = new_pairing (lib.sha256 s.code) (lib.sha256 device_code) (t0 + pairing_ttl) t0 s.id in
    let approved =
      approve-newest lib aware s.code enroll t1 t1 account_id state state' db1 p s.older s.newest
        s.fits refl refl refl le1 enrolled in
    let db2 : Displays = record db1 {
      pairings = record db1.pairings {
        rows =
            approved_by account_id t1 p
            ∷ update_where (λ x. x.id == p.id) (approved_by account_id t1) s.older;
      };
    } in
    rw begun (
      rw (s.shown, s.device)
        (rw approved (
          claim-opens lib device_code secret t2 t3 account_id db2 (approved_by account_id t1 p) _
            refl refl refl refl le2 le3 (rw s.credentials unused))))

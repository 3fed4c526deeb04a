-- ===== src/Displays/Runs.antt =====
-- What any requests of displays and administrators do to the pairings.
use rewardpointsweb.Base.{
  ℕ, ◌≡◌, sym, subst, Bool, true, false, ◌||◌, ◌==◌, ltb, if◌then◌else◌, holds, some, List, [], ◌∷◌,
  exists, delete_where, update_where, Text, text_eq, Bool-cases, inl, inr, arith, ◌-◌, ◌+◌,
}
use rewardpointsweb.Failure.{
  Result, ok, err, ◌>>=◌, or_raise, succeeds-steps, raise_if-passes, Result-cases, expired_token,
  authorization_pending,
}
use rewardpointsweb.Entities.{Table}
use rewardpointsweb.Displays.{
  Codes, pairing_ttl, pairing_retention, DisplayPairing, is_claimed, is_expired, Displays,
  has_user_code, has_device_code, new_pairing, add, change, mark_approved, mark_claimed,
  approved_by, claimed, find_by_device_code, delete_expired_before, replace,
}
use rewardpointsweb.Displays.Pair.{
  user_code_attempts, fresh_user_code, start_pairing, approvable, approve_pairing, claim_pairing,
  open_display_session, delete_account,
}

-- What displays and administrators ask for, and when.
pub data DisplayRequest : Type 0 where
  starts : (drawn : ℕ → Text) (device_code : Text) (now : ℕ) → DisplayRequest
  approves : (user_code : Text) (enrolled : Result ℕ) (now approved_at : ℕ) → DisplayRequest
  claims : (device_code credential : Text) (now : ℕ) → DisplayRequest
  opens : (credential : Text) (now : ℕ) → DisplayRequest
  removes : (account_id : ℕ) → DisplayRequest

-- The tables after a request; one that fails is rolled back.
abbrev pub or_kept : Result Displays → Displays → Displays
or_kept (ok after) before = after
or_kept (err e) before = before

abbrev pub serve_display : Codes → DisplayRequest → Displays → Displays
serve_display lib (starts drawn device_code now) db =
    or_kept (do (started, after) ← start_pairing lib drawn device_code now db; ok after) db
serve_display lib (approves user_code enrolled now approved_at) db =
    or_kept
      (do
        (account_id, state, after) ←
            approve_pairing {S = Unit {0}} lib user_code
              (λ state. do account_id ← enrolled; ok (account_id, state)) now approved_at tt db
        ok after)
      db
serve_display lib (claims device_code credential now) db =
    or_kept (do (given, after) ← claim_pairing lib device_code credential now db; ok after) db
serve_display lib (opens credential now) db = record db {
  credentials = (open_display_session lib credential now db.credentials).1;
}
serve_display lib (removes account_id) db = delete_account account_id db

abbrev pub serve_displays : Codes → List DisplayRequest → Displays → Displays
serve_displays lib [] db = db
serve_displays lib (r ∷ rest) db = serve_displays lib rest (serve_display lib r db)

-- No request draws a device code with this hash.
abbrev pub draws : Codes → Text → DisplayRequest → Bool
draws lib hash (starts drawn device_code now) = text_eq (lib.sha256 device_code) hash
draws lib hash (approves user_code enrolled now approved_at) = false
draws lib hash (claims device_code credential now) = false
draws lib hash (opens credential now) = false
draws lib hash (removes account_id) = false

abbrev pub any_draws : Codes → Text → List DisplayRequest → Bool
any_draws lib hash [] = false
any_draws lib hash (r ∷ rest) = if draws lib hash r then true else any_draws lib hash rest

-- A property of the rows that the requests keep, when the writes of the repository keep it.
pub record IsKept (allowed : Text → Type 0) (P : List DisplayPairing → Type 0) : Type 0 where
  pub deleted :
      (q : DisplayPairing → Bool) (rows : List DisplayPairing) → P rows → P (delete_where q rows)
  pub approved :
      (id account_id at : ℕ) (rows : List DisplayPairing)
      → P rows
      → P (update_where (λ p. p.id == id) (approved_by account_id at) rows)
  pub claimed_once :
      (id at : ℕ) (rows : List DisplayPairing)
      → P rows
      → P (update_where (λ p. p.id == id) (claimed at) rows)
  pub added :
      (p : DisplayPairing) (rows : List DisplayPairing)
      → allowed p.device_code_hash
      → exists (has_device_code p.device_code_hash) rows ≡ false
      → P rows
      → P (p ∷ rows)

abbrev pub Allowed : Codes → (Text → Type 0) → DisplayRequest → Type 0
Allowed lib allowed (starts drawn device_code now) = allowed (lib.sha256 device_code)
Allowed lib allowed (approves user_code enrolled now approved_at) = Unit
Allowed lib allowed (claims device_code credential now) = Unit
Allowed lib allowed (opens credential now) = Unit
Allowed lib allowed (removes account_id) = Unit

-- What a claim that succeeds has found and written.
pub claim_pairing-steps :
    (lib : Codes) (device_code credential : Text) (now : ℕ) (db : Displays) (given : Text)
    (after : Displays)
    → claim_pairing lib device_code credential now db ≡ ok (given, after)
    → (pairing : DisplayPairing) × (find_by_device_code (lib.sha256 device_code) db.pairings.rows
        ≡ some pairing)
      × (mark_claimed pairing.id now db.pairings ≡ ok after.pairings)
unfolding claim_pairing
claim_pairing-steps lib device_code credential now db given after h =
    let (pairing, h1, found) =
      succeeds-steps _
        (or_raise (find_by_device_code (lib.sha256 device_code) db.pairings.rows) expired_token)
        h in
    let (h2, live) =
      raise_if-passes (is_claimed pairing || is_expired pairing now) expired_token _ h1 in
    let (account_id, h2, approved) =
      succeeds-steps _ (or_raise pairing.approved_account_id authorization_pending) h2 in
    let (credentials, h3, replaced) =
      succeeds-steps _ (replace account_id (lib.sha256 credential) now db.credentials) h2 in
    let (pairings, h4, written) = succeeds-steps _ (mark_claimed pairing.id now db.pairings) h3 in
    let same : after.pairings ≡ pairings = ground arith in
    (
      pairing,
      ground arith,
      subst (λ t. mark_claimed pairing.id now db.pairings ≡ ok t) (sym same) written,
    )

module _ (allowed : Text → Type 0) (P : List DisplayPairing → Type 0) (k : IsKept allowed P)
    (lib : Codes) where
  change-kept :
      (id : ℕ) (update : DisplayPairing → DisplayPairing) (t t' : Table DisplayPairing)
      → ((rows : List DisplayPairing) → P rows → P (update_where (λ p. p.id == id) update rows))
      → change id update t ≡ ok t'
      → P t.rows
      → P t'.rows
  unfolding change
  change-kept id update t t' keeps h p = elim (Bool-cases (exists (λ p. p.id == id) t.rows)) [
    | inl found ↦
        let same : t' ≡ record t { rows = update_where (λ p. p.id == id) update t.rows } =
          ground arith in
        rw same (keeps t.rows p)
    | inr missing ↦ absurd (ground arith)
  ]

  add-kept :
      (user_code_hash device_code_hash : Text) (expires_at now : ℕ) (t t' : Table DisplayPairing)
      → allowed device_code_hash
      → add user_code_hash device_code_hash expires_at now t ≡ ok t'
      → P t.rows
      → P t'.rows
  unfolding add
  add-kept user_code_hash device_code_hash expires_at now t t' a h p =
      let new = new_pairing user_code_hash device_code_hash expires_at now t.next_id in
      elim (Bool-cases (
        exists (has_user_code user_code_hash) t.rows
        || exists (has_device_code device_code_hash) t.rows)) [
          | inl used ↦ absurd (ground arith)
          | inr free ↦
              let same : t'.rows ≡ new ∷ t.rows = ground arith in
              rw same (k.added new t.rows a (ground arith) p)
        ]

  start-kept :
      (drawn : ℕ → Text) (device_code : Text) (now : ℕ) (db : Displays)
      → allowed (lib.sha256 device_code)
      → P db.pairings.rows
      → P (serve_display lib (starts drawn device_code now) db).pairings.rows
  unfolding start_pairing delete_expired_before
  start-kept drawn device_code now db a p =
      elim (Result-cases (start_pairing lib drawn device_code now db)) [
        | inl (e, h) ↦ rw h p
        | inr ((s, after), h) ↦
            let swept = delete_expired_before (now - pairing_retention) db.pairings in
            let (code, h1, took) =
              succeeds-steps _ (fresh_user_code lib user_code_attempts drawn swept.rows) h in
            let (pairings, h2, written) =
              succeeds-steps _
                (add (lib.sha256 code) (lib.sha256 device_code) (now + pairing_ttl) now swept) h1 in
            let same : after.pairings.rows ≡ pairings.rows = ground arith in
            let kept =
              k.deleted (λ x. ltb x.expires_at (now - pairing_retention)) db.pairings.rows p in
            rw h (rw same (add-kept _ _ _ now swept pairings a written kept))
      ]

  approve-kept :
      (user_code : Text) (enrolled : Result ℕ) (now approved_at : ℕ) (db : Displays)
      → P db.pairings.rows
      → P (serve_display lib (approves user_code enrolled now approved_at) db).pairings.rows
  unfolding approve_pairing mark_approved
  approve-kept user_code enrolled now approved_at db p =
      let enroll : Unit {0} → Result (ℕ × Unit {0}) =
        λ state. (do account_id ← enrolled; ok (account_id, state)) in
      elim (Result-cases (approve_pairing lib user_code enroll now approved_at tt db)) [
        | inl (e, h) ↦ rw h p
        | inr ((account_id, state, after), h) ↦
            let (pairing, h1, found) =
              succeeds-steps _ (approvable lib user_code now db.pairings.rows) h in
            let (made, h2, given) = succeeds-steps _ (enroll tt) h1 in
            let (pairings, h3, written) =
              succeeds-steps _ (mark_approved pairing.id made.0 approved_at db.pairings) h2 in
            let same : after.pairings.rows ≡ pairings.rows = ground arith in
            rw h (
              rw same (
                change-kept pairing.id (approved_by made.0 approved_at) db.pairings pairings
                  (k.approved pairing.id made.0 approved_at) written p))
      ]

  claim-kept :
      (device_code credential : Text) (now : ℕ) (db : Displays)
      → P db.pairings.rows
      → P (serve_display lib (claims device_code credential now) db).pairings.rows
  unfolding mark_claimed
  claim-kept device_code credential now db p =
      elim (Result-cases (claim_pairing lib device_code credential now db)) [
        | inl (e, h) ↦ rw h p
        | inr ((given, after), h) ↦
            let (pairing, found, written) =
              claim_pairing-steps lib device_code credential now db given after h in
            rw h (
              change-kept pairing.id (claimed now) db.pairings after.pairings
                (k.claimed_once pairing.id now) written p)
      ]

  pub serve_display-kept :
      (r : DisplayRequest) (db : Displays)
      → Allowed lib allowed r
      → P db.pairings.rows
      → P (serve_display lib r db).pairings.rows
  unfolding delete_account
  serve_display-kept (starts drawn device_code now) db a p = start-kept drawn device_code now db a p
  serve_display-kept (approves user_code enrolled now approved_at) db a p =
      approve-kept user_code enrolled now approved_at db p
  serve_display-kept (claims device_code credential now) db a p =
      claim-kept device_code credential now db p
  serve_display-kept (opens credential now) db a p = p
  serve_display-kept (removes account_id) db a p =
      k.deleted (λ x. holds x.approved_account_id account_id) db.pairings.rows p

-- ===== src/Displays/Once.antt =====
-- A display's secret is good for one credential.
use rewardpointsweb.Base.{
  ℕ, ◌≡◌, refl, ◌∙◌, ap, subst, Bool, true, false, ◌&&◌, not, ◌==◌, some, List, [], ◌∷◌, first,
  exists, delete_where, update_where, Text, text_eq, text_eq-true, Bool-cases, Option-cases, inl,
  inr, arith, ==_refl,
}
use rewardpointsweb.Failure.{ok, err, expired_token}
use rewardpointsweb.Entities.{Table}
use rewardpointsweb.Displays.{
  Codes, DisplayPairing, is_claimed, Displays, has_device_code, change, mark_claimed, approved_by,
  claimed, find_by_device_code,
}
use rewardpointsweb.Displays.Pair.{claim_pairing}
use rewardpointsweb.Displays.Runs.{
  DisplayRequest, starts, approves, claims, opens, removes, serve_display, serve_displays, draws,
  any_draws, IsKept, Allowed, claim_pairing-steps, serve_display-kept,
}

-- No two rows have one device code.
abbrev IsUnique : List DisplayPairing → Type 0
IsUnique [] = Unit
IsUnique (x ∷ rows) = (exists (has_device_code x.device_code_hash) rows ≡ false) × IsUnique rows

-- A pairing of this device code that is not claimed.
abbrev is_open : Text → DisplayPairing → Bool
is_open hash p = has_device_code hash p && not (is_claimed p)

exists-delete :
    (q p : DisplayPairing → Bool) (rows : List DisplayPairing)
    → exists p rows ≡ false
    → exists p (delete_where q rows) ≡ false
exists-delete q p [] h = refl
exists-delete q p (x ∷ rows) h = ground (arith, exists-delete q p rows)

-- A write that does not make the condition true.
exists-update :
    (q p : DisplayPairing → Bool) (update : DisplayPairing → DisplayPairing)
    (rows : List DisplayPairing)
    → ((x : DisplayPairing) → p x ≡ false → p (update x) ≡ false)
    → exists p rows ≡ false
    → exists p (update_where q update rows) ≡ false
exists-update q p update [] mono h = refl
exists-update q p update (x ∷ rows) mono h =
    ground (arith, mono x, exists-update q p update rows mono)

delete-IsUnique :
    (q : DisplayPairing → Bool) (rows : List DisplayPairing)
    → IsUnique rows
    → IsUnique (delete_where q rows)
delete-IsUnique q [] u = tt
delete-IsUnique q (x ∷ rows) u = elim (Bool-cases (q x)) [
  | inl gone ↦ rw gone (delete-IsUnique q rows u.1)
  | inr kept ↦
      rw kept
        (exists-delete q (has_device_code x.device_code_hash) rows u.0, delete-IsUnique q rows u.1)
]

update-IsUnique :
    (q : DisplayPairing → Bool) (update : DisplayPairing → DisplayPairing)
    (rows : List DisplayPairing)
    → ((x : DisplayPairing) → (update x).device_code_hash ≡ x.device_code_hash)
    → IsUnique rows
    → IsUnique (update_where q update rows)
update-IsUnique q update [] same u = tt
update-IsUnique q update (x ∷ rows) same u =
    let rest =
      exists-update q (has_device_code x.device_code_hash) update rows (λ y h. rw (same y) h) u.0 in
    elim (Bool-cases (q x)) [
      | inl hit ↦ rw hit (rw (same x) rest, update-IsUnique q update rows same u.1)
      | inr miss ↦ rw miss (rest, update-IsUnique q update rows same u.1)
    ]

IsUnique-kept : IsKept (λ hash. Unit {0}) IsUnique
IsUnique-kept = record {
  deleted = delete-IsUnique;
  approved = λ id account_id at rows u.
      update-IsUnique (λ p. p.id == id) (approved_by account_id at) rows (λ x. refl) u;
  claimed_once = λ id at rows u. update-IsUnique (λ p. p.id == id) (claimed at) rows (λ x. refl) u;
  added = λ p rows a fresh u. (fresh, u);
}

closed_kept :
    (hash : Text)
    → IsKept (λ drawn. text_eq drawn hash ≡ false) (λ rows. exists (is_open hash) rows ≡ false)
closed_kept hash = record {
  deleted = λ q rows h. exists-delete q (is_open hash) rows h;
  approved = λ id account_id at rows h.
      exists-update (λ p. p.id == id) (is_open hash) (approved_by account_id at) rows (λ x c. c) h;
  claimed_once = λ id at rows h.
      exists-update (λ p. p.id == id) (is_open hash) (claimed at) rows (λ x c. ground arith) h;
  added = λ p rows a fresh h. ground arith;
}

Allowed-any : (lib : Codes) (r : DisplayRequest) → Allowed lib (λ hash. Unit {0}) r
Allowed-any lib (starts drawn device_code now) = tt
Allowed-any lib (approves user_code enrolled now approved_at) = tt
Allowed-any lib (claims device_code credential now) = tt
Allowed-any lib (opens credential now) = tt
Allowed-any lib (removes account_id) = tt

serve_displays-IsUnique :
    (lib : Codes) (requests : List DisplayRequest) (db : Displays)
    → IsUnique db.pairings.rows
    → IsUnique (serve_displays lib requests db).pairings.rows
serve_displays-IsUnique lib [] db u = u
serve_displays-IsUnique lib (r ∷ rest) db u =
    serve_displays-IsUnique lib rest (serve_display lib r db)
      (serve_display-kept (λ hash. Unit {0}) IsUnique IsUnique-kept lib r db (Allowed-any lib r) u)

not_drawn :
    (lib : Codes) (hash : Text) (r : DisplayRequest)
    → draws lib hash r ≡ false
    → Allowed lib (λ drawn. text_eq drawn hash ≡ false) r
not_drawn lib hash (starts drawn device_code now) h = h
not_drawn lib hash (approves user_code enrolled now approved_at) h = tt
not_drawn lib hash (claims device_code credential now) h = tt
not_drawn lib hash (opens credential now) h = tt
not_drawn lib hash (removes account_id) h = tt

serve_displays-closed :
    (lib : Codes) (hash : Text) (requests : List DisplayRequest) (db : Displays)
    → any_draws lib hash requests ≡ false
    → exists (is_open hash) db.pairings.rows ≡ false
    → exists (is_open hash) (serve_displays lib requests db).pairings.rows ≡ false
serve_displays-closed lib hash [] db n h = h
serve_displays-closed lib hash (r ∷ rest) db n h =
    serve_displays-closed lib hash rest (serve_display lib r db) (ground arith) (
      serve_display-kept (λ drawn. text_eq drawn hash ≡ false)
        (λ rows. exists (is_open hash) rows ≡ false) (closed_kept hash) lib r db
        (not_drawn lib hash r (ground arith)) h)

exists-is_open :
    (hash : Text) (rows : List DisplayPairing)
    → exists (has_device_code hash) rows ≡ false
    → exists (is_open hash) rows ≡ false
exists-is_open hash [] h = refl
exists-is_open hash (x ∷ rows) h = ground (arith, exists-is_open hash rows)

-- A claim leaves no open pairing of its device code.
update-closed :
    (hash : Text) (p : DisplayPairing) (now : ℕ) (rows : List DisplayPairing)
    → IsUnique rows
    → first (has_device_code hash) rows ≡ some p
    → exists (is_open hash) (update_where (λ x. x.id == p.id) (claimed now) rows) ≡ false
update-closed hash p now [] u h = cc
update-closed hash p now (x ∷ rows) u h = elim (Bool-cases (has_device_code hash x)) [
  | inl hit ↦
      let same : x ≡ p = ground arith in
      let named : x.device_code_hash ≡ hash = text_eq-true x.device_code_hash hash hit in
      let alone : exists (has_device_code hash) rows ≡ false =
        subst (λ n. exists (has_device_code n) rows ≡ false) named u.0 in
      let rest =
        exists-update (λ y. y.id == p.id) (is_open hash) (claimed now) rows (λ y c. ground arith)
          (exists-is_open hash rows alone) in
      let its_own : (x.id == p.id) ≡ true =
        ap (λ (y : DisplayPairing). y.id == p.id) same ∙ ==_refl p.id in
      rw its_own (ground arith)
  | inr miss ↦ ground (arith, update-closed hash p now rows u.1)
]

closed_first :
    (hash : Text) (rows : List DisplayPairing) (p : DisplayPairing)
    → exists (is_open hash) rows ≡ false
    → find_by_device_code hash rows ≡ some p
    → is_claimed p ≡ true
unfolding find_by_device_code
closed_first hash [] p h e = cc
closed_first hash (x ∷ rows) p h e = ground (arith, closed_first hash rows p)

closed_claim :
    (lib : Codes) (device_code credential : Text) (now : ℕ) (db : Displays)
    → exists (is_open (lib.sha256 device_code)) db.pairings.rows ≡ false
    → claim_pairing lib device_code credential now db ≡ err expired_token
unfolding claim_pairing
closed_claim lib device_code credential now db h =
    elim (Option-cases (find_by_device_code (lib.sha256 device_code) db.pairings.rows)) [
      | inl missing ↦ rw missing refl
      | inr (p, found) ↦
          let over : is_claimed p ≡ true =
            closed_first (lib.sha256 device_code) db.pairings.rows p h found in
          rw found (rw over refl)
    ]

mark_claimed-closed :
    (hash : Text) (p : DisplayPairing) (now : ℕ) (t t' : Table DisplayPairing)
    → IsUnique t.rows
    → find_by_device_code hash t.rows ≡ some p
    → mark_claimed p.id now t ≡ ok t'
    → exists (is_open hash) t'.rows ≡ false
unfolding mark_claimed find_by_device_code change
mark_claimed-closed hash p now t t' u found h =
    let closed = update-closed hash p now t.rows u found in ground arith

abbrev pub no_displays : Displays
no_displays = record { pairings = record { rows = []; next_id = 1 }; credentials = [] }

-- After any requests from empty tables, when a display has claimed a credential with its secret,
-- then after any further requests, in which no start draws a secret of the same hash, a claim
-- with that secret is refused as expired.
pub claim_pairing-once :
    (lib : Codes) (before after : List DisplayRequest) (device_code credential given other : Text)
    (now later : ℕ) (db : Displays)
    → claim_pairing lib device_code credential now (serve_displays lib before no_displays)
      ≡ ok (given, db)
    → any_draws lib (lib.sha256 device_code) after ≡ false
    → claim_pairing lib device_code other later (serve_displays lib after db) ≡ err expired_token
claim_pairing-once lib before after device_code credential given other now later db h n =
    let start = serve_displays lib before no_displays in
    let (p, found, written) = claim_pairing-steps lib device_code credential now start given db h in
    let unique = serve_displays-IsUnique lib before no_displays tt in
    closed_claim lib device_code other later (serve_displays lib after db) (
      serve_displays-closed lib (lib.sha256 device_code) after db n (
        mark_claimed-closed (lib.sha256 device_code) p now start.pairings db.pairings unique found
          written))

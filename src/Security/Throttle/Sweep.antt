-- ===== src/Security/Throttle/Sweep.antt =====
-- Sweeping forgets nothing that matters: the table that is swept at every write answers as one
-- that keeps all rows.
use rewardpointsweb.Base.{
  leb, ℕ, ◌≤◌, ◌≡◌, refl, sym, ◌∙◌, ap, ◌⊎◌, inl, inr, Bool, true, false, ◌&&◌, not, if◌then◌else◌,
  none, List, [], ◌∷◌, delete_where, Bool-cases, arith, Text,
}
use rewardpointsweb.Failure.{is_err}
use rewardpointsweb.Security.Throttle.{
  ThrottlePolicy, LoginAttempts, no_attempts, retry_after, is_over, after_failure, is_stale, get,
  sweep, put, save, lock_is_over, record_attempt, record_success, require_allowed,
  normalize_identifier, enabled, forget,
}
use rewardpointsweb.Security.Throttle.Table.{
  IsTable, get-put, get-keyed, get-delete, get-forget, save-IsTable, forget-IsTable,
}

-- What the sweep takes is what `is_stale` calls so.
sweep-is_stale :
    (now : ℕ) (p : ThrottlePolicy) (a : LoginAttempts)
    → (lock_is_over a.locked_until now && is_over a.window_started_at now p) ≡ is_stale a now p
unfolding is_stale
sweep-is_stale now p a = ground arith

is_stale-later :
    (now later : ℕ) (p : ThrottlePolicy) (a : LoginAttempts)
    → now ≤ later
    → is_stale a now p ≡ true
    → is_stale a later p ≡ true
unfolding is_stale
is_stale-later now later p a le h = ground arith

-- A stale row answers as a missing one.
stale-answers :
    (now : ℕ) (p : ThrottlePolicy) (a : LoginAttempts)
    → is_stale a now p ≡ true
    → (retry_after a now ≡ none)
      × (after_failure a now p ≡ after_failure (no_attempts a.purpose a.identifier) now p)
unfolding is_stale after_failure
stale-answers now p a h = ground arith

-- What the login handlers ask of the throttle.
pub data Request : Type 0 where
  asks : Text → Text → Request
  fails : Text → Text → Request
  succeeds : Text → Text → Request

-- Each request is at its time or later than the one before.
abbrev pub is_in_time : ℕ → List (ℕ × Request) → Bool
is_in_time now [] = true
is_in_time now ((next, r) ∷ rest) = leb now next && is_in_time next rest

module _ (lower : Text → Text) (pol : ThrottlePolicy) where
  -- An answer, whether it was a refusal or the start of a lock, and the table.
  abbrev pub serve : ℕ → Request → List LoginAttempts → Bool × List LoginAttempts
  serve now (asks purpose identifier) rows =
      (is_err (require_allowed lower pol purpose identifier now rows), rows)
  serve now (fails purpose identifier) rows = record_attempt lower pol purpose identifier now rows
  serve now (succeeds purpose identifier) rows =
      (false, record_success lower pol purpose identifier rows)

  -- The same, where no row is swept away.
  abbrev pub serve_kept : ℕ → Request → List LoginAttempts → Bool × List LoginAttempts
  serve_kept now (asks purpose identifier) rows = serve now (asks purpose identifier) rows
  serve_kept now (succeeds purpose identifier) rows = serve now (succeeds purpose identifier) rows
  serve_kept now (fails purpose identifier) rows = if not (enabled pol) then (false, rows) else (
    (record_attempt lower pol purpose identifier now rows).0,
    put (after_failure (get purpose (normalize_identifier lower identifier) rows) now pol) rows,
  )

  abbrev Alike : ℕ → List LoginAttempts → List LoginAttempts → Type 0
  Alike now rows kept =
      (p i : Text)
      → (get p i rows ≡ get p i kept)
        ⊎ ((get p i rows ≡ no_attempts p i) × (is_stale (get p i kept) now pol ≡ true))

  Alike-later :
      (now later : ℕ) (rows kept : List LoginAttempts)
      → now ≤ later
      → Alike now rows kept
      → Alike later rows kept
  Alike-later now later rows kept le h p i =
      ground (arith, h p i, is_stale-later now later pol (get p i kept))

  -- Rows that are alike answer alike.
  Alike-answers :
      (now : ℕ) (rows kept : List LoginAttempts) (p i : Text)
      → Alike now rows kept
      → (retry_after (get p i rows) now ≡ retry_after (get p i kept) now)
        × (after_failure (get p i rows) now pol ≡ after_failure (get p i kept) now pol)
  unfolding retry_after
  Alike-answers now rows kept p i h = elim (h p i) [
    | inl same ↦ (ap (λ a. retry_after a now) same, ap (λ a. after_failure a now pol) same)
    | inr (missing, stale) ↦
        let (free, starts) = stale-answers now pol (get p i kept) stale in
        let (purpose, identifier) = get-keyed p i kept in
        let empty : no_attempts (get p i kept).purpose (get p i kept).identifier ≡ no_attempts p i =
          rw (purpose, identifier) refl in
        (rw missing (sym free), rw missing (sym (starts ∙ ap (λ a. after_failure a now pol) empty)))
  ]

  -- A write keeps the tables alike.
  Alike-save :
      (now : ℕ) (rows kept : List LoginAttempts) (a : LoginAttempts)
      → IsTable rows
      → Alike now rows kept
      → Alike now (save a now pol rows) (put a kept)
  unfolding save sweep
  Alike-save now rows kept a t h p i =
      let q = λ (x : LoginAttempts).
        lock_is_over x.locked_until now && is_over x.window_started_at now pol in
      ground (
        arith,
        get-put p i a (delete_where q rows),
        get-put p i a kept,
        h p i,
        get-delete p i q rows t,
        sweep-is_stale now pol (get p i rows),
      )

  Alike-forget :
      (now : ℕ) (rows kept : List LoginAttempts) (q j : Text)
      → Alike now rows kept
      → Alike now (forget q j rows) (forget q j kept)
  unfolding is_stale
  Alike-forget now rows kept q j h p i =
      ground (arith, h p i, get-forget p i q j rows, get-forget p i q j kept)

  -- One request.
  record Served (now : ℕ) (r : Request) (rows kept : List LoginAttempts) : Type 0 where
    answer : (serve now r rows).0 ≡ (serve_kept now r kept).0
    alike : Alike now (serve now r rows).1 (serve_kept now r kept).1
    table : IsTable (serve now r rows).1

  serve-Served :
      (now : ℕ) (r : Request) (rows kept : List LoginAttempts)
      → IsTable rows
      → Alike now rows kept
      → Served now r rows kept
  unfolding require_allowed record_attempt record_success
  serve-Served now (asks purpose identifier) rows kept t h =
      let (retry, _) =
        Alike-answers now rows kept purpose (normalize_identifier lower identifier) h in
      record { answer = rw retry refl; alike = h; table = t }
  serve-Served now (fails purpose identifier) rows kept t h =
      let i = normalize_identifier lower identifier in
      let (retry, after) = Alike-answers now rows kept purpose i h in
      elim (Bool-cases (enabled pol)) [
        | inl on ↦ record {
          answer = rw on (rw (retry, after) refl);
          alike = rw on (
              rw after (Alike-save now rows kept (after_failure (get purpose i kept) now pol) t h));
          table = rw on (save-IsTable (after_failure (get purpose i rows) now pol) now pol rows t);
        }
        | inr off ↦ record { answer = rw off refl; alike = rw off h; table = rw off t }
      ]
  serve-Served now (succeeds purpose identifier) rows kept t h =
      let i = normalize_identifier lower identifier in
      elim (Bool-cases (enabled pol)) [
        | inl on ↦ record {
          answer = refl;
          alike = rw on (Alike-forget now rows kept purpose i h);
          table = rw on (forget-IsTable purpose i rows t);
        }
        | inr off ↦ record { answer = refl; alike = rw off h; table = rw off t }
      ]

  -- The answers to a list of requests, each with its time.
  abbrev pub answers : List (ℕ × Request) → List LoginAttempts → List Bool
  answers [] rows = []
  answers ((now, r) ∷ rest) rows = (serve now r rows).0 ∷ answers rest (serve now r rows).1

  abbrev pub answers_kept : List (ℕ × Request) → List LoginAttempts → List Bool
  answers_kept [] rows = []
  answers_kept ((now, r) ∷ rest) rows =
      (serve_kept now r rows).0 ∷ answers_kept rest (serve_kept now r rows).1

  answers-Alike :
      (now : ℕ) (requests : List (ℕ × Request)) (rows kept : List LoginAttempts)
      → is_in_time now requests ≡ true
      → IsTable rows
      → Alike now rows kept
      → answers requests rows ≡ answers_kept requests kept
  answers-Alike now [] rows kept o t h = refl
  answers-Alike now ((next, r) ∷ rest) rows kept o t h =
      let s = serve-Served next r rows kept t (Alike-later now next rows kept (ground arith) h) in
      rw (s.answer, answers-Alike next rest _ _ (ground arith) s.table s.alike) refl

  -- From any table without two rows of one key, the answers to requests in the order of their times are the
  -- same whether every failed login also sweeps the stale rows of everyone away or no row is ever
  -- swept away: the refusals and the starts of a lock.
  pub answers-answers_kept :
      (requests : List (ℕ × Request)) (rows : List LoginAttempts)
      → is_in_time 0 requests ≡ true
      → IsTable rows
      → answers requests rows ≡ answers_kept requests rows
  answers-answers_kept requests rows o t = answers-Alike 0 requests rows rows o t (λ p i. inl refl)

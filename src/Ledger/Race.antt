-- ===== src/Ledger/Race.antt =====
-- Requests that append at the same time. `append` looks for the key first and inserts later; in
-- between others may write. The look that follows a refused insertion sees what they committed.
use rewardpointsweb.Base.{
  ℕ, ◌≡◌, inl, inr, Bool, true, false, Option, none, some, ◌∷◌, List, [], first, exists, arith,
  Text, text_eq-true, Bool-cases,
}
use rewardpointsweb.Failure.{ok}
use rewardpointsweb.Values.Laws.{
  idempotency_key-cases, point_amount-cases, transaction_reason-cases,
}
use rewardpointsweb.Entities.{PointTransaction, Table}
use rewardpointsweb.Ledger.{
  NewTransaction, append, append_unless, insert_once, find_by_key, has_key, violates_unique,
}
use rewardpointsweb.Ledger.Append.{added_row}

-- The tables that `t` can have become by others' insertions, each after a look of its own, which
-- may be out of date.
pub data Grows (t : Table PointTransaction) : Table PointTransaction → Type 0 where
  here : Grows t t
  next :
      {u v : Table PointTransaction} (seen : Option PointTransaction) (new : NewTransaction)
      (now : ℕ) (r : PointTransaction)
      → Grows t u
      → append_unless seen new new.idempotency_key now u ≡ ok (r, v)
      → Grows t v

first-some_exists :
    (p : PointTransaction → Bool) (rows : List PointTransaction) (r : PointTransaction)
    → first p rows ≡ some r
    → exists p rows ≡ true
first-some_exists p [] r h = cc
first-some_exists p (x ∷ rows) r h = ground (arith, first-some_exists p rows r)

-- The row that an insertion adds has a key that no row has.
added-other_key :
    (new : NewTransaction) (now : ℕ) (u : Table PointTransaction) (l : ℕ) (key : Text)
    (r : PointTransaction)
    → violates_unique (added_row new now u) u.rows ≡ false
    → find_by_key l key u.rows ≡ some r
    → has_key l key (added_row new now u) ≡ false
unfolding violates_unique find_by_key
added-other_key new now u l key r free found =
    elim (Bool-cases (has_key l key (added_row new now u))) [
      | inl same ↦
          let same_ledger : new.ledger_id ≡ l = ground arith in
          let same_key : new.idempotency_key ≡ key =
            text_eq-true new.idempotency_key key (ground arith) in
          let present : exists (has_key new.ledger_id new.idempotency_key) u.rows ≡ true =
            rw (same_ledger, same_key) (first-some_exists (has_key l key) u.rows r found) in
          ground arith
      | inr other ↦ other
    ]

-- A row that has a key keeps it through another's insertion.
insert_once-keeps :
    (new : NewTransaction) (now : ℕ) (u v : Table PointTransaction) (x : PointTransaction) (l : ℕ)
    (key : Text) (r : PointTransaction)
    → insert_once new new.idempotency_key new.amount new.reason now u ≡ ok (x, v)
    → find_by_key l key u.rows ≡ some r
    → find_by_key l key v.rows ≡ some r
unfolding insert_once find_by_key
insert_once-keeps new now u v x l key r h found =
    elim (Bool-cases (violates_unique (added_row new now u) u.rows)) [
      | inl refused ↦ ground arith
      | inr free ↦ ground (arith, added-other_key new now u l key r free found)
    ]

append_unless-keeps :
    (seen : Option PointTransaction) (new : NewTransaction) (now : ℕ) (u v : Table PointTransaction)
    (x : PointTransaction) (l : ℕ) (key : Text) (r : PointTransaction)
    → append_unless seen new new.idempotency_key now u ≡ ok (x, v)
    → find_by_key l key u.rows ≡ some r
    → find_by_key l key v.rows ≡ some r
unfolding append_unless
append_unless-keeps (some e) new now u v x l key r h found = ground arith
append_unless-keeps none new now u v x l key r h found = ground (
  arith,
  point_amount-cases new.amount,
  transaction_reason-cases new.reason,
  insert_once-keeps new now u v x l key r,
)

-- So does a call that is made at once.
pub append-keeps :
    (new : NewTransaction) (now : ℕ) (u v : Table PointTransaction) (x : PointTransaction) (l : ℕ)
    (key : Text) (r : PointTransaction)
    → append new now u ≡ ok (x, v)
    → find_by_key l key u.rows ≡ some r
    → find_by_key l key v.rows ≡ some r
unfolding append
append-keeps new now u v x l key r h found = ground (
  arith,
  idempotency_key-cases new.idempotency_key,
  append_unless-keeps (find_by_key new.ledger_id new.idempotency_key u.rows) new now u v x l key r,
)

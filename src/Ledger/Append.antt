-- ===== src/Ledger/Append.antt =====
-- What `append` does: it returns the row that the key already has, or adds one admissible row.
use rewardpointsweb.Base.{
  ℕ, ◌+◌, ◌≡◌, ◌⊎◌, inl, inr, refl, false, ◌==◌, if◌then◌else◌, none, some, ◌∷◌, first-exists,
  arith, ◌+ℤ◌, Text, Option-cases, text_eq, text_eq_refl,
}
use rewardpointsweb.Failure.{ok}
use rewardpointsweb.Values.{key_max_length, reason_max_length}
use rewardpointsweb.Values.Laws.{
  IsText, IsAmount, idempotency_key-cases, point_amount-cases, transaction_reason-cases,
  idempotency_key-ok, point_amount-ok, transaction_reason-ok,
}
use rewardpointsweb.Entities.{PointTransaction, Table}
use rewardpointsweb.Ledger.{
  NewTransaction, append, append_unless, insert_once, row_of, find_by_key, has_key, violates_unique,
  taken,
}
use rewardpointsweb.Ledger.History.{IsValid, Undoes, Restates}
use rewardpointsweb.Ledger.Sum.{balance_in}

module _ (new : NewTransaction) (now : ℕ) (t : Table PointTransaction) where
  -- The row that `append` would add.
  abbrev pub added_row : PointTransaction
  added_row = row_of new new.idempotency_key new.amount new.reason now t.next_id

  -- The key has a row in the ledger: that row is returned, and the table is left alone.
  pub record IsReplay (r : PointTransaction) (t' : Table PointTransaction) : Type 0 where
    pub found : find_by_key new.ledger_id new.idempotency_key t.rows ≡ some r
    pub table : t' ≡ t

  -- The key is new in the ledger: one row is added, which passed every check.
  pub record IsAdded (r : PointTransaction) (t' : Table PointTransaction) : Type 0 where
    pub fresh : find_by_key new.ledger_id new.idempotency_key t.rows ≡ none
    pub key : IsText key_max_length new.idempotency_key
    pub amount : IsAmount new.amount
    pub reason : IsText reason_max_length new.reason
    pub unique : violates_unique added_row t.rows ≡ false
    pub row : r ≡ added_row
    pub table : t' ≡ record { rows = added_row ∷ t.rows; next_id = t.next_id + 1 }

  insert_once-cases :
      (r : PointTransaction) (t' : Table PointTransaction)
      → find_by_key new.ledger_id new.idempotency_key t.rows ≡ none
      → insert_once new new.idempotency_key new.amount new.reason now t ≡ ok (r, t')
      → (violates_unique added_row t.rows ≡ false)
        × (r ≡ added_row)
        × (t' ≡ record { rows = added_row ∷ t.rows; next_id = t.next_id + 1 })
  unfolding insert_once
  insert_once-cases r t' fresh h = ground arith

  -- A successful `append` is one or the other.
  pub append-cases :
      (r : PointTransaction) (t' : Table PointTransaction)
      → append new now t ≡ ok (r, t')
      → IsReplay r t' ⊎ IsAdded r t'
  unfolding append append_unless
  append-cases r t' h = elim (Option-cases (find_by_key new.ledger_id new.idempotency_key t.rows)) [
    | inl fresh ↦ ground (
      arith,
      idempotency_key-cases new.idempotency_key,
      point_amount-cases new.amount,
      transaction_reason-cases new.reason,
      insert_once-cases r t' fresh,
    )
    | inr (e, found) ↦ ground (arith, idempotency_key-cases new.idempotency_key)
  ]

  abbrev pub added_table : Table PointTransaction
  added_table = record { rows = added_row ∷ t.rows; next_id = t.next_id + 1 }

  -- With a new key, an admissible row is added.
  pub append-fresh :
      find_by_key new.ledger_id new.idempotency_key t.rows ≡ none
      → IsText key_max_length new.idempotency_key
      → IsAmount new.amount
      → IsText reason_max_length new.reason
      → violates_unique added_row t.rows ≡ false
      → append new now t ≡ ok (added_row, added_table)
  unfolding append append_unless insert_once
  append-fresh fresh key amount reason unique = ground (
    arith,
    idempotency_key-ok new.idempotency_key key,
    point_amount-ok new.amount amount,
    transaction_reason-ok new.reason reason,
  )

  -- A key that the ledger has gives its row back, and nothing is written.
  pub append-replay :
      (r : PointTransaction)
      → find_by_key new.ledger_id new.idempotency_key t.rows ≡ some r
      → IsText key_max_length new.idempotency_key
      → append new now t ≡ ok (r, t)
  unfolding append append_unless
  append-replay r found key = ground (arith, idempotency_key-ok new.idempotency_key key)

  -- Only the key and the two references can refuse a row.
  pub violates_unique-fresh :
      find_by_key new.ledger_id new.idempotency_key t.rows ≡ none
      → taken (λ r. r.reversal_of_id) new.reversal_of_id t.rows ≡ false
      → taken (λ r. r.corrects_id) new.corrects_id t.rows ≡ false
      → violates_unique added_row t.rows ≡ false
  unfolding violates_unique find_by_key
  violates_unique-fresh fresh free free' =
      ground (arith, first-exists (has_key new.ledger_id new.idempotency_key) t.rows fresh)

  -- A successful `append` keeps a well-formed table well-formed, if a request that names a row as
  -- reversed undoes an earlier row of its ledger, which is no reversal, by the opposite amount, and
  -- one that names a row as corrected restates a row that its ledger reverses.
  pub append-IsValid :
      (r : PointTransaction) (t' : Table PointTransaction)
      → append new now t ≡ ok (r, t')
      → IsValid t
      → Undoes new.reversal_of_id added_row t.rows
      → Restates new.corrects_id added_row t.rows
      → IsValid t'
  append-IsValid r t' h valid undoes restates = elim (append-cases r t' h) [
    | inl replay ↦ rw replay.table valid
    | inr added ↦ rw added.table (
      omega arith,
      record {
        amount = added.amount;
        reason = added.reason;
        key = added.key;
        unique = added.unique;
        undoes = undoes;
        restates = restates;
      },
      valid,
    )
  ]

  -- What an added row does to the balances: its amount, in its own ledger.
  pub balance_in-added :
      (l : ℕ)
      → balance_in l (added_row ∷ t.rows)
        ≡ (if new.ledger_id == l then new.amount +ℤ balance_in l t.rows else balance_in l t.rows)
  unfolding balance_in
  balance_in-added l = refl

  -- Nothing is written under a key that is no key.
  pub append-key :
      (r : PointTransaction) (t' : Table PointTransaction)
      → append new now t ≡ ok (r, t')
      → IsText key_max_length new.idempotency_key
  unfolding append
  append-key r t' h = ground (arith, idempotency_key-cases new.idempotency_key)

  find_by_key-added :
      find_by_key new.ledger_id new.idempotency_key added_table.rows ≡ some added_row
  unfolding find_by_key
  find_by_key-added = ground (arith, text_eq_refl new.idempotency_key)

  -- After a successful `append` the key has its row.
  pub append-found :
      (r : PointTransaction) (t' : Table PointTransaction)
      → append new now t ≡ ok (r, t')
      → find_by_key new.ledger_id new.idempotency_key t'.rows ≡ some r
  append-found r t' h = elim (append-cases r t' h) [
    | inl replay ↦ rw replay.table replay.found
    | inr added ↦ rw (added.table, added.row) find_by_key-added
  ]

  -- A key that is not the added row's stays free.
  pub find_by_key-added_ne :
      (key : Text)
      → find_by_key new.ledger_id key t.rows ≡ none
      → text_eq new.idempotency_key key ≡ false
      → find_by_key new.ledger_id key added_table.rows ≡ none
  unfolding find_by_key
  find_by_key-added_ne key fresh own = ground arith

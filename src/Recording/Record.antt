-- ===== src/Recording/Record.antt =====
-- What recording a row does to the balances, and that a row sent twice is written once.
use rewardpointsweb.Base.{ℕ, ◌≡◌, refl, ◌∙◌, ◌==◌, if◌then◌else◌, none, ◌∷◌, ℤ, ◌+ℤ◌, arith}
use rewardpointsweb.Failure.{ok, succeeds-steps}
use rewardpointsweb.Values.{key_max_length, reason_max_length}
use rewardpointsweb.Values.Laws.{IsText, IsAmount}
use rewardpointsweb.Entities.{PointTransaction, Table, Db}
use rewardpointsweb.Access.{LedgerAccess, modifiable_ledger}
use rewardpointsweb.Access.Laws.{modifiable_ledger-holds}
use rewardpointsweb.Ledger.{append, find_by_key, list_by_ledger, statement_balance, NewTransaction}
use rewardpointsweb.Ledger.Sum.{statement_balance-eq}
use rewardpointsweb.Ledger.Append.{
  added_row, added_table, append-fresh, append-key, append-found, append-replay,
  violates_unique-fresh, balance_in-added,
}
use rewardpointsweb.Recording.{
  RecordTransactionCommand, TransactionDto, record_transaction, recorded_row, just_written,
}

-- The balance that the statement of a ledger shows.
abbrev pub shown_balance : ℕ → Db → ℤ
shown_balance l db = statement_balance (list_by_ledger l db.transactions.rows)

-- Access depends on the memberships and the ledgers alone.
pub modifiable_ledger-transactions :
    (l a : ℕ) (db : Db) (t : Table PointTransaction)
    → modifiable_ledger l a (record db { transactions = t }) ≡ modifiable_ledger l a db
unfolding modifiable_ledger
modifiable_ledger-transactions l a db t = refl

-- The effect on the statements of a table that gained one row.
pub shown_balance-added :
    (new : NewTransaction) (now : ℕ) (db : Db) (l : ℕ)
    → shown_balance l (record db { transactions = added_table new now db.transactions })
      ≡ (if new.ledger_id == l then new.amount +ℤ shown_balance l db else shown_balance l db)
shown_balance-added new now db l =
    statement_balance-eq l (added_row new now db.transactions ∷ db.transactions.rows)
    ∙ balance_in-added new now db.transactions l
    ∙ rw (statement_balance-eq l db.transactions.rows)

module _ (c : RecordTransactionCommand) (now : ℕ) (db : Db) where
  -- The steps of a successful call.
  pub record_transaction-ok :
      (dto : TransactionDto) (db' : Db)
      → record_transaction c now db ≡ ok (dto, db')
      → (found : LedgerAccess) × (r : PointTransaction) × (t : Table PointTransaction)
        × (modifiable_ledger c.ledger_id c.account_id db ≡ ok found)
        × (append (recorded_row c found now) now db.transactions ≡ ok (r, t))
        × (dto ≡ just_written r found.membership.display_name)
        × (db' ≡ record db { transactions = t })
  unfolding record_transaction
  record_transaction-ok dto db' h =
      let (found, rest, granted) =
        succeeds-steps _ (modifiable_ledger c.ledger_id c.account_id db) h in
      let ((r, t), done, appended) =
        succeeds-steps _ (append (recorded_row c found now) now db.transactions) rest in
      (found, r, t, granted, appended, ground arith, ground arith)

  -- A guardian of the ledger's family who sends an admissible row under an admissible key that the
  -- ledger does not have succeeds: the row is written with the amount that was sent, the statement of that
  -- ledger moves by exactly this amount, and no other ledger's statement moves.
  pub record_transaction_moves :
      (found : LedgerAccess)
      → modifiable_ledger c.ledger_id c.account_id db ≡ ok found
      → find_by_key c.ledger_id c.idempotency_key db.transactions.rows ≡ none
      → IsText key_max_length c.idempotency_key
      → IsAmount c.amount
      → IsText reason_max_length c.reason
      → (dto : TransactionDto) × (db' : Db) × (record_transaction c now db ≡ ok (dto, db'))
        × (dto.amount ≡ c.amount)
        × ((l : ℕ)
            → shown_balance l db'
              ≡ (if c.ledger_id == l then c.amount +ℤ shown_balance l db else shown_balance l db))
  unfolding record_transaction just_written
  record_transaction_moves found granted fresh key amount reason =
      let new = recorded_row c found now in
      let (same, _, _, _) = modifiable_ledger-holds c.ledger_id c.account_id db found granted in
      let fresh' : find_by_key new.ledger_id c.idempotency_key db.transactions.rows ≡ none =
        rw same fresh in
      let appended =
        append-fresh new now db.transactions fresh' key amount reason
          (violates_unique-fresh new now db.transactions fresh' refl refl) in
      (
        just_written (added_row new now db.transactions) found.membership.display_name,
        record db { transactions = added_table new now db.transactions },
        rw granted (rw appended),
        refl,
        λ l. rw (shown_balance-added new now db l) (rw same),
      )

  -- Once a row was recorded, a call under its key, by the same account, on the same ledger answers
  -- as the first call did and writes nothing, whatever else it carries and whenever it comes.
  pub record_transaction_again :
      (dto : TransactionDto) (db' : Db) (again : RecordTransactionCommand) (later : ℕ)
      → record_transaction c now db ≡ ok (dto, db')
      → again.ledger_id ≡ c.ledger_id
      → again.account_id ≡ c.account_id
      → again.idempotency_key ≡ c.idempotency_key
      → record_transaction again later db' ≡ ok (dto, db')
  unfolding record_transaction
  record_transaction_again dto db' again later h ledger account key =
      let (found, r, t, granted, appended, dto_eq, db_eq) = record_transaction-ok dto db' h in
      let new = recorded_row c found now in
      let settled : append (recorded_row again found later) later t ≡ ok (r, t) =
        append-replay (recorded_row again found later) later t r
          (rw key (append-found new now db.transactions r t appended))
          (rw key (append-key new now db.transactions r t appended)) in
      rw (db_eq, dto_eq, ledger, account, modifiable_ledger-transactions, granted) (rw settled)

-- ===== src/Recording/Reverse.antt =====
-- What reversing a row does to the balances, and when it is refused.
use rewardpointsweb.Base.{
  ℕ, ◌≡◌, ◌≢◌, refl, ap, ◌<◌, ◌==◌, if◌then◌else◌, none, some, List, ◌&&◌, ◌+ℤ◌, arith, Text, neg,
}
use rewardpointsweb.Failure.{ok, err, transaction_already_reversed}
use rewardpointsweb.Values.{key_max_length}
use rewardpointsweb.Values.Laws.{IsText, IsAmount, IsAmount-neg, negated-ok}
use rewardpointsweb.Entities.{PointTransaction, Table, Db}
use rewardpointsweb.Access.{LedgerAccess, modifiable_ledger}
use rewardpointsweb.Ledger.{
  NewTransaction, append, find_by_key, find_in_ledger, find_reversal_of, plan_reversal,
  ReversalDraft,
}
use rewardpointsweb.Ledger.History.{
  IsValid, IsEntry, find_by_key-ne, IsHistory-first, IsHistory-first_lt, find_in_ledger-holds,
  find_reversal_of-taken, Undoes,
}
use rewardpointsweb.Ledger.Append.{
  added_row, added_table, append-fresh, append-replay, violates_unique-fresh, append-IsValid,
}
use rewardpointsweb.Recording.{
  ReverseTransactionCommand, TransactionDto, reverse_transaction, original_of, reversing_row,
  just_written,
}
use rewardpointsweb.Recording.Record.{
  shown_balance, shown_balance-added, modifiable_ledger-transactions,
}

-- What `original_of` vouches for.
pub original_of-holds :
    (l id : ℕ) (db : Db) (original : PointTransaction)
    → original_of l id db ≡ ok original
    → (find_in_ledger l id db.transactions.rows ≡ some original)
      × (original.id ≡ id)
      × (original.ledger_id ≡ l)
      × (find_reversal_of original.id db.transactions.rows ≡ none)
unfolding original_of
original_of-holds l id db original h =
    ground (arith, find_in_ledger-holds l id db.transactions.rows original)

-- The draft of a reversal.
abbrev pub reversal_draft : PointTransaction → ReversalDraft
reversal_draft t = record {
  ledger_id = t.ledger_id;
  amount = neg t.amount;
  reason = t.reason;
  reversal_of_id = t.id;
}

-- An ordinary row always has a reversal.
pub plan_reversal-ok :
    (t : PointTransaction)
    → t.reversal_of_id ≡ none
    → IsAmount t.amount
    → plan_reversal t ≡ ok (reversal_draft t)
unfolding plan_reversal
plan_reversal-ok t plain amount = rw plain (rw (negated-ok t.amount amount))

-- A well-formed table, a row of ledger `l` in it that is not reversed and no reversal, and a key.
module _ (t : Table PointTransaction) (l id : ℕ) (original : PointTransaction)
    (found : LedgerAccess) (key : Text) (now : ℕ) (valid : IsValid t)
    (there : find_in_ledger l id t.rows ≡ some original) (plain : original.reversal_of_id ≡ none)
    (standing : find_reversal_of original.id t.rows ≡ none) where
  abbrev pub reversal_request : NewTransaction
  reversal_request = reversing_row (reversal_draft original) found key now

  pub original-IsEntry : (older : List PointTransaction) × IsEntry original older
  original-IsEntry =
      IsHistory-first (λ r. r.id == id && r.ledger_id == l) t.next_id t.rows original valid
        (unfold find_in_ledger in there)

  pub plan_reversal-original : plan_reversal original ≡ ok (reversal_draft original)
  plan_reversal-original = plan_reversal-ok original plain original-IsEntry.1.amount

  -- The reversing row is written.
  pub append-reversal :
      find_by_key original.ledger_id key t.rows ≡ none
      → IsText key_max_length key
      → append reversal_request now t
        ≡ ok (added_row reversal_request now t, added_table reversal_request now t)
  append-reversal fresh is_key =
      append-fresh reversal_request now t fresh is_key
        (IsAmount-neg original.amount original-IsEntry.1.amount) original-IsEntry.1.reason
        (violates_unique-fresh reversal_request now t fresh
          (find_reversal_of-taken original.id t.rows standing) refl)

  reversal-Undoes : Undoes (some original.id) (added_row reversal_request now t) t.rows
  reversal-Undoes =
      let (same_id, same_ledger) = find_in_ledger-holds l id t.rows original there in
      (original, simp (same_id, same_ledger) there, plain, refl)

  -- The table with the reversing row is well-formed again.
  pub append-reversal-IsValid :
      find_by_key original.ledger_id key t.rows ≡ none
      → IsText key_max_length key
      → IsValid (added_table reversal_request now t)
  append-reversal-IsValid fresh is_key =
      append-IsValid reversal_request now t (added_row reversal_request now t)
        (added_table reversal_request now t) (append-reversal fresh is_key) valid reversal-Undoes tt

  original-lt : original.id < t.next_id
  original-lt =
      IsHistory-first_lt (λ r. r.id == id && r.ledger_id == l) t.next_id t.rows original valid
        (unfold find_in_ledger in there)

  -- Then the row is reversed.
  pub original_of-reversed :
      (db : Db)
      → original_of l id (record db { transactions = added_table reversal_request now t })
        ≡ err transaction_already_reversed
  unfolding original_of find_in_ledger find_reversal_of
  original_of-reversed db =
      ground (arith, original-lt, find_in_ledger-holds l id t.rows original there)

module _ (c : ReverseTransactionCommand) (now : ℕ) (db : Db) (found : LedgerAccess)
    (original : PointTransaction) (valid : IsValid db.transactions)
    (granted : modifiable_ledger c.ledger_id c.account_id db ≡ ok found)
    (standing : original_of c.ledger_id c.transaction_id db ≡ ok original)
    (plain : original.reversal_of_id ≡ none)
    (is_key : IsText key_max_length c.idempotency_key) where
  -- A guardian's reversal of a row that is in the ledger, is no reversal and is not reversed,
  -- under an admissible key that the ledger does not have, succeeds: the answer refers to the row, the
  -- ledger's statement moves by the opposite of the row's amount, no other statement moves, the
  -- table stays well-formed, and a second reversal of the row is refused.
  pub reverse_transaction_cancels :
      find_by_key c.ledger_id c.idempotency_key db.transactions.rows ≡ none
      → (dto : TransactionDto) × (db' : Db) × (reverse_transaction c now db ≡ ok (dto, db'))
        × (dto.reversal_of_id ≡ some c.transaction_id)
        × ((l : ℕ)
            → shown_balance l db' ≡ (
                if c.ledger_id == l
                then neg original.amount +ℤ shown_balance l db
                else shown_balance l db))
        × IsValid db'.transactions
        × ((later : ℕ) → reverse_transaction c later db' ≡ err transaction_already_reversed)
  unfolding reverse_transaction just_written
  reverse_transaction_cancels fresh =
      let t = db.transactions in
      let (there, same_id, same_ledger, unreversed) =
        original_of-holds c.ledger_id c.transaction_id db original standing in
      let fresh' : find_by_key original.ledger_id c.idempotency_key t.rows ≡ none =
        rw same_ledger fresh in
      let planned =
        plan_reversal-original t c.ledger_id c.transaction_id original found c.idempotency_key now
          valid there plain unreversed in
      let appended =
        append-reversal t c.ledger_id c.transaction_id original found c.idempotency_key now valid
          there plain unreversed fresh' is_key in
      let new = reversing_row (reversal_draft original) found c.idempotency_key now in
      (
        just_written (added_row new now t) found.membership.display_name,
        record db { transactions = added_table new now t },
        rw granted (rw standing (rw planned (rw appended))),
        ap some same_id,
        λ l. rw (shown_balance-added new now db l) (rw same_ledger),
        append-reversal-IsValid t c.ledger_id c.transaction_id original found c.idempotency_key now
            valid there plain unreversed fresh' is_key,
        λ later.
            rw (modifiable_ledger-transactions, granted)
              (rw (
                original_of-reversed t c.ledger_id c.transaction_id original found c.idempotency_key
                  now valid there plain unreversed db)),
      )

  -- A guardian's reversal, over a well-formed table, of a row that is in the ledger, is no reversal
  -- and is not reversed, under an admissible key that the ledger has for any row, reports success with that row and writes
  -- nothing: that row reverses another row or none, and the row that was to be reversed is still
  -- not reversed.
  pub reverse_transaction_key_in_use :
      (r : PointTransaction)
      → find_by_key c.ledger_id c.idempotency_key db.transactions.rows ≡ some r
      → (reverse_transaction c now db ≡ ok (just_written r found.membership.display_name, db))
        × (r.reversal_of_id ≢ some original.id)
        × (original_of c.ledger_id c.transaction_id db ≡ ok original)
  unfolding reverse_transaction
  reverse_transaction_key_in_use r used =
      let t = db.transactions in
      let (there, same_id, same_ledger, unreversed) =
        original_of-holds c.ledger_id c.transaction_id db original standing in
      let planned =
        plan_reversal-original t c.ledger_id c.transaction_id original found c.idempotency_key now
          valid there plain unreversed in
      let new = reversing_row (reversal_draft original) found c.idempotency_key now in
      let appended = append-replay new now t r (rw same_ledger used) is_key in
      (
        rw granted (rw standing (rw planned (rw appended))),
        λ e. ground (
          arith,
          find_by_key-ne c.ledger_id original.id c.idempotency_key t.rows r used unreversed,
        ),
        standing,
      )

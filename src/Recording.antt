-- ===== src/Recording.antt =====
-- Writing to a ledger: the use cases record_point_transaction.py, reverse_point_transaction.py and
-- correct_point_transaction.py of bounded_contexts/reward_points/application/use_cases, and
-- `just_written` of application/dto/ledger_dto.py. `now` is the reading of `utcnow()`; a time in a
-- command is UTC already, as `as_naive_utc` leaves it.
pub mod Record
pub mod Reverse
pub mod Correct
use rewardpointsweb.Base.{
  ℕ, ◌≡◌, Bool, false, not, is_some, holds, Option, none, some, ℤ, Text, codes, ◌==◌,
}
use rewardpointsweb.Failure.{
  Result, ok, err, raise_if, or_raise, ◌>>=◌, ◌>>◌, transaction_not_found,
  transaction_already_reversed, idempotency_key_reused,
}
use rewardpointsweb.Values.{idempotency_key, for_step}
use rewardpointsweb.Entities.{PointTransaction, Db}
use rewardpointsweb.Access.{LedgerAccess, modifiable_ledger}
use rewardpointsweb.Ledger.{
  NewTransaction, ReversalDraft, CorrectionDraft, plan_reversal, plan_correction, find_in_ledger,
  find_reversal_of, append, or_else,
}

-- `TransactionDTO`
pub record TransactionDto : Type 0 where
  pub id : ℕ
  pub amount : ℤ
  pub reason : Text
  pub occurred_at : ℕ
  pub created_at : ℕ
  pub reversal_of_id : Option ℕ
  pub corrects_id : Option ℕ
  pub is_reversed : Bool
  pub granted_by : Option Text

-- `just_written`
unfoldable pub just_written : PointTransaction → Text → TransactionDto
just_written t granted_by = record {
  id = t.id;
  amount = t.amount;
  reason = t.reason;
  occurred_at = t.occurred_at;
  created_at = t.created_at;
  reversal_of_id = t.reversal_of_id;
  corrects_id = t.corrects_id;
  is_reversed = false;
  granted_by = some granted_by;
}

-- `RecordTransactionCommand`
pub record RecordTransactionCommand : Type 0 where
  pub ledger_id : ℕ
  pub account_id : ℕ
  pub amount : ℤ
  pub reason : Text
  pub idempotency_key : Text
  pub occurred_at : Option ℕ

-- The row that `RecordPointTransactionUseCase.execute` asks for.
abbrev pub recorded_row : RecordTransactionCommand → LedgerAccess → ℕ → NewTransaction
recorded_row c found now = record {
  ledger_id = found.ledger.id;
  amount = c.amount;
  reason = c.reason;
  granted_by_membership_id = some found.membership.id;
  occurred_at = or_else c.occurred_at now;
  idempotency_key = c.idempotency_key;
  reversal_of_id = none;
  corrects_id = none;
}

-- `RecordPointTransactionUseCase.execute`
unfoldable pub record_transaction : RecordTransactionCommand → ℕ → Db → Result (TransactionDto × Db)
record_transaction c now db = do
  found ← modifiable_ledger c.ledger_id c.account_id db
  (transaction, transactions) ← append (recorded_row c found now) now db.transactions
  ok (
    just_written transaction found.membership.display_name,
    record db { transactions = transactions },
  )

-- `ReverseTransactionCommand`
pub record ReverseTransactionCommand : Type 0 where
  pub ledger_id : ℕ
  pub transaction_id : ℕ
  pub account_id : ℕ
  pub idempotency_key : Text

-- The original of a reversal or a correction: it is in the ledger and not reversed yet.
-- (`CorrectPointTransactionUseCase._original`; the same lines in
-- `ReversePointTransactionUseCase.execute`.)
unfoldable pub original_of : ℕ → ℕ → Db → Result PointTransaction
original_of ledger_id transaction_id db = do
  original ←
      or_raise (find_in_ledger ledger_id transaction_id db.transactions.rows) transaction_not_found
  raise_if (is_some (find_reversal_of original.id db.transactions.rows))
      transaction_already_reversed
  ok original

-- The reversing row of both use cases.
abbrev pub reversing_row : ReversalDraft → LedgerAccess → Text → ℕ → NewTransaction
reversing_row draft found key now = record {
  ledger_id = draft.ledger_id;
  amount = draft.amount;
  reason = draft.reason;
  granted_by_membership_id = some found.membership.id;
  occurred_at = now;
  idempotency_key = key;
  reversal_of_id = some draft.reversal_of_id;
  corrects_id = none;
}

-- `ReversePointTransactionUseCase.execute`
unfoldable pub reverse_transaction :
    ReverseTransactionCommand → ℕ → Db → Result (TransactionDto × Db)
reverse_transaction c now db = do
  found ← modifiable_ledger c.ledger_id c.account_id db
  original ← original_of c.ledger_id c.transaction_id db
  draft ← plan_reversal original
  (reversal, transactions) ←
      append (reversing_row draft found c.idempotency_key now) now db.transactions
  ok (
    just_written reversal found.membership.display_name,
    record db { transactions = transactions },
  )

-- `_REVERSAL_STEP`
abbrev pub reversal_step : Text
reversal_step = codes "reversal"

-- `_CORRECTION_STEP`
abbrev pub correction_step : Text
correction_step = codes "correction"

-- `CorrectTransactionCommand`
pub record CorrectTransactionCommand : Type 0 where
  pub ledger_id : ℕ
  pub transaction_id : ℕ
  pub account_id : ℕ
  pub amount : ℤ
  pub reason : Text
  pub occurred_at : Option ℕ
  pub idempotency_key : Text

-- `CorrectionDTO`
pub record CorrectionDto : Type 0 where
  pub reversal : TransactionDto
  pub correction : TransactionDto

-- The row with the right content.
abbrev pub correcting_row : CorrectionDraft → LedgerAccess → Text → NewTransaction
correcting_row draft found key = record {
  ledger_id = draft.ledger_id;
  amount = draft.amount;
  reason = draft.reason;
  granted_by_membership_id = some found.membership.id;
  occurred_at = draft.occurred_at;
  idempotency_key = key;
  reversal_of_id = none;
  corrects_id = some draft.corrects_id;
}

-- `CorrectPointTransactionUseCase.execute`
unfoldable pub correct_transaction :
    CorrectTransactionCommand → ℕ → Db → Result (CorrectionDto × Db)
correct_transaction c now db = do
  found ← modifiable_ledger c.ledger_id c.account_id db
  original ← original_of c.ledger_id c.transaction_id db
  corrected ← plan_correction original c.amount c.reason c.occurred_at
  undo ← plan_reversal original
  key ← idempotency_key c.idempotency_key
  reversal_key ← for_step key reversal_step
  (reversal, reversed) ← append (reversing_row undo found reversal_key now) now db.transactions
  raise_if (not (holds reversal.reversal_of_id undo.reversal_of_id)) idempotency_key_reused
  correction_key ← for_step key correction_step
  (correction, corrected_table) ←
      append (correcting_row corrected found correction_key) now reversed
  ok (
    record {
      reversal = just_written reversal found.membership.display_name;
      correction = just_written correction found.membership.display_name;
    },
    record db { transactions = corrected_table },
  )

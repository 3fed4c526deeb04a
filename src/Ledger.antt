-- ===== src/Ledger.antt =====
-- The append-only ledger: domain/entities/point_transaction.py, domain/services/
-- ledger_statement.py and infrastructure/sql_point_transaction_repository.py of
-- bounded_contexts/reward_points. `now` is the clock's reading, the default of `created_at`.
pub mod Sum
pub mod History
pub mod Append
pub mod Race
use rewardpointsweb.Base.{
  ℕ, ◌+◌, ◌≡◌, Bool, true, false, ◌&&◌, ◌||◌, not, if◌then◌else◌, ◌==◌, leb, ltb, is_some, holds,
  Option, none, some, List, [], ◌∷◌, map, length, first, select, delete_where, exists, ℤ, pos, ◌+ℤ◌,
  neg, Text, text_eq,
}
use rewardpointsweb.Failure.{
  Result, ok, err, raise_if, ◌>>=◌, ◌>>◌, integrity_error, reversal_of_reversal,
  correction_of_reversal,
}
use rewardpointsweb.Values.{transaction_reason, point_amount, negated, idempotency_key}
use rewardpointsweb.Entities.{PointTransaction, Table, insert_row}

-- `NewTransaction`
pub record NewTransaction : Type 0 where
  pub ledger_id : ℕ
  pub amount : ℤ
  pub reason : Text
  pub granted_by_membership_id : Option ℕ
  pub occurred_at : ℕ
  pub idempotency_key : Text
  pub reversal_of_id : Option ℕ
  pub corrects_id : Option ℕ

-- `PointTransaction.is_reversal`
abbrev pub is_reversal : PointTransaction → Bool
is_reversal t = is_some t.reversal_of_id

-- `ReversalDraft`
pub record ReversalDraft : Type 0 where
  pub ledger_id : ℕ
  pub amount : ℤ
  pub reason : Text
  pub reversal_of_id : ℕ

-- `CorrectionDraft`
pub record CorrectionDraft : Type 0 where
  pub ledger_id : ℕ
  pub amount : ℤ
  pub reason : Text
  pub occurred_at : ℕ
  pub corrects_id : ℕ

-- `PointTransaction.plan_reversal`
unfoldable pub plan_reversal : PointTransaction → Result ReversalDraft
plan_reversal t = do
  raise_if (is_reversal t) reversal_of_reversal
  amount ← negated t.amount
  ok (record { ledger_id = t.ledger_id; amount = amount; reason = t.reason; reversal_of_id = t.id })

-- `value or default`
abbrev pub or_else : Option ℕ → ℕ → ℕ
or_else none d = d
or_else (some v) d = v

-- `PointTransaction.plan_correction`
unfoldable pub plan_correction : PointTransaction → ℤ → Text → Option ℕ → Result CorrectionDraft
plan_correction t amount reason occurred_at = do
  raise_if (is_reversal t) correction_of_reversal
  a ← point_amount amount
  r ← transaction_reason reason
  ok (record {
    ledger_id = t.ledger_id;
    amount = a;
    reason = r;
    occurred_at = or_else occurred_at t.occurred_at;
    corrects_id = t.id;
  })

-- The rows that `_find_by_key` asks for.
abbrev pub has_key : ℕ → Text → PointTransaction → Bool
has_key ledger_id key r = r.ledger_id == ledger_id && text_eq r.idempotency_key key

-- `_find_by_key`
unfoldable pub find_by_key : ℕ → Text → List PointTransaction → Option PointTransaction
find_by_key ledger_id key rows = first (has_key ledger_id key) rows

-- `find_in_ledger`
unfoldable pub find_in_ledger : ℕ → ℕ → List PointTransaction → Option PointTransaction
find_in_ledger ledger_id transaction_id rows =
    first (λ r. r.id == transaction_id && r.ledger_id == ledger_id) rows

-- `find_reversal_of`
unfoldable pub find_reversal_of : ℕ → List PointTransaction → Option PointTransaction
find_reversal_of transaction_id rows = first (λ r. holds r.reversal_of_id transaction_id) rows

-- `count_by_ledger`
unfoldable pub count_by_ledger : ℕ → List PointTransaction → ℕ
count_by_ledger ledger_id rows = length (select (λ r. r.ledger_id == ledger_id) rows)

-- `delete_by_ledger`: the reversals first, then what is left.
unfoldable pub delete_by_ledger : ℕ → Table PointTransaction → Table PointTransaction
delete_by_ledger ledger_id t =
    let undone = delete_where (λ r. r.ledger_id == ledger_id && is_reversal r) t.rows in
    record t { rows = delete_where (λ r. r.ledger_id == ledger_id) undone }

-- A unique column that may be null: null equals nothing.
abbrev pub taken : (PointTransaction → Option ℕ) → Option ℕ → List PointTransaction → Bool
taken column none rows = false
taken column (some v) rows = exists (λ r. holds (column r) v) rows

-- The unique constraints of `point_transactions` refuse the row.
unfoldable pub violates_unique : PointTransaction → List PointTransaction → Bool
violates_unique row rows =
    exists (has_key row.ledger_id row.idempotency_key) rows
    || taken (λ r. r.reversal_of_id) row.reversal_of_id rows
    || taken (λ r. r.corrects_id) row.corrects_id rows

-- The row that `append` adds.
abbrev pub row_of : NewTransaction → Text → ℤ → Text → ℕ → ℕ → PointTransaction
row_of new key amount reason now id = record {
  id = id;
  ledger_id = new.ledger_id;
  amount = amount;
  reason = reason;
  granted_by_membership_id = new.granted_by_membership_id;
  occurred_at = new.occurred_at;
  created_at = now;
  idempotency_key = key;
  reversal_of_id = new.reversal_of_id;
  corrects_id = new.corrects_id;
}

-- The handler of `IntegrityError` in `append`.
abbrev pub or_duplicate :
    Option PointTransaction
    → Table PointTransaction
    → Result (PointTransaction × Table PointTransaction)
or_duplicate none t = err integrity_error
or_duplicate (some duplicated) t = ok (duplicated, t)

-- The second half of `append`: the insertion in a savepoint. The table is the one that the
-- insertion meets, to which others may have added rows since the first half looked.
unfoldable pub insert_once :
    NewTransaction
    → Text
    → ℤ
    → Text
    → ℕ
    → Table PointTransaction
    → Result (PointTransaction × Table PointTransaction)
insert_once new key amount reason now t =
    if violates_unique (row_of new key amount reason now t.next_id) t.rows
    then or_duplicate (find_by_key new.ledger_id key t.rows) t
    else ok (insert_row (row_of new key amount reason now) t)

-- The first half of `append` has looked for the key.
unfoldable pub append_unless :
    Option PointTransaction
    → NewTransaction
    → Text
    → ℕ
    → Table PointTransaction
    → Result (PointTransaction × Table PointTransaction)
append_unless (some existing) new key now t = ok (existing, t)
append_unless none new key now t = do
  amount ← point_amount new.amount
  reason ← transaction_reason new.reason
  insert_once new key amount reason now t

-- `append`
unfoldable pub append :
    NewTransaction → ℕ → Table PointTransaction → Result (PointTransaction × Table PointTransaction)
append new now t = do
  key ← idempotency_key new.idempotency_key
  append_unless (find_by_key new.ledger_id key t.rows) new key now t

-- The order of `list_by_ledger`: the latest event first, then the higher identifier.
unfoldable pub comes_first : PointTransaction → PointTransaction → Bool
comes_first a b =
    ltb b.occurred_at a.occurred_at || (a.occurred_at == b.occurred_at && ltb b.id a.id)

unfoldable pub place : PointTransaction → List PointTransaction → List PointTransaction
unfolding comes_first
place r [] = r ∷ []
place r (s ∷ rows) = if comes_first s r then s ∷ place r rows else r ∷ s ∷ rows

unfoldable pub in_order : List PointTransaction → List PointTransaction
unfolding place
in_order [] = []
in_order (r ∷ rows) = place r (in_order rows)

-- `list_by_ledger`
unfoldable pub list_by_ledger : ℕ → List PointTransaction → List PointTransaction
unfolding in_order
list_by_ledger ledger_id rows = in_order (select (λ r. r.ledger_id == ledger_id) rows)

-- `sum`, which adds from the left
unfoldable pub sum_from : ℤ → List PointTransaction → ℤ
sum_from acc [] = acc
sum_from acc (r ∷ rows) = sum_from (acc +ℤ r.amount) rows

-- `LedgerStatement.balance`
unfoldable pub statement_balance : List PointTransaction → ℤ
unfolding sum_from
statement_balance transactions = sum_from (pos 0) transactions

-- `LedgerStatement.reversed_transaction_ids`, a set of which only membership is asked.
unfoldable pub is_reversed_in : List PointTransaction → ℕ → Bool
is_reversed_in transactions id = exists (λ r. holds r.reversal_of_id id) transactions

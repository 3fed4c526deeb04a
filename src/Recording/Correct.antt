-- ===== src/Recording/Correct.antt =====
-- What correcting a row does to the balances, and when it is refused.
use rewardpointsweb.Base.{
  ℕ, ◌≡◌, ==_refl, refl, ap, true, false, ◌==◌, if◌then◌else◌, none, some, ◌∷◌, ◌+ℤ◌, arith, Text,
  text_eq, text_eq-append, neg, exists,
}
use rewardpointsweb.Failure.{ok, err, idempotency_key_reused}
use rewardpointsweb.Values.{
  key_max_length, reason_max_length, max_base_length, step_key, step_separator, for_step,
  idempotency_key,
}
use rewardpointsweb.Values.Laws.{
  IsText, IsAmount, idempotency_key-ok, for_step-ok, point_amount-ok, transaction_reason-ok,
  IsText-step_key,
}
use rewardpointsweb.Entities.{PointTransaction, Table, Db}
use rewardpointsweb.Access.{LedgerAccess, modifiable_ledger}
use rewardpointsweb.Ledger.{
  CorrectionDraft, ReversalDraft, NewTransaction, append, find_by_key, find_in_ledger,
  find_reversal_of, plan_correction, plan_reversal, or_else, taken,
}
use rewardpointsweb.Ledger.History.{IsValid, find_by_key-ne, corrects-taken, reverses_in}
use rewardpointsweb.Ledger.Append.{
  added_row, added_table, find_by_key-added_ne, append-fresh, append-replay, violates_unique-fresh,
  append-IsValid,
}
use rewardpointsweb.Recording.{
  CorrectTransactionCommand, CorrectionDto, correct_transaction, original_of, reversing_row,
  correcting_row, just_written, reversal_step, correction_step,
}
use rewardpointsweb.Recording.Record.{shown_balance, shown_balance-added}
use rewardpointsweb.Recording.Reverse.{
  original_of-holds, reversal_draft, plan_reversal-original, append-reversal,
  append-reversal-IsValid,
}

-- The draft of a correction.
abbrev pub correction_draft : PointTransaction → CorrectTransactionCommand → CorrectionDraft
correction_draft t c = record {
  ledger_id = t.ledger_id;
  amount = c.amount;
  reason = c.reason;
  occurred_at = or_else c.occurred_at t.occurred_at;
  corrects_id = t.id;
}

plan_correction-ok :
    (t : PointTransaction) (c : CorrectTransactionCommand)
    → t.reversal_of_id ≡ none
    → IsAmount c.amount
    → IsText reason_max_length c.reason
    → plan_correction t c.amount c.reason c.occurred_at ≡ ok (correction_draft t c)
unfolding plan_correction
plan_correction-ok t c plain amount reason =
    rw plain (rw (point_amount-ok c.amount amount) (rw (transaction_reason-ok c.reason reason)))

-- The reversing row does not take the correcting row's key.
steps_differ :
    (key : Text) → text_eq (step_key key reversal_step) (step_key key correction_step) ≡ false
steps_differ key =
    text_eq-append key (step_separator ∷ reversal_step) (step_separator ∷ correction_step)

-- Once the reversing row stands, the column that names the restated row is still free.
restated_free :
    (new : NewTransaction) (now : ℕ) (t : Table PointTransaction) (o : ℕ)
    → new.corrects_id ≡ none
    → taken (λ r. r.corrects_id) (some o) t.rows ≡ false
    → taken (λ r. r.corrects_id) (some o) (added_table new now t).rows ≡ false
restated_free new now t o plain free = ground arith

-- The reversing row is what a correction has to follow.
reversal-Restates :
    (draft : ReversalDraft) (found : LedgerAccess) (key : Text) (now : ℕ)
    (t : Table PointTransaction)
    → exists
        (reverses_in draft.ledger_id draft.reversal_of_id)
        (added_table (reversing_row draft found key now) now t).rows
      ≡ true
reversal-Restates draft found key now t = ground arith

module _ (c : CorrectTransactionCommand) (now : ℕ) (db : Db) (found : LedgerAccess)
    (original : PointTransaction) (valid : IsValid db.transactions)
    (granted : modifiable_ledger c.ledger_id c.account_id db ≡ ok found)
    (standing : original_of c.ledger_id c.transaction_id db ≡ ok original)
    (plain : original.reversal_of_id ≡ none) (is_key : IsText max_base_length c.idempotency_key)
    (amount : IsAmount c.amount) (reason : IsText reason_max_length c.reason) where
  abbrev first_key : Text
  first_key = step_key c.idempotency_key reversal_step

  abbrev last_key : Text
  last_key = step_key c.idempotency_key correction_step

  -- The two rows that are asked for, and the table between them.
  abbrev undo : NewTransaction
  undo = reversing_row (reversal_draft original) found first_key now

  abbrev restate : NewTransaction
  restate = correcting_row (correction_draft original c) found last_key

  abbrev between : Table PointTransaction
  between = added_table undo now db.transactions

  is_first : IsText key_max_length first_key
  is_first = IsText-step_key c.idempotency_key reversal_step (omega arith) is_key.1

  there : find_in_ledger c.ledger_id c.transaction_id db.transactions.rows ≡ some original
  there = (original_of-holds c.ledger_id c.transaction_id db original standing).0

  same_id : original.id ≡ c.transaction_id
  same_id = (original_of-holds c.ledger_id c.transaction_id db original standing).1

  same_ledger : original.ledger_id ≡ c.ledger_id
  same_ledger = (original_of-holds c.ledger_id c.transaction_id db original standing).2

  unreversed : find_reversal_of original.id db.transactions.rows ≡ none
  unreversed = (original_of-holds c.ledger_id c.transaction_id db original standing).3

  -- What comes before the two writes goes through.
  planned :
      (plan_correction original c.amount c.reason c.occurred_at ≡ ok (correction_draft original c))
      × (plan_reversal original ≡ ok (reversal_draft original))
      × (idempotency_key c.idempotency_key ≡ ok c.idempotency_key)
      × (for_step c.idempotency_key reversal_step ≡ ok first_key)
      × (for_step c.idempotency_key correction_step ≡ ok last_key)
  planned = (
    plan_correction-ok original c plain amount reason,
    plan_reversal-original db.transactions c.ledger_id c.transaction_id original found first_key now
        valid there plain unreversed,
    idempotency_key-ok c.idempotency_key (is_key.0, omega (arith, is_key.1)),
    for_step-ok c.idempotency_key reversal_step (omega arith) (omega arith) is_key.1,
    for_step-ok c.idempotency_key correction_step (omega arith) (omega arith) is_key.1,
  )

  undone :
      find_by_key original.ledger_id first_key db.transactions.rows ≡ none
      → (append undo now db.transactions ≡ ok (added_row undo now db.transactions, between))
        × IsValid between
  undone fresh = (
    append-reversal db.transactions c.ledger_id c.transaction_id original found first_key now valid
        there plain unreversed fresh is_first,
    append-reversal-IsValid db.transactions c.ledger_id c.transaction_id original found first_key
        now valid there plain unreversed fresh is_first,
  )

  restated :
      IsValid between
      → find_by_key original.ledger_id last_key db.transactions.rows ≡ none
      → (append restate now between
          ≡ ok (added_row restate now between, added_table restate now between))
        × IsValid (added_table restate now between)
  restated valid' fresh =
      let fresh' =
        find_by_key-added_ne undo now db.transactions last_key fresh
          (steps_differ c.idempotency_key) in
      let free = restated_free undo now db.transactions original.id refl (
        corrects-taken db.transactions.next_id original.id db.transactions.rows valid unreversed) in
      let appended =
        append-fresh restate now between fresh'
          (IsText-step_key c.idempotency_key correction_step (omega arith) is_key.1) amount reason
          (violates_unique-fresh restate now between fresh' refl free) in
      (
        appended,
        append-IsValid restate now between (added_row restate now between)
            (added_table restate now between) appended valid' tt
            (reversal-Restates (reversal_draft original) found first_key now db.transactions),
      )

  -- A guardian's correction of a row that is in the ledger, is no reversal and is not reversed,
  -- with an admissible amount and reason and a key whose two steps the ledger does not have,
  -- succeeds: one row reverses the row and one restates it, the ledger's statement moves by the
  -- new amount less the row's amount, no other statement moves, and the table stays well-formed.
  pub correct_transaction_moves :
      find_by_key c.ledger_id (step_key c.idempotency_key reversal_step) db.transactions.rows ≡ none
      → find_by_key c.ledger_id (step_key c.idempotency_key correction_step) db.transactions.rows
        ≡ none
      → (dto : CorrectionDto) × (db' : Db) × (correct_transaction c now db ≡ ok (dto, db'))
        × (dto.reversal.reversal_of_id ≡ some c.transaction_id)
        × (dto.correction.corrects_id ≡ some c.transaction_id)
        × ((l : ℕ)
            → shown_balance l db' ≡ (
                if c.ledger_id == l
                then c.amount +ℤ (neg original.amount +ℤ shown_balance l db)
                else shown_balance l db))
        × IsValid db'.transactions
  unfolding correct_transaction just_written
  correct_transaction_moves fresh fresh' =
      let (appended, valid') = undone (rw same_ledger fresh) in
      let (appended', valid'') = restated valid' (rw same_ledger fresh') in
      let (plan, plan', key, step, step') = planned in
      let after = record db { transactions = between } in
      let name = found.membership.display_name in
      (
        record {
          reversal = just_written (added_row undo now db.transactions) name;
          correction = just_written (added_row restate now between) name;
        },
        record db { transactions = added_table restate now between },
        rw granted (
            rw standing (
              rw plan (
                rw plan' (rw key (rw step (rw appended (rw ==_refl (rw step' (rw appended'))))))))),
        ap some same_id,
        ap some same_id,
        λ l.
            rw (shown_balance-added restate now after l, shown_balance-added undo now db l)
              (simp same_ledger (ground arith)),
        valid'',
      )

  -- A guardian's correction, over a well-formed table, of a row that is in the ledger, is no reversal
  -- and is not reversed, with an admissible amount and reason and an admissible key whose reversal
  -- step the ledger has for any row, is refused as a reused key.
  pub correct_transaction_key_reused :
      (r : PointTransaction)
      → find_by_key c.ledger_id (step_key c.idempotency_key reversal_step) db.transactions.rows
        ≡ some r
      → correct_transaction c now db ≡ err idempotency_key_reused
  unfolding correct_transaction
  correct_transaction_key_reused r used =
      let (plan, plan', key, step, step') = planned in
      let appended = append-replay undo now db.transactions r (rw same_ledger used) is_first in
      let other =
        find_by_key-ne c.ledger_id original.id first_key db.transactions.rows r used unreversed in
      rw granted (rw standing (rw plan (rw plan' (rw key (rw step (rw appended (rw other)))))))

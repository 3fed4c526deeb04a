-- ===== src/Tests/Recording.antt =====
-- Recording, reversing and correcting rows of the sample ledger.
use rewardpointsweb.Base.{
  ℕ, ◌∷◌, [], Option, false, ◌≡◌, ◌≢◌, refl, ◌==◌, if◌then◌else◌, none, some, ℤ, pos, negsuc, ◌+ℤ◌,
  neg, codes, arith, is_blank,
}
use rewardpointsweb.Failure.{
  Result, ok, err, transaction_already_reversed, family_access_denied, idempotency_key_reused,
}
use rewardpointsweb.Values.{idempotency_key, point_amount, transaction_reason, step_key}
use rewardpointsweb.Entities.{PointTransaction, Db}
use rewardpointsweb.Access.{LedgerAccess, modifiable_ledger}
use rewardpointsweb.Ledger.{
  find_in_ledger, find_reversal_of, find_by_key, violates_unique, append, append_unless,
  insert_once, statement_balance, list_by_ledger,
}
use rewardpointsweb.Ledger.History.{IsValid}
use rewardpointsweb.Recording.{
  RecordTransactionCommand, TransactionDto, ReverseTransactionCommand, CorrectTransactionCommand,
  CorrectionDto, record_transaction, reverse_transaction, correct_transaction, original_of,
  just_written, reversal_step,
}
use rewardpointsweb.Recording.Record.{
  shown_balance, record_transaction_moves, record_transaction_again,
}
use rewardpointsweb.Recording.Reverse.{reverse_transaction_cancels, reverse_transaction_key_in_use}
use rewardpointsweb.Recording.Correct.{correct_transaction_moves, correct_transaction_key_reused}
use rewardpointsweb.Tests.Samples.{sample, sample-IsValid, the_owner, the_ledger, dishes, game}

abbrev owner_access : LedgerAccess
owner_access = record { membership = the_owner; ledger = the_ledger }

owner_granted : modifiable_ledger 1 10 sample ≡ ok owner_access
unfolding modifiable_ledger
owner_granted = refl

abbrev praise : RecordTransactionCommand
praise = record {
  ledger_id = 1;
  account_id = 10;
  amount = pos 30;
  reason = codes "homework";
  idempotency_key = codes "k3";
  occurred_at = none;
}

record_transaction_moves_example :
    (dto : TransactionDto) × (db' : Db) × (record_transaction praise 40 sample ≡ ok (dto, db'))
    × (dto.amount ≡ pos 30)
    × ((l : ℕ)
        → shown_balance l db'
          ≡ (if 1 == l then pos 30 +ℤ shown_balance l sample else shown_balance l sample))
unfolding find_by_key is_blank
record_transaction_moves_example =
    record_transaction_moves praise 40 sample owner_access owner_granted refl (refl, omega arith)
      (omega arith) (refl, omega arith)

-- The statement after it shows 50 - 20 + 30.
abbrev balance_after : Result (TransactionDto × Db) → Option ℤ
balance_after (ok (dto, db)) = some (shown_balance 1 db)
balance_after (err e) = none

record_praise : balance_after (record_transaction praise 40 sample) ≡ some (pos 60)
unfolding record_transaction modifiable_ledger append append_unless insert_once violates_unique
    find_by_key idempotency_key point_amount transaction_reason is_blank statement_balance
    list_by_ledger ◌+ℤ◌ just_written
record_praise = refl

-- A child may not write, not even to the own ledger.
child_refused :
    record_transaction (record praise { account_id = 12 }) 40 sample ≡ err family_access_denied
unfolding record_transaction modifiable_ledger
child_refused = refl

abbrev recorded : Db
recorded = record sample {
  transactions = record {
    rows =
        record {
          id = 3;
          ledger_id = 1;
          amount = pos 30;
          reason = codes "homework";
          granted_by_membership_id = some 1;
          occurred_at = 40;
          created_at = 40;
          idempotency_key = codes "k3";
          reversal_of_id = none;
          corrects_id = none;
        }
        ∷ game
        ∷ dishes
        ∷ [];
    next_id = 4;
  };
}

abbrev praise_answer : TransactionDto
praise_answer = record {
  id = 3;
  amount = pos 30;
  reason = codes "homework";
  occurred_at = 40;
  created_at = 40;
  reversal_of_id = none;
  corrects_id = none;
  is_reversed = false;
  granted_by = some (codes "Aki");
}

record_praise_ok : record_transaction praise 40 sample ≡ ok (praise_answer, recorded)
unfolding record_transaction modifiable_ledger append append_unless insert_once violates_unique
    find_by_key idempotency_key point_amount transaction_reason is_blank just_written
record_praise_ok = refl

record_transaction_again_example :
    record_transaction (record praise { amount = pos 99 }) 50 recorded
    ≡ ok (praise_answer, recorded)
record_transaction_again_example =
    record_transaction_again praise 40 sample praise_answer recorded
      (record praise { amount = pos 99 }) 50 record_praise_ok refl refl refl

abbrev undo_game : ReverseTransactionCommand
undo_game = record {
  ledger_id = 1;
  transaction_id = 2;
  account_id = 10;
  idempotency_key = codes "k4";
}

game_standing : original_of 1 2 sample ≡ ok game
unfolding original_of find_in_ledger find_reversal_of
game_standing = refl

reverse_transaction_cancels_example :
    (dto : TransactionDto) × (db' : Db) × (reverse_transaction undo_game 40 sample ≡ ok (dto, db'))
    × (dto.reversal_of_id ≡ some 2)
    × ((l : ℕ)
        → shown_balance l db'
          ≡ (if 1 == l then neg (negsuc 19) +ℤ shown_balance l sample else shown_balance l sample))
    × IsValid db'.transactions
    × ((later : ℕ) → reverse_transaction undo_game later db' ≡ err transaction_already_reversed)
unfolding find_by_key is_blank
reverse_transaction_cancels_example =
    reverse_transaction_cancels undo_game 40 sample owner_access game sample-IsValid owner_granted
      game_standing refl (refl, omega arith) refl

abbrev undo_game_badly : ReverseTransactionCommand
undo_game_badly = record undo_game { idempotency_key = codes "k1" }

reverse_transaction_key_in_use_example :
    (reverse_transaction undo_game_badly 40 sample ≡ ok (just_written dishes (codes "Aki"), sample))
    × (dishes.reversal_of_id ≢ some 2)
    × (original_of 1 2 sample ≡ ok game)
unfolding find_by_key is_blank
reverse_transaction_key_in_use_example =
    reverse_transaction_key_in_use undo_game_badly 40 sample owner_access game sample-IsValid
      owner_granted game_standing refl (refl, omega arith) dishes refl

abbrev fix_game : CorrectTransactionCommand
fix_game = record {
  ledger_id = 1;
  transaction_id = 2;
  account_id = 10;
  amount = negsuc 9;
  reason = codes "short game";
  occurred_at = none;
  idempotency_key = codes "k5";
}

correct_transaction_moves_example :
    (dto : CorrectionDto) × (db' : Db) × (correct_transaction fix_game 40 sample ≡ ok (dto, db'))
    × (dto.reversal.reversal_of_id ≡ some 2)
    × (dto.correction.corrects_id ≡ some 2)
    × ((l : ℕ)
        → shown_balance l db' ≡ (
            if 1 == l
            then negsuc 9 +ℤ (neg (negsuc 19) +ℤ shown_balance l sample)
            else shown_balance l sample))
    × IsValid db'.transactions
unfolding find_by_key is_blank
correct_transaction_moves_example =
    correct_transaction_moves fix_game 40 sample owner_access game sample-IsValid owner_granted
      game_standing refl (refl, omega arith) (omega arith) (refl, omega arith) refl refl

-- The dishes are reversed already, by the first step of a correction with the same key.
abbrev undone_dishes : PointTransaction
undone_dishes = record {
  id = 3;
  ledger_id = 1;
  amount = negsuc 49;
  reason = codes "dishes";
  granted_by_membership_id = some 1;
  occurred_at = 30;
  created_at = 30;
  idempotency_key = step_key (codes "k5") reversal_step;
  reversal_of_id = some 1;
  corrects_id = none;
}

abbrev used : Db
used = record sample {
  transactions = record { rows = undone_dishes ∷ game ∷ dishes ∷ []; next_id = 4 };
}

used-IsValid : IsValid used.transactions
unfolding violates_unique is_blank find_in_ledger neg
used-IsValid = (
  omega arith,
  record {
    amount = omega arith;
    reason = (refl, omega arith);
    key = (refl, omega arith);
    unique = refl;
    undoes = (dishes, refl, refl, refl);
    restates = tt;
  },
  sample-IsValid,
)

used_granted : modifiable_ledger 1 10 used ≡ ok owner_access
unfolding modifiable_ledger
used_granted = refl

used_standing : original_of 1 2 used ≡ ok game
unfolding original_of find_in_ledger find_reversal_of
used_standing = refl

correct_transaction_key_reused_example :
    correct_transaction fix_game 40 used ≡ err idempotency_key_reused
unfolding find_by_key is_blank
correct_transaction_key_reused_example =
    correct_transaction_key_reused fix_game 40 used owner_access game used-IsValid used_granted
      used_standing refl (refl, omega arith) (omega arith) (refl, omega arith) undone_dishes refl

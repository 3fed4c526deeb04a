-- ===== src/Tests/Archive.antt =====
-- Restoring a ledger from an archive, and the rules at fixed histories.
use rewardpointsweb.Base.{
  ◌+ℤ◌, All, is_blank, neg, ℕ, ◌≡◌, ◌==◌, refl, if◌then◌else◌, Option, none, some, List, [], ◌∷◌, ℤ,
  pos, negsuc, Text, codes, arith,
}
use rewardpointsweb.Failure.{ok, err, invalid_family_archive}
use rewardpointsweb.Entities.{PointTransaction, Table}
use rewardpointsweb.Ledger.{statement_balance, list_by_ledger}
use rewardpointsweb.Ledger.History.{IsValid}
use rewardpointsweb.Archive.{ArchivedTransactionDto, ArchivedLedgerDto, require_writable_history}
use rewardpointsweb.Archive.Import.{append_history}
use rewardpointsweb.Archive.Restored.{IsDocument, Recorders, append_history-restores}
use rewardpointsweb.Tests.Samples.{sample, sample-IsValid}

abbrev entry : Text → ℤ → Option Text → Option Text → ArchivedTransactionDto
entry ref amount reverses corrects = record {
  ref = ref;
  amount = amount;
  reason = codes "dishes";
  occurred_at = 5;
  granted_by = some (codes "m1");
  reverses = reverses;
  corrects = corrects;
}

-- Fifty points, taken back and restated as thirty.
abbrev restated : List ArchivedTransactionDto
restated =
    entry (codes "t1") (pos 50) none none
    ∷ entry (codes "t2") (negsuc 49) (some (codes "t1")) none
    ∷ entry (codes "t3") (pos 30) none (some (codes "t1"))
    ∷ []

abbrev archived : ArchivedLedgerDto
archived = record { transactions = restated; daily_bonus = none }

restated_writable : require_writable_history restated (codes "m1" ∷ []) ≡ ok tt
unfolding require_writable_history neg
restated_writable = refl

first_entry-IsDocument : IsDocument (entry (codes "t1") (pos 50) none none)
unfolding is_blank
first_entry-IsDocument = record {
  amount = (omega arith, omega arith);
  reason = (refl, omega arith);
  key = (refl, omega arith);
  reverses = refl;
  corrects = refl;
  single = refl;
}

second_entry-IsDocument : IsDocument (entry (codes "t2") (negsuc 49) (some (codes "t1")) none)
unfolding is_blank
second_entry-IsDocument = record {
  amount = (omega arith, omega arith);
  reason = (refl, omega arith);
  key = (refl, omega arith);
  reverses = refl;
  corrects = refl;
  single = refl;
}

third_entry-IsDocument : IsDocument (entry (codes "t3") (pos 30) none (some (codes "t1")))
unfolding is_blank
third_entry-IsDocument = record {
  amount = (omega arith, omega arith);
  reason = (refl, omega arith);
  key = (refl, omega arith);
  reverses = refl;
  corrects = refl;
  single = refl;
}

restated-IsDocument : All IsDocument restated
restated-IsDocument =
    let last : All IsDocument (entry (codes "t3") (pos 30) none (some (codes "t1")) ∷ []) =
      (third_entry-IsDocument, tt) in
    let rest : All IsDocument (
        entry (codes "t2") (negsuc 49) (some (codes "t1")) none
        ∷ entry (codes "t3") (pos 30) none (some (codes "t1"))
        ∷ []) =
      (second_entry-IsDocument, last) in
    (first_entry-IsDocument, rest)

only_recorder : Recorders (codes "m1" ∷ []) ((codes "m1", 1) ∷ [])
only_recorder ref h = ground arith

append_history-restores_example :
    (table : Table PointTransaction) × (append_history archived 2
        ((codes "m1", 1) ∷ [])
        40
        sample.transactions
      ≡ ok (3, table))
    × IsValid table
    × ((k : ℕ)
        → statement_balance (list_by_ledger k table.rows) ≡ (
            if 2 == k
            then pos 30
            else statement_balance (list_by_ledger k sample.transactions.rows)))
unfolding ◌+ℤ◌
append_history-restores_example =
    append_history-restores archived 2 40 ((codes "m1", 1) ∷ []) (codes "m1" ∷ [])
      sample.transactions restated_writable restated-IsDocument only_recorder sample-IsValid refl

-- A correction of a row that nothing reverses is refused.
uncancelled_correction :
    require_writable_history
      (entry (codes "t1") (pos 50) none none
        ∷ entry (codes "t2") (pos 30) none (some (codes "t1"))
        ∷ [])
      (codes "m1" ∷ [])
    ≡ err invalid_family_archive
unfolding require_writable_history
uncancelled_correction = refl

-- An entry that reverses and corrects one row is accepted, though no request makes such a row.
reversing_correction :
    require_writable_history
      (entry (codes "t1") (pos 50) none none
        ∷ entry (codes "t2") (negsuc 49) (some (codes "t1")) (some (codes "t1"))
        ∷ [])
      (codes "m1" ∷ [])
    ≡ ok tt
unfolding require_writable_history neg
reversing_correction = refl

-- ===== src/Archive/Import.antt =====
-- `ImportFamilyUseCase`: application/use_cases/import_family.py of bounded_contexts/reward_points. An
-- archive's points in time are naive times of UTC already. Members are kept as their identifiers.
use rewardpointsweb.Base.{
  ℕ, ◌+◌, not, if◌then◌else◌, Option, none, some, List, [], ◌∷◌, ◌++◌, length, Text, codes, ◌==◌,
}
use rewardpointsweb.Failure.{
  Result, ok, ◌>>◌, ◌>>=◌, raise_if, or_raise, key_error, already_belongs_to_family,
}
use rewardpointsweb.Roles.{administers_family}
use rewardpointsweb.Entities.{FamilyMembership, PointTransaction, DailyBonus, Table, Db}
use rewardpointsweb.Ledger.{NewTransaction, append}
use rewardpointsweb.Bonus.{save_bonus, mark_granted_through}
use rewardpointsweb.Members.{list_for_account, add_membership, add_ledger}
use rewardpointsweb.Household.{add_family}
use rewardpointsweb.Archive.{
  ArchivedTransactionDto, ArchivedDailyBonusDto, ArchivedLedgerDto, ArchivedMemberDto,
  FamilyArchiveDto, lookup, require_importable,
}

-- `IMPORT_KEY_PREFIX`
abbrev pub import_key_prefix : Text
import_key_prefix = codes "import-"

-- `ImportFamilyCommand`
pub record ImportFamilyCommand : Type 0 where
  pub account_id : ℕ
  pub archive : FamilyArchiveDto

-- `ImportedFamilyDTO`
pub record ImportedFamilyDto : Type 0 where
  pub family_id : ℕ
  pub name : Text
  pub member_count : ℕ
  pub transaction_count : ℕ

-- `ids[ref] if ref else None`
unfoldable pub id_at : List (Text × ℕ) → Option Text → Result (Option ℕ)
id_at ids none = ok none
id_at ids (some []) = ok none
id_at ids (some (c ∷ ref)) = do id ← or_raise (lookup (c ∷ ref) ids) key_error; ok (some id)

-- The row that an entry asks for.
abbrev pub restored_row :
    ArchivedTransactionDto → ℕ → Option ℕ → Option ℕ → Option ℕ → NewTransaction
restored_row entry ledger_id actor reversal_of corrects = record {
  ledger_id = ledger_id;
  amount = entry.amount;
  reason = entry.reason;
  granted_by_membership_id = actor;
  occurred_at = entry.occurred_at;
  idempotency_key = import_key_prefix ++ entry.ref;
  reversal_of_id = reversal_of;
  corrects_id = corrects;
}

-- The loop of `_append_history`, with the identifiers of the rows so far.
unfoldable pub append_entries :
    List ArchivedTransactionDto
    → ℕ
    → List (Text × ℕ)
    → ℕ
    → List (Text × ℕ)
    → Table PointTransaction
    → Result (Table PointTransaction)
unfolding id_at
append_entries [] ledger_id members now ids t = ok t
append_entries (entry ∷ entries) ledger_id members now ids t = do
  actor ← id_at members entry.granted_by
  reversal_of ← id_at ids entry.reverses
  corrects ← id_at ids entry.corrects
  (appended, t') ← append (restored_row entry ledger_id actor reversal_of corrects) now t
  append_entries entries ledger_id members now ((entry.ref, appended.id) ∷ ids) t'

-- `_append_history`
unfoldable pub append_history :
    ArchivedLedgerDto
    → ℕ
    → List (Text × ℕ)
    → ℕ
    → Table PointTransaction
    → Result (ℕ × Table PointTransaction)
unfolding append_entries
append_history archived ledger_id members now t = do
  t' ← append_entries archived.transactions ledger_id members now [] t
  ok (length archived.transactions, t')

-- `_restore_daily_bonus`
unfoldable pub restore_daily_bonus :
    Option ArchivedDailyBonusDto → ℕ → Table DailyBonus → Result (Table DailyBonus)
restore_daily_bonus none ledger_id t = ok t
restore_daily_bonus (some bonus) ledger_id t = do
  (saved, t') ←
      save_bonus
        (record {
          ledger_id = ledger_id;
          amount = bonus.amount;
          reason = bonus.reason;
          starts_on = bonus.starts_on;
        })
        t
  ok (elim bonus.granted_through [
    | none ↦ t'
    | some day ↦ record t' { rows = mark_granted_through day saved.id t'.rows }
  ])

-- `_restore_ledger`
unfoldable pub restore_ledger :
    ArchivedMemberDto → Option ArchivedLedgerDto → ℕ → List (Text × ℕ) → ℕ → Db → Result (ℕ × Db)
unfolding append_history restore_daily_bonus
restore_ledger member none family_id members now db = ok (0, db)
restore_ledger member (some archived) family_id members now db = do
  membership_id ← or_raise (lookup member.ref members) key_error
  (ledger, ledgers) ← add_ledger family_id membership_id now db.ledgers
  (written, transactions) ← append_history archived ledger.id members now db.transactions
  bonuses ← restore_daily_bonus archived.daily_bonus ledger.id db.bonuses
  ok (written, record db { ledgers = ledgers; transactions = transactions; bonuses = bonuses })

-- The sum over `_restore_ledger`.
unfoldable pub restore_ledgers :
    List ArchivedMemberDto → ℕ → List (Text × ℕ) → ℕ → Db → Result (ℕ × Db)
unfolding restore_ledger
restore_ledgers [] family_id members now db = ok (0, db)
restore_ledgers (member ∷ rest) family_id members now db = do
  (written, db1) ← restore_ledger member member.ledger family_id members now db
  (more, db2) ← restore_ledgers rest family_id members now db1
  ok (written + more, db2)

-- `_restore_members`
unfoldable pub restore_members :
    List ArchivedMemberDto
    → ℕ
    → ℕ
    → ℕ
    → List (Text × ℕ)
    → Table FamilyMembership
    → Result (List (Text × ℕ) × Table FamilyMembership)
restore_members [] family_id account_id now members t = ok (members, t)
restore_members (member ∷ rest) family_id account_id now members t = do
  (m, t') ←
      add_membership family_id (if administers_family member.role then some account_id else none)
        member.role member.display_name now t
  restore_members rest family_id account_id now ((member.ref, m.id) ∷ members) t'

-- `ImportFamilyUseCase.execute`
unfoldable pub import_family : ImportFamilyCommand → ℕ → Db → Result (ImportedFamilyDto × Db)
unfolding add_family restore_members restore_ledgers
import_family c now db = do
  require_importable c.archive
  raise_if (not (length (list_for_account c.account_id db.memberships.rows) == 0))
      already_belongs_to_family
  (family, families) ← add_family c.archive.family_name c.archive.family_rules now db.families
  (members, memberships) ←
      restore_members c.archive.members family.id c.account_id now [] db.memberships
  (written, db') ←
      restore_ledgers c.archive.members family.id members now
        (record db { families = families; memberships = memberships })
  ok (
    record {
      family_id = family.id;
      name = family.name;
      member_count = length members;
      transaction_count = written;
    },
    db',
  )

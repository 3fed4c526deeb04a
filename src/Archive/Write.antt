-- ===== src/Archive/Write.antt =====
-- `FamilyArchiveWriter` and `ExportFamilyUseCase`: application/family_archive_writer.py and
-- application/use_cases/export_family.py of bounded_contexts/reward_points.
use rewardpointsweb.Base.{
  ℕ, ◌+◌, if◌then◌else◌, not, ◌==◌, Option, none, some, List, [], ◌∷◌, select, map, sort_by, Text,
}
use rewardpointsweb.Failure.{Result, ok, ◌>>=◌, or_raise, family_not_found, key_error}
use rewardpointsweb.Roles.{is_display}
use rewardpointsweb.Entities.{FamilyMembership, PointLedger, PointTransaction, DailyBonus, Db}
use rewardpointsweb.Access.{require_guardian}
use rewardpointsweb.Ledger.{list_by_ledger}
use rewardpointsweb.Bonus.{find_bonus}
use rewardpointsweb.Event.{decimal}
use rewardpointsweb.Invitations.{find_family}
use rewardpointsweb.Members.{list_for_family}
use rewardpointsweb.Archive.{
  archive_format, archive_version, ArchivedTransactionDto, ArchivedDailyBonusDto, ArchivedLedgerDto,
  ArchivedMemberDto, FamilyArchiveDto,
}

-- The refs of rows by their identifiers.
abbrev pub ref_at : ℕ → List (ℕ × Text) → Option Text
ref_at id [] = none
ref_at id ((key, ref) ∷ rest) = if key == id then some ref else ref_at id rest

-- `{row.id: f"{letter}{index + 1}" for index, row in enumerate(rows)}`
unfoldable pub numbered : ℕ → ℕ → List ℕ → List (ℕ × Text)
unfolding decimal
numbered letter index [] = []
numbered letter index (id ∷ ids) =
    (id, letter ∷ decimal (index + 1)) ∷ numbered letter (index + 1) ids

-- `_ref_of`
abbrev pub ref_of : Option ℕ → List (ℕ × Text) → Option Text
ref_of none refs = none
ref_of (some id) refs = ref_at id refs

-- `_to_entry`
unfoldable pub to_entry :
    PointTransaction → List (ℕ × Text) → List (ℕ × Text) → Result ArchivedTransactionDto
to_entry r entry_refs member_refs = do
  ref ← or_raise (ref_at r.id entry_refs) key_error
  ok (record {
    ref = ref;
    amount = r.amount;
    reason = r.reason;
    occurred_at = r.occurred_at;
    granted_by = ref_of r.granted_by_membership_id member_refs;
    reverses = ref_of r.reversal_of_id entry_refs;
    corrects = ref_of r.corrects_id entry_refs;
  })

unfoldable pub to_entries :
    List PointTransaction → List (ℕ × Text) → List (ℕ × Text) → Result (List ArchivedTransactionDto)
unfolding to_entry
to_entries [] entry_refs member_refs = ok []
to_entries (r ∷ rows) entry_refs member_refs = do
  entry ← to_entry r entry_refs member_refs
  entries ← to_entries rows entry_refs member_refs
  ok (entry ∷ entries)

-- `_to_bonus`
abbrev pub to_bonus : Option DailyBonus → Option ArchivedDailyBonusDto
to_bonus none = none
to_bonus (some b) = some (record {
  amount = b.amount;
  reason = b.reason;
  starts_on = b.starts_on;
  granted_through = b.granted_through;
})

-- `_ledger`
unfoldable pub write_ledger :
    PointLedger
    → List PointTransaction
    → List (ℕ × Text)
    → List DailyBonus
    → Result ArchivedLedgerDto
unfolding numbered to_entries
write_ledger ledger history member_refs bonuses =
    let ordered = sort_by (λ r. r.id) history in
    let entry_refs = numbered 116 0 (map (λ r. r.id) ordered) in
    do
      entries ← to_entries ordered entry_refs member_refs
      ok (record { transactions = entries; daily_bonus = to_bonus (find_bonus ledger.id bonuses) })

-- `ledgers.get(member.id)`: of the ledgers with this member, in the order of their identifiers, the last.
unfoldable pub ledger_for : ℕ → List PointLedger → Option PointLedger
ledger_for membership_id [] = none
ledger_for membership_id (l ∷ rows) = elim (ledger_for membership_id rows) [
  | none ↦ if l.membership_id == membership_id then some l else none
  | some later ↦ some later
]

-- `list_for_family` of the ledgers
unfoldable pub ledgers_of : ℕ → List PointLedger → List PointLedger
ledgers_of family_id rows = sort_by (λ l. l.id) (select (λ l. l.family_id == family_id) rows)

-- `_member`
unfoldable pub write_member :
    FamilyMembership → Option PointLedger → List (ℕ × Text) → Db → Result ArchivedMemberDto
unfolding write_ledger
write_member m none member_refs db = do
  ref ← or_raise (ref_at m.id member_refs) key_error
  ok (record { ref = ref; display_name = m.display_name; role = m.role; ledger = none })
write_member m (some ledger) member_refs db = do
  ref ← or_raise (ref_at m.id member_refs) key_error
  written ←
      write_ledger ledger (list_by_ledger ledger.id db.transactions.rows) member_refs
        db.bonuses.rows
  ok (record { ref = ref; display_name = m.display_name; role = m.role; ledger = some written })

unfoldable pub write_members :
    List FamilyMembership
    → List PointLedger
    → List (ℕ × Text)
    → Db
    → Result (List ArchivedMemberDto)
unfolding ledger_for write_member
write_members [] ledgers member_refs db = ok []
write_members (m ∷ rest) ledgers member_refs db = do
  member ← write_member m (ledger_for m.id ledgers) member_refs db
  members ← write_members rest ledgers member_refs db
  ok (member ∷ members)

-- `write`
unfoldable pub write_archive : ℕ → ℕ → Db → Result FamilyArchiveDto
unfolding write_members ledgers_of
write_archive family_id now db = do
  family ← or_raise (find_family family_id db.families.rows) family_not_found
  let members =
      select (λ m. not (is_display m.role)) (list_for_family family_id db.memberships.rows)
  let member_refs = numbered 109 0 (map (λ m. m.id) members)
  written ← write_members members (ledgers_of family_id db.ledgers.rows) member_refs db
  ok (record {
    format = archive_format;
    version = archive_version;
    exported_at = now;
    family_name = family.name;
    family_rules = family.rules;
    members = written;
  })

-- `ExportFamilyUseCase.execute`
unfoldable pub export_family : ℕ → ℕ → ℕ → Db → Result FamilyArchiveDto
unfolding write_archive
export_family family_id account_id now db = do
  _ ← require_guardian family_id account_id db
  write_archive family_id now db

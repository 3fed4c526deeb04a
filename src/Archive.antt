-- ===== src/Archive.antt =====
-- The archive of a whole family, and what it must be to be imported:
-- application/dto/family_archive_dto.py and application/family_archive_rules.py of
-- bounded_contexts/reward_points. Sets and dictionaries are lists, the newest entry first.
pub mod Import
pub mod Write
pub mod Accepted
pub mod Agreement
pub mod Added
pub mod Restored
use rewardpointsweb.Base.{
  ℕ, Bool, true, false, ◌&&◌, ◌||◌, not, ◌==◌, ltb, if◌then◌else◌, is_some, Option, none, some,
  List, [], ◌∷◌, exists, select, length, map, ℤ, neg, Text, text_eq, codes, int_eq,
}
use rewardpointsweb.Failure.{
  Result, ok, err, ◌>>◌, ◌>>=◌, raise_if, or_raise, invalid_family_archive,
  unsupported_archive_version,
}
use rewardpointsweb.Roles.{FamilyRole, administers_family, is_display, is_guardian, has_own_ledger}

-- `ARCHIVE_FORMAT` and `ARCHIVE_VERSION`
abbrev pub archive_format : Text
archive_format = codes "rewardpointsweb.family"

abbrev pub archive_version : ℕ
archive_version = 2

-- `version in SUPPORTED_ARCHIVE_VERSIONS`
abbrev pub is_supported : ℕ → Bool
is_supported version = version == 1 || version == archive_version

-- `ArchivedTransactionDTO`
pub record ArchivedTransactionDto : Type 0 where
  pub ref : Text
  pub amount : ℤ
  pub reason : Text
  pub occurred_at : ℕ
  pub granted_by : Option Text
  pub reverses : Option Text
  pub corrects : Option Text

-- `ArchivedDailyBonusDTO`
pub record ArchivedDailyBonusDto : Type 0 where
  pub amount : ℤ
  pub reason : Text
  pub starts_on : ℕ
  pub granted_through : Option ℕ

-- `ArchivedLedgerDTO`
pub record ArchivedLedgerDto : Type 0 where
  pub transactions : List ArchivedTransactionDto
  pub daily_bonus : Option ArchivedDailyBonusDto

-- `ArchivedMemberDTO`
pub record ArchivedMemberDto : Type 0 where
  pub ref : Text
  pub display_name : Text
  pub role : FamilyRole
  pub ledger : Option ArchivedLedgerDto

-- `FamilyArchiveDTO`
pub record FamilyArchiveDto : Type 0 where
  pub format : Text
  pub version : ℕ
  pub exported_at : ℕ
  pub family_name : Text
  pub family_rules : Option Text
  pub members : List ArchivedMemberDto

-- `ref in refs`
abbrev pub is_in : Text → List Text → Bool
is_in ref refs = exists (text_eq ref) refs

-- `d.get(ref)`
abbrev pub lookup : {A : Type 0} → Text → List (Text × A) → Option A
lookup ref [] = none
lookup ref ((key, value) ∷ rest) = if text_eq ref key then some value else lookup ref rest

-- `_WrittenHistory`
pub record WrittenHistory : Type 0 where
  pub amounts : List (Text × ℤ)
  pub reversals : List Text
  pub reversed : List Text
  pub corrected : List Text

-- `_WrittenHistory()`
abbrev pub nothing_written : WrittenHistory
nothing_written = record { amounts = []; reversals = []; reversed = []; corrected = [] }

-- `_amount_of`
unfoldable pub amount_of : Text → WrittenHistory → Result ℤ
amount_of ref w = or_raise (lookup ref w.amounts) invalid_family_archive

-- `_claim_reversal`
unfoldable pub claim_reversal :
    ArchivedTransactionDto → Option Text → WrittenHistory → Result WrittenHistory
unfolding amount_of
claim_reversal entry none w = ok w
claim_reversal entry (some target) w = do
  raise_if (is_in target w.reversals || is_in target w.reversed) invalid_family_archive
  amount ← amount_of target w
  raise_if (not (int_eq entry.amount (neg amount))) invalid_family_archive
  ok (record w { reversed = target ∷ w.reversed })

-- `_claim_correction`
unfoldable pub claim_correction : Option Text → WrittenHistory → Result WrittenHistory
unfolding amount_of
claim_correction none w = ok w
claim_correction (some target) w = do
  raise_if (is_in target w.reversals || is_in target w.corrected) invalid_family_archive
  _ ← amount_of target w
  raise_if (not (is_in target w.reversed)) invalid_family_archive
  ok (record w { corrected = target ∷ w.corrected })

-- `_WrittenHistory.append`
unfoldable pub append_entry : ArchivedTransactionDto → WrittenHistory → Result WrittenHistory
unfolding claim_reversal claim_correction
append_entry entry w = do
  raise_if (is_some (lookup entry.ref w.amounts)) invalid_family_archive
  w1 ← claim_reversal entry entry.reverses w
  w2 ← claim_correction entry.corrects w1
  ok (record w2 {
    amounts = (entry.ref, entry.amount) ∷ w2.amounts;
    reversals = if is_some entry.reverses then entry.ref ∷ w2.reversals else w2.reversals;
  })

-- `entry.granted_by is not None and entry.granted_by not in recorders`
abbrev pub is_stranger : Option Text → List Text → Bool
is_stranger none recorders = false
is_stranger (some ref) recorders = not (is_in ref recorders)

-- The loop of `_require_writable_history`.
unfoldable pub writable_from :
    List ArchivedTransactionDto → List Text → WrittenHistory → Result WrittenHistory
unfolding append_entry
writable_from [] recorders w = ok w
writable_from (entry ∷ entries) recorders w = do
  raise_if (is_stranger entry.granted_by recorders) invalid_family_archive
  w1 ← append_entry entry w
  writable_from entries recorders w1

-- `_require_writable_history`
unfoldable pub require_writable_history :
    List ArchivedTransactionDto → List Text → Result (Unit {0})
unfolding writable_from
require_writable_history entries recorders = do
  _ ← writable_from entries recorders nothing_written
  ok tt

-- `_require_consistent_bonus`
unfoldable pub require_consistent_bonus : Option ArchivedDailyBonusDto → Result (Unit {0})
require_consistent_bonus none = ok tt
require_consistent_bonus (some bonus) = elim bonus.granted_through [
  | none ↦ ok tt
  | some day ↦ raise_if (ltb day bonus.starts_on) invalid_family_archive
]

-- `_require_writable_ledger`
unfoldable pub require_writable_ledger : Option ArchivedLedgerDto → List Text → Result (Unit {0})
unfolding require_consistent_bonus require_writable_history
require_writable_ledger none recorders = ok tt
require_writable_ledger (some ledger) recorders = do
  require_consistent_bonus ledger.daily_bonus
  require_writable_history ledger.transactions recorders

-- The loop of `require_importable`, with `_require_person` and `_require_ledger_matches_role`.
unfoldable pub require_members : List ArchivedMemberDto → List Text → Result (Unit {0})
unfolding require_writable_ledger
require_members [] recorders = ok tt
require_members (member ∷ members) recorders = do
  raise_if (is_display member.role) invalid_family_archive
  raise_if
      ((is_some member.ledger && not (has_own_ledger member.role))
        || (not (is_some member.ledger) && has_own_ledger member.role))
      invalid_family_archive
  require_writable_ledger member.ledger recorders
  require_members members recorders

-- `_unique_refs`
unfoldable pub unique_refs : List Text → List Text → Result (Unit {0})
unique_refs [] seen = ok tt
unique_refs (ref ∷ refs) seen = do
  raise_if (is_in ref seen) invalid_family_archive
  unique_refs refs (ref ∷ seen)

-- `_require_readable_format`
unfoldable pub require_readable_format : FamilyArchiveDto → Result (Unit {0})
require_readable_format archive = do
  raise_if (not (text_eq archive.format archive_format)) invalid_family_archive
  raise_if (not (is_supported archive.version)) unsupported_archive_version

-- `_require_single_owner`
unfoldable pub require_single_owner : List ArchivedMemberDto → Result (Unit {0})
require_single_owner members =
    raise_if (not (length (select (λ m. administers_family m.role) members) == 1))
      invalid_family_archive

-- `require_importable`
unfoldable pub require_importable : FamilyArchiveDto → Result (Unit {0})
unfolding require_readable_format unique_refs require_single_owner require_members
require_importable archive = do
  require_readable_format archive
  unique_refs (map (λ m. m.ref) archive.members) []
  require_single_owner archive.members
  require_members archive.members
      (map (λ m. m.ref) (select (λ m. is_guardian m.role) archive.members))

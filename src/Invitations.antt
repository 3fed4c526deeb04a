-- ===== src/Invitations.antt =====
-- Invitations: domain/entities/family_invitation.py, `find_by_code` and `consume` of
-- infrastructure/sql_family_invitation_repository.py, application/invitation_binder.py and
-- application/use_cases/accept_invitation.py of bounded_contexts/reward_points.
pub mod Once
pub mod Issue
use rewardpointsweb.Base.{
  ℕ, Bool, true, false, ◌&&◌, not, ◌==◌, ltb, if◌then◌else◌, Option, none, some, is_some, List, [],
  ◌∷◌, first, select, exists, update_where, length, Text, text_eq, strip,
}
use rewardpointsweb.Failure.{
  Result, ok, err, raise_if, or_raise, ◌>>=◌, ◌>>◌, family_not_found, invitation_not_found,
  invitation_target_unavailable, account_already_in_family, already_belongs_to_family,
  child_invitation_requires_signup, guardian_account_required, display_name_required,
}
use rewardpointsweb.Roles.{FamilyRole, is_guardian, has_own_ledger}
use rewardpointsweb.Entities.{Family, FamilyMembership, FamilyInvitation, Table, Db, is_linked}
use rewardpointsweb.Access.{find_membership}
use rewardpointsweb.Members.{list_for_account, add_membership, link_account, add_ledger}

-- `str.upper` and the digest of `hashlib.sha256`, as hexadecimal digits.
pub record Hashing : Type 0 where
  pub upper : Text → Text
  pub sha256 : Text → Text

-- `_hash_code`
unfoldable pub hash_code : Hashing → Text → Text
hash_code hashing code = hashing.sha256 (hashing.upper (strip code))

-- `FamilyInvitation.is_usable_at`
unfoldable pub is_usable_at : FamilyInvitation → ℕ → Bool
is_usable_at i moment = not (is_some i.used_at) && ltb moment i.expires_at

-- `find_by_code`
unfoldable pub find_by_code : Hashing → Text → List FamilyInvitation → Option FamilyInvitation
find_by_code hashing code rows = first (λ i. text_eq i.code_hash (hash_code hashing code)) rows

-- The condition of `consume`'s update.
unfoldable pub consumable : Text → ℕ → FamilyInvitation → Bool
unfolding is_usable_at
consumable code_hash now i = text_eq i.code_hash code_hash && is_usable_at i now

-- `consume`
unfoldable pub consume :
    Hashing → Text → ℕ → Table FamilyInvitation → Option FamilyInvitation × Table FamilyInvitation
unfolding find_by_code
consume hashing code now t =
    let fits = consumable (hash_code hashing code) now in
    let rows = update_where fits (λ i. record i { used_at = some now }) t.rows in
    (
      if length (select fits t.rows) == 1 then find_by_code hashing code rows else none,
      record t { rows = rows },
    )

-- `InvitationBinder._link_target`
unfoldable pub link_target : ℕ → ℕ → ℕ → Db → Result (FamilyMembership × Db)
link_target membership_id family_id account_id db = do
  target ← or_raise (find_membership membership_id db.memberships.rows) invitation_not_found
  raise_if (not (target.family_id == family_id)) invitation_not_found
  raise_if (is_linked target) invitation_target_unavailable
  (m, t) ← link_account target.id account_id db.memberships
  ok (m, record db { memberships = t })

-- `if not display_name: raise`
abbrev pub require_name : Option Text → Result Text
require_name none = err display_name_required
require_name (some []) = err display_name_required
require_name (some (c ∷ name)) = ok (c ∷ name)

-- The ledger of a member who has one.
abbrev pub open_ledger : FamilyMembership → ℕ → Db → Result Db
open_ledger m now db = if not (has_own_ledger m.role) then ok db else do
  (_, ledgers) ← add_ledger m.family_id m.id now db.ledgers
  ok (record db { ledgers = ledgers })

-- `InvitationBinder._join_as_new`
unfoldable pub join_as_new :
    ℕ → FamilyRole → ℕ → Option Text → ℕ → Db → Result (FamilyMembership × Db)
unfolding add_ledger
join_as_new family_id role account_id name now db = do
  given ← require_name name
  (m, t) ← add_membership family_id (some account_id) role given now db.memberships
  db' ← open_ledger m now (record db { memberships = t })
  ok (m, db')

-- The membership that an invitation gives: the one that it names, or a new one.
unfoldable pub bind_to :
    FamilyInvitation → Option ℕ → ℕ → Option Text → ℕ → Db → Result (FamilyMembership × Db)
bind_to i (some target) account_id name now db = link_target target i.family_id account_id db
bind_to i none account_id name now db = join_as_new i.family_id i.role account_id name now db

-- `InvitationBinder.bind`
unfoldable pub bind : Hashing → Text → ℕ → Option Text → ℕ → Db → Result (FamilyMembership × Db)
bind hashing code account_id name now db = do
  let (found, invitations) = consume hashing code now db.invitations
  i ← or_raise found invitation_not_found
  let existing = list_for_account account_id db.memberships.rows
  raise_if (exists (λ m. m.family_id == i.family_id) existing) account_already_in_family
  raise_if (exists (λ m. true) existing) already_belongs_to_family
  bind_to i i.target_membership_id account_id name now (record db { invitations = invitations })

-- `AcceptInvitationCommand`
pub record AcceptInvitationCommand : Type 0 where
  pub code : Text
  pub account_id : ℕ
  pub username : Text
  pub display_name : Option Text
  pub can_guard : Bool

-- `RedeemedInvitationDTO`
pub record RedeemedInvitationDto : Type 0 where
  pub family_id : ℕ
  pub family_name : Text
  pub membership_id : ℕ
  pub role : FamilyRole
  pub username : Text

-- `SqlFamilyRepository.find_by_id`
unfoldable pub find_family : ℕ → List Family → Option Family
find_family family_id rows = first (λ f. f.id == family_id) rows

-- `AcceptInvitationUseCase.execute`
unfoldable pub accept_invitation :
    Hashing → AcceptInvitationCommand → ℕ → Db → Result (RedeemedInvitationDto × Db)
accept_invitation hashing c now db = do
  (m, db') ← bind hashing c.code c.account_id c.display_name now db
  raise_if (has_own_ledger m.role) child_invitation_requires_signup
  raise_if (is_guardian m.role && not c.can_guard) guardian_account_required
  family ← or_raise (find_family m.family_id db'.families.rows) family_not_found
  ok (
    record {
      family_id = family.id;
      family_name = family.name;
      membership_id = m.id;
      role = m.role;
      username = c.username;
    },
    db',
  )

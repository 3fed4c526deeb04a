-- ===== src/Access.antt =====
-- bounded_contexts/reward_points/application/family_access_resolver.py: every use case comes
-- through here before it touches a family or a ledger. Also the queries of
-- infrastructure/sql_family_membership_repository.py and sql_point_ledger_repository.py that it makes.
pub mod Laws
use rewardpointsweb.Base.{ℕ, ◌&&◌, not, ◌==◌, holds, Option, none, some, List, first}
use rewardpointsweb.Failure.{
  Result, ok, err, raise_if, or_raise, ◌>>=◌, ◌>>◌, family_access_denied, ledger_not_found,
}
use rewardpointsweb.Entities.{FamilyMembership, PointLedger, Table, Db}
use rewardpointsweb.Policy.{
  can_view_ledger, can_modify_ledger, can_create_child, can_administer_family,
}

-- `SqlFamilyMembershipRepository.find_in_family`
unfoldable pub find_in_family : ℕ → ℕ → List FamilyMembership → Option FamilyMembership
find_in_family family_id account_id rows =
    first (λ m. m.family_id == family_id && holds m.account_id account_id) rows

-- `SqlFamilyMembershipRepository.find_by_id`
unfoldable pub find_membership : ℕ → List FamilyMembership → Option FamilyMembership
find_membership membership_id rows = first (λ m. m.id == membership_id) rows

-- `SqlPointLedgerRepository.find_by_id`
unfoldable pub find_ledger : ℕ → List PointLedger → Option PointLedger
find_ledger ledger_id rows = first (λ l. l.id == ledger_id) rows

-- `SqlPointLedgerRepository.find_by_membership`
unfoldable pub find_ledger_of : ℕ → List PointLedger → Option PointLedger
find_ledger_of membership_id rows = first (λ l. l.membership_id == membership_id) rows

-- `LedgerAccess`
pub record LedgerAccess : Type 0 where
  pub membership : FamilyMembership
  pub ledger : PointLedger

-- `FamilyAccessResolver.membership_in`
unfoldable pub membership_in : ℕ → ℕ → Db → Result FamilyMembership
unfolding find_in_family
membership_in family_id account_id db =
    or_raise (find_in_family family_id account_id db.memberships.rows) family_access_denied

-- `FamilyAccessResolver.require_guardian`
unfoldable pub require_guardian : ℕ → ℕ → Db → Result FamilyMembership
unfolding membership_in can_create_child
require_guardian family_id account_id db = do
  membership ← membership_in family_id account_id db
  raise_if (not (can_create_child membership)) family_access_denied
  ok membership

-- `FamilyAccessResolver.require_owner`
unfoldable pub require_owner : ℕ → ℕ → Db → Result FamilyMembership
unfolding membership_in can_administer_family
require_owner family_id account_id db = do
  membership ← membership_in family_id account_id db
  raise_if (not (can_administer_family membership)) family_access_denied
  ok membership

-- `FamilyAccessResolver.viewable_ledger`
unfoldable pub viewable_ledger : ℕ → ℕ → Db → Result LedgerAccess
unfolding find_ledger find_in_family can_view_ledger
viewable_ledger ledger_id account_id db = do
  ledger ← or_raise (find_ledger ledger_id db.ledgers.rows) ledger_not_found
  membership ←
      or_raise (find_in_family ledger.family_id account_id db.memberships.rows) family_access_denied
  raise_if (not (can_view_ledger membership ledger)) family_access_denied
  ok (record { membership = membership; ledger = ledger })

-- `FamilyAccessResolver.modifiable_ledger`
unfoldable pub modifiable_ledger : ℕ → ℕ → Db → Result LedgerAccess
unfolding viewable_ledger can_modify_ledger
modifiable_ledger ledger_id account_id db = do
  access ← viewable_ledger ledger_id account_id db
  raise_if (not (can_modify_ledger access.membership access.ledger)) family_access_denied
  ok access

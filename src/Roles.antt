-- ===== src/Roles.antt =====
-- bounded_contexts/reward_points/domain/value_objects/family_role.py: a member's role, and what
-- follows from it.
use rewardpointsweb.Base.{Bool, true, false, ◌||◌}

-- `FamilyRole`
pub data FamilyRole : Type 0 where
  owner parent child display : FamilyRole

unfoldable pub is_guardian : FamilyRole → Bool
is_guardian owner = true
is_guardian parent = true
is_guardian child = false
is_guardian display = false

unfoldable pub administers_family : FamilyRole → Bool
administers_family owner = true
administers_family parent = false
administers_family child = false
administers_family display = false

unfoldable pub is_display : FamilyRole → Bool
is_display owner = false
is_display parent = false
is_display child = false
is_display display = true

unfoldable pub sees_every_ledger : FamilyRole → Bool
unfolding is_guardian is_display
sees_every_ledger role = is_guardian role || is_display role

unfoldable pub has_own_ledger : FamilyRole → Bool
has_own_ledger owner = false
has_own_ledger parent = false
has_own_ledger child = true
has_own_ledger display = false

unfoldable pub is_invitable : FamilyRole → Bool
is_invitable owner = false
is_invitable parent = true
is_invitable child = true
is_invitable display = false

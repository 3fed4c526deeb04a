-- ===== src/Policy.antt =====
-- bounded_contexts/reward_points/domain/services/family_access_policy.py: who reaches which
-- ledger and which operation.
pub mod Laws
use rewardpointsweb.Base.{Bool, true, false, ◌&&◌, not, ◌==◌, if◌then◌else◌}
use rewardpointsweb.Roles.{
  FamilyRole, is_guardian, administers_family, is_display, sees_every_ledger, has_own_ledger,
}
use rewardpointsweb.Entities.{FamilyMembership, PointLedger, belongs_to_family, is_linked}

unfoldable pub can_view_ledger : FamilyMembership → PointLedger → Bool
unfolding belongs_to_family sees_every_ledger
can_view_ledger m l =
    if not (belongs_to_family l m.family_id)
    then false
    else if sees_every_ledger m.role
    then true
    else l.membership_id == m.id

unfoldable pub can_modify_ledger : FamilyMembership → PointLedger → Bool
unfolding belongs_to_family is_guardian
can_modify_ledger m l = belongs_to_family l m.family_id && is_guardian m.role

unfoldable pub can_administer_family : FamilyMembership → Bool
unfolding administers_family
can_administer_family m = administers_family m.role

unfoldable pub can_edit_family_rules : FamilyMembership → Bool
unfolding is_guardian
can_edit_family_rules m = is_guardian m.role

unfoldable pub can_invite : FamilyMembership → FamilyRole → Bool
unfolding has_own_ledger is_guardian administers_family
can_invite m invited =
    if has_own_ledger invited then is_guardian m.role else administers_family m.role

unfoldable pub can_create_child : FamilyMembership → Bool
unfolding is_guardian
can_create_child m = is_guardian m.role

unfoldable pub can_reorder_members : FamilyMembership → Bool
unfolding is_guardian
can_reorder_members m = is_guardian m.role

unfoldable pub can_propose_independence_for : FamilyMembership → FamilyMembership → Bool
unfolding is_guardian has_own_ledger is_linked
can_propose_independence_for actor target =
    is_guardian actor.role && has_own_ledger target.role && is_linked target

unfoldable pub can_detach_display : FamilyMembership → FamilyMembership → Bool
unfolding is_guardian is_display
can_detach_display actor target =
    is_guardian actor.role && actor.family_id == target.family_id && is_display target.role

unfoldable pub can_remove_member : FamilyMembership → FamilyMembership → Bool → Bool
unfolding is_display can_detach_display administers_family
can_remove_member actor target ledger_is_empty =
    if is_display target.role
    then can_detach_display actor target
    else administers_family actor.role && not (target.id == actor.id) && ledger_is_empty

unfoldable pub can_reset_password_of : FamilyMembership → FamilyMembership → Bool
unfolding is_guardian has_own_ledger
can_reset_password_of actor target =
    is_guardian actor.role
    && actor.family_id == target.family_id
    && has_own_ledger target.role
    && not (target.id == actor.id)

unfoldable pub can_issue_temporary_password_for : FamilyMembership → FamilyMembership → Bool
unfolding can_reset_password_of is_linked
can_issue_temporary_password_for actor target =
    can_reset_password_of actor target && is_linked target

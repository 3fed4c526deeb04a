-- ===== src/Policy/Laws.antt =====
-- The access table of family_role.py against the policy that the use cases ask.
use rewardpointsweb.Base.{◌≡◌, ◌↔◌, ◌⊎◌, Bool, true, false, arith}
use rewardpointsweb.Roles.{FamilyRole, owner, parent, child, display}
use rewardpointsweb.Entities.{FamilyMembership, PointLedger}
use rewardpointsweb.Policy.{
  can_view_ledger, can_modify_ledger, can_administer_family, can_create_child,
}

-- One row of the table in the docstring of `FamilyRole`.
pub record Rights : Type 0 where
  pub administers : Bool
  pub creates_children : Bool
  pub changes_points : Bool
  pub views_all : Bool

-- The table.
abbrev pub rights : FamilyRole → Rights
rights owner = record {
  administers = true;
  creates_children = true;
  changes_points = true;
  views_all = true;
}
rights parent = record {
  administers = false;
  creates_children = true;
  changes_points = true;
  views_all = true;
}
rights child = record {
  administers = false;
  creates_children = false;
  changes_points = false;
  views_all = false;
}
rights display = record {
  administers = false;
  creates_children = false;
  changes_points = false;
  views_all = true;
}

module _ (m : FamilyMembership) (l : PointLedger) where
  -- The policy grants a member exactly the rights that the table gives the role: administering the
  -- family and creating children by role alone, changing points on the ledgers of the member's
  -- family, and viewing all of those ledgers or only the member's own.
  pub policy-rights :
      (can_administer_family m ≡ (rights m.role).administers)
      × (can_create_child m ≡ (rights m.role).creates_children)
      × ((can_modify_ledger m l ≡ true)
          ↔ ((l.family_id ≡ m.family_id) × ((rights m.role).changes_points ≡ true)))
      × ((can_view_ledger m l ≡ true) ↔ (
          (l.family_id ≡ m.family_id)
          × (((rights m.role).views_all ≡ true) ⊎ (l.membership_id ≡ m.id))))
  unfolding can_administer_family can_create_child can_modify_ledger can_view_ledger
  policy-rights = (ground arith, ground arith, ground arith, ground arith)

  -- Whoever may change a ledger may see it.
  pub modify-view : can_modify_ledger m l ≡ true → can_view_ledger m l ≡ true
  unfolding can_modify_ledger can_view_ledger
  modify-view h = ground arith

-- ===== src/Tests/Members.antt =====
-- The owner of the sample family leaves, and a code is used for a new parent.
use rewardpointsweb.Base.{
  ◌≡◌, refl, true, [], ◌∷◌, none, some, exists, sort_by, place_by, arith, codes, is_blank, strip,
}
use rewardpointsweb.Failure.{ok, err, invitation_not_found}
use rewardpointsweb.Values.{display_name}
use rewardpointsweb.Roles.{owner, parent, administers_family, has_own_ledger, is_guardian}
use rewardpointsweb.Entities.{FamilyMembership, FamilyInvitation, Db, is_linked}
use rewardpointsweb.Access.{membership_in}
use rewardpointsweb.Members.{
  leave_family, delete_member, list_for_account, add_membership, next_display_order, account_taken,
  update_role, leave_to, list_for_family, change_member, sorted_members, place_member,
  stands_before,
}
use rewardpointsweb.Members.Leaving.{guards, administers, leave_family-guarded}
use rewardpointsweb.Invitations.{
  Hashing, bind, bind_to, consume, join_as_new, find_by_code, consumable, hash_code,
}
use rewardpointsweb.Invitations.Issue.{issue, issue-consume}
use rewardpointsweb.Invitations.Once.{bind-once}
use rewardpointsweb.Tests.Samples.{sample, the_owner, the_parent, the_child, the_display}

abbrev promoted_parent : FamilyMembership
promoted_parent = record the_parent { role = owner }

abbrev left : Db
left = delete_member 1 (record sample {
  memberships = record sample.memberships {
    rows = the_display ∷ the_child ∷ promoted_parent ∷ the_owner ∷ [];
  };
})

owner_member : membership_in 1 10 sample ≡ ok the_owner
unfolding membership_in
owner_member = refl

owner_left : leave_family 1 10 sample ≡ ok left
unfolding leave_family leave_to list_for_family update_role change_member sorted_members
    place_member membership_in has_own_ledger is_guardian stands_before is_linked administers_family
owner_left = refl

leave_family-guarded_example :
    (exists (guards 1) left.memberships.rows ≡ true)
    × (administers_family the_owner.role ≡ true
        → exists (administers 1) left.memberships.rows ≡ true)
leave_family-guarded_example =
    leave_family-guarded 1 10 the_owner sample left owner_member owner_left

abbrev plain : Hashing
plain = record { upper = λ s. s; sha256 = λ s. s }

abbrev invitation : FamilyInvitation
invitation = record {
  id = 1;
  family_id = 1;
  role = parent;
  target_membership_id = none;
  expires_at = 90;
  used_at = none;
  created_at = 30;
  code_hash = codes "ABC";
}

abbrev invited : Db
invited = record sample { invitations = record { rows = invitation ∷ []; next_id = 2 } }

abbrev joined : FamilyMembership
joined = record {
  id = 5;
  family_id = 1;
  account_id = some 20;
  role = parent;
  display_name = codes "Dai";
  created_at = 40;
  independence_proposed_at = none;
  display_order = 4;
}

abbrev with_joined : Db
with_joined = record sample {
  memberships = record { rows = joined ∷ sample.memberships.rows; next_id = 6 };
  invitations = record { rows = record invitation { used_at = some 40 } ∷ []; next_id = 2 };
}

bound : bind plain (codes " ABC") 20 (some (codes "Dai")) 40 invited ≡ ok (joined, with_joined)
unfolding bind bind_to consume join_as_new find_by_code consumable hash_code list_for_account
    add_membership next_display_order account_taken display_name is_blank sort_by place_by
    has_own_ledger
bound = refl

bind-once_example : bind plain (codes " ABC") 21 none 41 with_joined ≡ err invitation_not_found
bind-once_example =
    bind-once plain (codes " ABC") 20 (some (codes "Dai")) 40 invited joined with_joined bound 21
      none 41 (omega arith)

abbrev second_invitation : FamilyInvitation
second_invitation = record {
  id = 2;
  family_id = 1;
  role = parent;
  target_membership_id = none;
  expires_at = 95;
  used_at = none;
  created_at = 50;
  code_hash = codes "XYZ";
}

issued :
    issue plain (codes "XYZ ") 1 parent none 95 50 invited.invitations
    ≡ ok (second_invitation, record { rows = second_invitation ∷ invitation ∷ []; next_id = 3 })
unfolding issue hash_code strip
issued = refl

issue-consume_example :
    ((consume plain
        (codes "XYZ ")
        60
        (record { rows = second_invitation ∷ invitation ∷ []; next_id = 3 })).0
      ≡ some (record second_invitation { used_at = some 60 }))
    × (second_invitation.family_id ≡ 1)
    × (second_invitation.role ≡ parent)
    × (second_invitation.target_membership_id ≡ none)
issue-consume_example =
    issue-consume plain (codes "XYZ ") 1 parent none 95 50 60 second_invitation invited.invitations
      (record { rows = second_invitation ∷ invitation ∷ []; next_id = 3 }) issued (omega arith)

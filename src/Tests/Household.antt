-- ===== src/Tests/Household.antt =====
-- Members of the sample family who leave, and the life of a family at fixed requests.
use rewardpointsweb.Values.{display_name}
use rewardpointsweb.Invitations.{find_family}
use rewardpointsweb.Policy.{can_reorder_members, can_administer_family}
use rewardpointsweb.Roles.{is_guardian, is_display, has_own_ledger}
use rewardpointsweb.Base.{
  is_blank, exists, holds, sort_by, ℕ, ◌≡◌, ◌==◌, refl, true, false, Option, none, some, [], ◌∷◌,
  codes, arith,
}
use rewardpointsweb.Failure.{
  Result, ok, err, family_access_denied, family_not_empty, ledger_not_empty, invalid_member_order,
}
use rewardpointsweb.Entities.{independence_proposed, FamilyMembership, Db}
use rewardpointsweb.Access.{
  find_in_family, require_owner, find_membership, membership_in, find_ledger_of,
}
use rewardpointsweb.Ledger.{count_by_ledger}
use rewardpointsweb.Recording.Record.{shown_balance}
use rewardpointsweb.Members.{
  list_for_account, add_membership, account_taken, sorted_members, stands_before, place_member,
  list_for_family,
}
use rewardpointsweb.Household.{dissolve_family, reorder_members}
use rewardpointsweb.Household.Accounts.{
  delete_account, Role, Accounts, remove_membership, approve_independence,
}
use rewardpointsweb.Household.Roster.{
  AttachDisplayCommand, DisplayDto, attach_display, find_display, detach_account,
}
use rewardpointsweb.Household.Roster.Found.{attach_display-find}
use rewardpointsweb.Household.Kept.{remove_membership-keeps, approve_independence-takes}
use rewardpointsweb.Tests.Samples.{sample, the_owner, the_parent, the_child, the_ledger, dishes}

abbrev guest : Role
guest = record { name = codes "guest"; permissions = codes "point:view" ∷ [] }

abbrev member : Role
member = record { name = codes "member"; permissions = codes "family:manage" ∷ [] }

abbrev sample_accounts : Accounts
sample_accounts = record {
  users = record {
    rows = record { id = 12; username = codes "chi"; roles = guest ∷ [] } ∷ [];
    next_id = 13;
  };
  roles = guest ∷ member ∷ [];
}

abbrev removed_or : Result (Option ℕ × Db × Accounts) → Db × Accounts
removed_or (ok (display_id, db, accounts)) = (db, accounts)
removed_or (err e) = (sample, sample_accounts)

-- A family whose ledger with rows is another member's.
abbrev unrecorded : Db
unrecorded = record sample {
  ledgers = record {
    rows = record { id = 2; family_id = 1; membership_id = 5; created_at = 8 } ∷ the_ledger ∷ [];
    next_id = 3;
  };
  transactions = record { rows = record dishes { ledger_id = 2 } ∷ []; next_id = 3 };
}

abbrev child_removed : Result (Option ℕ × Db × Accounts)
child_removed = remove_membership 1 3 10 unrecorded sample_accounts

removes_child :
    child_removed ≡ ok (none, (removed_or child_removed).0, (removed_or child_removed).1)
unfolding remove_membership membership_in find_membership is_display can_administer_family
    find_ledger_of count_by_ledger has_own_ledger
removes_child = refl

child_shows :
    (d : FamilyMembership)
    → find_membership 3 unrecorded.memberships.rows ≡ some d
    → is_display d.role ≡ true
    → find_ledger_of d.id unrecorded.ledgers.rows ≡ none
unfolding find_membership is_display
child_shows d h shown = absurd (ground arith)

remove_membership-keeps_example :
    (shown_balance 2 (removed_or child_removed).0 ≡ shown_balance 2 unrecorded)
    × (count_by_ledger 2 (removed_or child_removed).0.transactions.rows
        ≡ count_by_ledger 2 unrecorded.transactions.rows)
remove_membership-keeps_example =
    remove_membership-keeps 1 3 10 unrecorded sample_accounts none (removed_or child_removed).0
      (removed_or child_removed).1 2 (refl, (refl, tt)) child_shows removes_child

-- A child whose ledger has rows stays.
keeps_child : remove_membership 1 3 10 sample sample_accounts ≡ err ledger_not_empty
unfolding remove_membership membership_in find_membership is_display can_administer_family
    find_ledger_of count_by_ledger
keeps_child = refl

abbrev leaving_child : FamilyMembership
leaving_child = record the_child { independence_proposed_at = some 30 }

abbrev with_proposal : Db
with_proposal = record sample {
  memberships = record { rows = leaving_child ∷ the_parent ∷ the_owner ∷ []; next_id = 5 };
}

abbrev approved_or : Result (Db × Accounts) → Db × Accounts
approved_or (ok (db, accounts)) = (db, accounts)
approved_or (err e) = (sample, sample_accounts)

abbrev child_approved : Result (Db × Accounts)
child_approved = approve_independence 1 12 with_proposal sample_accounts

approves_child :
    child_approved ≡ ok ((approved_or child_approved).0, (approved_or child_approved).1)
unfolding approve_independence membership_in has_own_ledger independence_proposed
approves_child = refl

is_leaving : membership_in 1 12 with_proposal ≡ ok leaving_child
unfolding membership_in
is_leaving = refl

has_ledger : find_ledger_of 3 with_proposal.ledgers.rows ≡ some the_ledger
unfolding find_ledger_of
has_ledger = refl

approve_independence-takes_example :
    (count_by_ledger 1 (approved_or child_approved).0.transactions.rows ≡ 0)
    × ((k : ℕ)
        → (1 == k) ≡ false
        → shown_balance k (approved_or child_approved).0 ≡ shown_balance k with_proposal)
approve_independence-takes_example =
    approve_independence-takes 1 12 with_proposal (approved_or child_approved).0 sample_accounts
      (approved_or child_approved).1 leaving_child the_ledger (refl, tt) is_leaving has_ledger
      approves_child

-- The child's account has become a member's.
promoted :
    (approved_or child_approved).1.users.rows
    ≡ record { id = 12; username = codes "chi"; roles = member ∷ [] } ∷ []
unfolding approve_independence membership_in has_own_ledger independence_proposed
promoted = refl

-- A family with other members is not dissolved.
not_dissolved : dissolve_family 1 10 sample ≡ err family_not_empty
unfolding dissolve_family require_owner list_for_family sorted_members place_member stands_before
not_dissolved = refl

-- An order that leaves the child out is refused.
not_reordered : reorder_members 1 10 [] sample ≡ err invalid_member_order
unfolding reorder_members membership_in can_reorder_members sort_by list_for_family sorted_members
    place_member stands_before has_own_ledger
not_reordered = refl

-- A display in the home of the sample family, under the next account.
abbrev home_accounts : Accounts
home_accounts = record sample_accounts {
  users = record {
    rows = record { id = 19; username = codes "chi"; roles = guest ∷ [] } ∷ [];
    next_id = 20;
  };
}

abbrev living_room : AttachDisplayCommand
living_room = record { family_id = 1; approver_id = 10; name = codes " Living " }

abbrev living_room_attached : Result (DisplayDto × Db × Accounts)
living_room_attached = attach_display living_room (codes "1") 40 sample home_accounts

abbrev attached_or : Result (DisplayDto × Db × Accounts) → DisplayDto × Db × Accounts
attached_or (ok found) = found
attached_or (err e) = (
  record {
    account_id = 0;
    membership_id = 0;
    family_id = 0;
    family_name = [];
    name = [];
    created_at = 0;
  },
  sample,
  home_accounts,
)

attaches_living_room : living_room_attached ≡ ok (attached_or living_room_attached)
unfolding attach_display find_in_family is_guardian find_family display_name is_blank add_membership
    account_taken
attaches_living_room = refl

nobody_has_next :
    exists (λ m. holds m.account_id home_accounts.users.next_id) sample.memberships.rows ≡ false
nobody_has_next = refl

attach_display-find_example :
    find_display
      (attached_or living_room_attached).0.account_id
      (attached_or living_room_attached).1
    ≡ ok (some (attached_or living_room_attached).0)
attach_display-find_example =
    attach_display-find living_room (codes "1") 40 sample (attached_or living_room_attached).1
      home_accounts (attached_or living_room_attached).2 (attached_or living_room_attached).0
      nobody_has_next attaches_living_room

-- A child attaches no display.
refuses_child :
    attach_display (record living_room { approver_id = 12 }) (codes "1") 40 sample home_accounts
    ≡ err family_access_denied
unfolding attach_display find_in_family is_guardian
refuses_child = refl

-- The display that is detached is the one that was found.
abbrev the_display : Result (DisplayDto × Db × Accounts) → Result DisplayDto
the_display (ok (found, db, accounts)) = ok found
the_display (err e) = err e

detaches_living_room :
    the_display
      (detach_account 20 (attached_or living_room_attached).1 (attached_or living_room_attached).2)
    ≡ ok (attached_or living_room_attached).0
unfolding detach_account list_for_account sort_by attach_display find_in_family is_guardian
    find_family display_name is_blank add_membership account_taken is_display delete_account
detaches_living_room = refl

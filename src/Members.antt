-- ===== src/Members.antt =====
-- The members of a family: infrastructure/sql_family_membership_repository.py, `add` of
-- infrastructure/sql_point_ledger_repository.py, and the use cases leave_family.py and
-- propose_independence.py of bounded_contexts/reward_points.
pub mod Leaving
use rewardpointsweb.Base.{
  ℕ, ◌+◌, Bool, true, false, ◌||◌, ◌&&◌, not, ◌==◌, ltb, if◌then◌else◌, Option, none, some, holds,
  is_some, List, [], ◌∷◌, select, exists, delete_where, update_where, sort_by, Text,
}
use rewardpointsweb.Failure.{
  Result, ok, err, raise_if, or_raise, ◌>>=◌, ◌>>◌, integrity_error, family_access_denied,
  membership_not_found, child_cannot_leave_family, last_guardian_cannot_leave,
  child_account_required, membership_not_linked,
}
use rewardpointsweb.Values.{display_name}
use rewardpointsweb.Roles.{
  FamilyRole, owner, parent, child, display, is_guardian, administers_family, has_own_ledger,
}
use rewardpointsweb.Entities.{
  FamilyMembership, FamilyInvitation, PointLedger, PointTransaction, Table, Db, insert_row,
  is_linked,
}
use rewardpointsweb.Schema.{forget_grantor, forget_stickers, drop_ledgers}
use rewardpointsweb.Access.{find_membership, membership_in, require_guardian}

-- `_ROLE_ORDER`
unfoldable pub role_order : FamilyRole → ℕ
role_order owner = 0
role_order parent = 1
role_order child = 2
role_order display = 3

-- The order of `_sorted`: by role, then by the family's own order, then by identifier.
unfoldable pub stands_before : FamilyMembership → FamilyMembership → Bool
unfolding role_order
stands_before m n =
    ltb (role_order m.role) (role_order n.role)
    || (role_order m.role == role_order n.role
        && (ltb m.display_order n.display_order
            || (m.display_order == n.display_order && ltb m.id n.id)))

unfoldable pub place_member : FamilyMembership → List FamilyMembership → List FamilyMembership
place_member m [] = m ∷ []
place_member m (n ∷ rows) = if stands_before n m then n ∷ place_member m rows else m ∷ n ∷ rows

-- `_sorted`
unfoldable pub sorted_members : List FamilyMembership → List FamilyMembership
sorted_members [] = []
sorted_members (m ∷ rows) = place_member m (sorted_members rows)

-- `list_for_family`
unfoldable pub list_for_family : ℕ → List FamilyMembership → List FamilyMembership
list_for_family family_id rows = sorted_members (select (λ m. m.family_id == family_id) rows)

-- `list_for_account`
unfoldable pub list_for_account : ℕ → List FamilyMembership → List FamilyMembership
list_for_account account_id rows =
    sort_by (λ m. m.family_id) (select (λ m. holds m.account_id account_id) rows)

-- `_next_display_order`: one above the highest.
unfoldable pub next_display_order : ℕ → List FamilyMembership → ℕ
next_display_order family_id [] = 0
next_display_order family_id (m ∷ rows) =
    let rest = next_display_order family_id rows in
    if m.family_id == family_id && not (ltb m.display_order rest) then m.display_order + 1 else rest

-- `uq_family_memberships_family_account`
unfoldable pub account_taken : ℕ → Option ℕ → List FamilyMembership → Bool
account_taken family_id none rows = false
account_taken family_id (some account_id) rows =
    exists (λ m. m.family_id == family_id && holds m.account_id account_id) rows

-- `add`
unfoldable pub add_membership :
    ℕ
    → Option ℕ
    → FamilyRole
    → Text
    → ℕ
    → Table FamilyMembership
    → Result (FamilyMembership × Table FamilyMembership)
add_membership family_id account_id role name now t = do
  validated ← display_name name
  raise_if (account_taken family_id account_id t.rows) integrity_error
  ok (
      insert_row
        (λ id. record {
          id = id;
          family_id = family_id;
          account_id = account_id;
          role = role;
          display_name = validated;
          created_at = now;
          independence_proposed_at = none;
          display_order = next_display_order family_id t.rows;
        })
        t)

-- `_require` and the assignment to one row that follows it.
unfoldable pub change_member :
    ℕ
    → (FamilyMembership → FamilyMembership)
    → Table FamilyMembership
    → Result (FamilyMembership × Table FamilyMembership)
unfolding find_membership
change_member membership_id change t = do
  row ← or_raise (find_membership membership_id t.rows) membership_not_found
  ok (change row, record t { rows = update_where (λ m. m.id == membership_id) change t.rows })

-- `link_account`
unfoldable pub link_account :
    ℕ → ℕ → Table FamilyMembership → Result (FamilyMembership × Table FamilyMembership)
link_account membership_id account_id t = do
  row ← or_raise (find_membership membership_id t.rows) membership_not_found
  raise_if
      (account_taken row.family_id (some account_id)
        (delete_where (λ m. m.id == membership_id) t.rows))
      integrity_error
  change_member membership_id (λ m. record m { account_id = some account_id }) t

-- `update_role`
unfoldable pub update_role :
    ℕ → FamilyRole → Table FamilyMembership → Result (FamilyMembership × Table FamilyMembership)
unfolding change_member
update_role membership_id role t = change_member membership_id (λ m. record m { role = role }) t

-- `propose_independence` of the repository.
unfoldable pub mark_proposed :
    ℕ → ℕ → Table FamilyMembership → Result (FamilyMembership × Table FamilyMembership)
mark_proposed membership_id proposed_at t =
    change_member membership_id (λ m. record m { independence_proposed_at = some proposed_at }) t

-- `clear_independence_proposal`
unfoldable pub clear_proposal :
    ℕ → Table FamilyMembership → Result (FamilyMembership × Table FamilyMembership)
clear_proposal membership_id t =
    change_member membership_id (λ m. record m { independence_proposed_at = none }) t

-- `delete`, with what the foreign keys of the schema do.
unfoldable pub delete_member : ℕ → Db → Db
unfolding drop_ledgers
delete_member membership_id db =
    let cascaded = drop_ledgers (λ l. l.membership_id == membership_id) db in
    record cascaded {
      memberships = record db.memberships {
        rows = delete_where (λ m. m.id == membership_id) db.memberships.rows;
      };
      transactions = record cascaded.transactions {
        rows =
            update_where (λ r. true) (λ r. forget_grantor membership_id r)
              cascaded.transactions.rows;
      };
      events = record cascaded.events {
        rows = update_where (λ e. true) (λ e. forget_stickers membership_id e) cascaded.events.rows;
      };
      invitations = record db.invitations {
        rows = delete_where (λ i. holds i.target_membership_id membership_id) db.invitations.rows;
      };
    }

-- The order of `_successor`'s `min`.
unfoldable pub is_older : FamilyMembership → FamilyMembership → Bool
is_older m n = ltb m.created_at n.created_at || (m.created_at == n.created_at && ltb m.id n.id)

-- `_successor`: of those that come first, the first.
unfoldable pub successor : FamilyMembership → List FamilyMembership → FamilyMembership
unfolding is_older
successor m [] = m
successor m (n ∷ rows) = successor (if is_older n m then n else m) rows

-- The owner's role goes to the successor.
abbrev pub hand_over :
    FamilyMembership
    → FamilyMembership
    → List FamilyMembership
    → Table FamilyMembership
    → Result (Table FamilyMembership)
hand_over me first_guardian guardians t =
    if not (administers_family me.role)
    then ok t
    else do (_, t') ← update_role (successor first_guardian guardians).id owner t; ok t'

-- What is done when `guardians` stay.
unfoldable pub leave_to : FamilyMembership → List FamilyMembership → Db → Result Db
unfolding update_role successor
leave_to me [] db = err last_guardian_cannot_leave
leave_to me (first_guardian ∷ guardians) db = do
  t ← hand_over me first_guardian guardians db.memberships
  ok (delete_member me.id (record db { memberships = t }))

-- The members that can take over: guardians who have an account.
abbrev pub can_take_over : FamilyMembership → FamilyMembership → Bool
can_take_over me m = not (m.id == me.id) && (is_guardian m.role && is_linked m)

-- `LeaveFamilyUseCase.execute`
unfoldable pub leave_family : ℕ → ℕ → Db → Result Db
unfolding leave_to list_for_family
leave_family family_id account_id db = do
  me ← membership_in family_id account_id db
  raise_if (has_own_ledger me.role) child_cannot_leave_family
  raise_if (not (is_guardian me.role)) family_access_denied
  leave_to me (select (can_take_over me) (list_for_family family_id db.memberships.rows)) db

-- `ProposeIndependenceUseCase.execute`
unfoldable pub propose_independence : ℕ → ℕ → ℕ → ℕ → Db → Result (FamilyMembership × Db)
propose_independence family_id membership_id account_id now db = do
  _ ← require_guardian family_id account_id db
  target ← or_raise (find_membership membership_id db.memberships.rows) membership_not_found
  raise_if (not (target.family_id == family_id)) membership_not_found
  raise_if (not (has_own_ledger target.role)) child_account_required
  raise_if (not (is_linked target)) membership_not_linked
  (m, t) ← mark_proposed target.id now db.memberships
  ok (m, record db { memberships = t })

-- `RevokeIndependenceProposalUseCase.execute`
unfoldable pub revoke_proposal : ℕ → ℕ → ℕ → Db → Result Db
revoke_proposal family_id membership_id account_id db = do
  _ ← require_guardian family_id account_id db
  target ← or_raise (find_membership membership_id db.memberships.rows) membership_not_found
  raise_if (not (target.family_id == family_id)) membership_not_found
  (_, t) ← clear_proposal target.id db.memberships
  ok (record db { memberships = t })

-- `add` of the ledgers; `point_ledgers.membership_id` is unique.
unfoldable pub add_ledger : ℕ → ℕ → ℕ → Table PointLedger → Result (PointLedger × Table PointLedger)
add_ledger family_id membership_id now t = do
  raise_if (exists (λ l. l.membership_id == membership_id) t.rows) integrity_error
  ok (
      insert_row
        (λ id. record {
          id = id;
          family_id = family_id;
          membership_id = membership_id;
          created_at = now;
        })
        t)

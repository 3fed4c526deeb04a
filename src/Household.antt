-- ===== src/Household.antt =====
-- The life of a family and its members: create_family.py, dissolve_family.py, rename_family.py,
-- edit_family_rules.py, add_child_membership.py, reorder_members.py, remove_membership.py and
-- approve_independence.py of application/use_cases in bounded_contexts/reward_points, with the
-- repositories' operations that they alone use. A use case that answers with a view of the family
-- gives the rows that the view starts from. Child Accounts has the accounts.
pub mod Accounts
pub mod Owned
pub mod Kept
pub mod Roster
use rewardpointsweb.Base.{
  ℕ, suc, ◌+◌, Bool, true, false, ◌&&◌, ◌||◌, not, ◌==◌, ltb, if◌then◌else◌, is_some, holds, Option,
  none, some, List, [], ◌∷◌, length, first, select, exists, delete_where, update_where, map,
  sort_by, Text, is_blank,
}
use rewardpointsweb.Failure.{
  Result, ok, err, ◌>>◌, ◌>>=◌, raise_if, or_raise, already_belongs_to_family, family_not_empty,
  family_not_found, family_access_denied, invalid_member_order, membership_not_found,
}
use rewardpointsweb.Values.{family_name, family_rules}
use rewardpointsweb.Roles.{owner, child, has_own_ledger}
use rewardpointsweb.Policy.{can_edit_family_rules, can_reorder_members}
use rewardpointsweb.Entities.{Family, FamilyMembership, PointLedger, Table, Db, insert_row}
use rewardpointsweb.Schema.{drop_ledgers}
use rewardpointsweb.Access.{membership_in, require_guardian, require_owner}
use rewardpointsweb.Invitations.{find_family}
use rewardpointsweb.Members.{
  list_for_family, list_for_account, add_membership, add_ledger, delete_member,
}

-- `_validated_rules`
unfoldable pub validated_rules : Option Text → Result (Option Text)
validated_rules none = ok none
validated_rules (some rules) =
    if is_blank rules then ok none else do value ← family_rules rules; ok (some value)

-- `SqlFamilyRepository.add`
unfoldable pub add_family : Text → Option Text → ℕ → Table Family → Result (Family × Table Family)
unfolding validated_rules
add_family name rules now t = do
  validated ← family_name name
  kept ← validated_rules rules
  ok (insert_row (λ id. record { id = id; name = validated; rules = kept; created_at = now }) t)

-- The row of a family, changed.
unfoldable pub change_family : ℕ → (Family → Family) → Table Family → Result (Family × Table Family)
change_family family_id change t = do
  row ← or_raise (find_family family_id t.rows) family_not_found
  ok (change row, record t { rows = update_where (λ f. f.id == family_id) change t.rows })

-- `update_name`
unfoldable pub update_name : ℕ → Text → Table Family → Result (Family × Table Family)
unfolding change_family
update_name family_id name t = do
  validated ← family_name name
  change_family family_id (λ f. record f { name = validated }) t

-- `update_rules`
unfoldable pub update_rules : ℕ → Option Text → Table Family → Result (Family × Table Family)
unfolding change_family validated_rules
update_rules family_id rules t = do
  validated ← validated_rules rules
  change_family family_id (λ f. record f { rules = validated }) t

-- Members of a family that go with it.
unfoldable pub delete_members : List FamilyMembership → Db → Db
delete_members [] db = db
delete_members (m ∷ members) db = delete_members members (delete_member m.id db)

-- `delete` of a family: its members, ledgers and invitations go with it.
unfoldable pub delete_family : ℕ → Db → Db
unfolding delete_members drop_ledgers
delete_family family_id db =
    let of_family = select (λ m. m.family_id == family_id) db.memberships.rows in
    let cascaded = drop_ledgers (λ l. l.family_id == family_id) (delete_members of_family db) in
    record cascaded {
      families = record db.families {
        rows = delete_where (λ f. f.id == family_id) db.families.rows;
      };
      invitations = record cascaded.invitations {
        rows = delete_where (λ i. i.family_id == family_id) cascaded.invitations.rows;
      };
    }

-- `delete` of a ledger, and what goes with it.
unfoldable pub delete_ledger : ℕ → Db → Db
unfolding drop_ledgers
delete_ledger ledger_id db = drop_ledgers (λ l. l.id == ledger_id) db

-- `CreateFamilyCommand`
pub record CreateFamilyCommand : Type 0 where
  pub name : Text
  pub account_id : ℕ
  pub display_name : Text

-- `CreateFamilyUseCase.execute`
unfoldable pub create_family :
    CreateFamilyCommand → ℕ → Db → Result (Family × FamilyMembership × Db)
unfolding add_family
create_family c now db = do
  raise_if (not (length (list_for_account c.account_id db.memberships.rows) == 0))
      already_belongs_to_family
  (family, families) ← add_family c.name none now db.families
  (me, memberships) ←
      add_membership family.id (some c.account_id) owner c.display_name now db.memberships
  ok (family, me, record db { families = families; memberships = memberships })

-- `DissolveFamilyUseCase.execute`
unfoldable pub dissolve_family : ℕ → ℕ → Db → Result Db
unfolding delete_family
dissolve_family family_id account_id db = do
  me ← require_owner family_id account_id db
  raise_if
      (not (
        length (select (λ m. not (m.id == me.id)) (list_for_family family_id db.memberships.rows))
        == 0))
      family_not_empty
  ok (delete_family family_id (delete_member me.id db))

-- `RenameFamilyUseCase.execute`
unfoldable pub rename_family : ℕ → ℕ → Text → Db → Result (Family × Db)
unfolding update_name
rename_family family_id account_id name db = do
  _ ← require_owner family_id account_id db
  (family, families) ← update_name family_id name db.families
  ok (family, record db { families = families })

-- `EditFamilyRulesUseCase.execute`
unfoldable pub edit_family_rules : ℕ → ℕ → Option Text → Db → Result (Family × Db)
unfolding update_rules
edit_family_rules family_id account_id rules db = do
  viewer ← membership_in family_id account_id db
  raise_if (not (can_edit_family_rules viewer)) family_access_denied
  (family, families) ← update_rules family_id rules db.families
  ok (family, record db { families = families })

-- `AddChildMembershipCommand`
pub record AddChildMembershipCommand : Type 0 where
  pub family_id : ℕ
  pub account_id : ℕ
  pub display_name : Text

-- `AddChildMembershipUseCase.execute`
unfoldable pub add_child_membership :
    AddChildMembershipCommand → ℕ → Db → Result (FamilyMembership × PointLedger × Db)
add_child_membership c now db = do
  _ ← require_guardian c.family_id c.account_id db
  (m, memberships) ← add_membership c.family_id none child c.display_name now db.memberships
  (ledger, ledgers) ← add_ledger c.family_id m.id now db.ledgers
  ok (m, ledger, record db { memberships = memberships; ledgers = ledgers })

-- The loop of `reorder`.
unfoldable pub reorder_from :
    ℕ → ℕ → List ℕ → Table FamilyMembership → Result (Table FamilyMembership)
reorder_from family_id order [] t = ok t
reorder_from family_id order (id ∷ ids) t =
    if not (exists (λ m. m.id == id && m.family_id == family_id) t.rows)
    then err membership_not_found
    else reorder_from family_id (order + 1) ids (record t {
      rows = update_where (λ m. m.id == id) (λ m. record m { display_order = order }) t.rows;
    })

-- `sorted(ids) == sorted(others)`
abbrev pub ids_eq : List ℕ → List ℕ → Bool
ids_eq [] [] = true
ids_eq (a ∷ ids) (b ∷ others) = a == b && ids_eq ids others
ids_eq [] (b ∷ others) = false
ids_eq (a ∷ ids) [] = false

-- `_require_same_children`
unfoldable pub require_same_children : ℕ → List ℕ → Db → Result (Unit {0})
require_same_children family_id ids db =
    let orderable =
      map (λ m. m.id)
        (select (λ m. has_own_ledger m.role) (list_for_family family_id db.memberships.rows)) in
    raise_if (not (ids_eq (sort_by (λ id. id) ids) (sort_by (λ id. id) orderable)))
      invalid_member_order

-- `ReorderMembersUseCase.execute`
unfoldable pub reorder_members : ℕ → ℕ → List ℕ → Db → Result (Family × Db)
unfolding reorder_from require_same_children
reorder_members family_id account_id ids db = do
  viewer ← membership_in family_id account_id db
  raise_if (not (can_reorder_members viewer)) family_access_denied
  require_same_children family_id ids db
  memberships ← reorder_from family_id 0 ids db.memberships
  family ← or_raise (find_family family_id db.families.rows) family_not_found
  ok (family, record db { memberships = memberships })

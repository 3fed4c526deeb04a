-- ===== src/Household/Accounts.antt =====
-- Members who leave with their account or their rights: remove_membership.py and
-- approve_independence.py of application/use_cases, and `SqlAccountProvisioning` of
-- infrastructure/sql_account_directory.py in bounded_contexts/reward_points, over the columns of the
-- accounts that these use (shared/infrastructure/models).
use rewardpointsweb.Base.{
  ℕ, Bool, true, ◌&&◌, ◌||◌, not, ◌==◌, ltb, if◌then◌else◌, Option, none, some, List, [], ◌∷◌, ◌++◌,
  first, exists, delete_where, update_where, Text, text_eq, codes,
}
use rewardpointsweb.Failure.{
  Result, ok, err, ◌>>◌, ◌>>=◌, raise_if, or_raise, value_error, family_access_denied,
  membership_not_found, ledger_not_empty, independence_not_proposed,
}
use rewardpointsweb.Roles.{FamilyRole, owner, parent, child, display, is_display, has_own_ledger}
use rewardpointsweb.Policy.{can_administer_family, can_detach_display}
use rewardpointsweb.Entities.{Table, FamilyMembership, Db, independence_proposed}
use rewardpointsweb.Schema.{drop_account}
use rewardpointsweb.Access.{membership_in, find_membership, find_ledger_of}
use rewardpointsweb.Ledger.{count_by_ledger, delete_by_ledger}
use rewardpointsweb.Members.{delete_member}
use rewardpointsweb.Household.{delete_ledger}

-- A role with its permissions' codes.
pub record Role : Type 0 where
  pub name : Text
  pub permissions : List Text

-- `User`
pub record User : Type 0 where
  pub id : ℕ
  pub username : Text
  pub roles : List Role

pub record Accounts : Type 0 where
  pub users : Table User
  pub roles : List Role

-- `_ROLE_FOR_FAMILY_ROLE`
unfoldable pub role_for : FamilyRole → Text
role_for owner = codes "member"
role_for parent = codes "member"
role_for child = codes "guest"
role_for display = codes "display"

-- `_GUARDIAN_SCOPES`
abbrev pub guardian_scopes : List Text
guardian_scopes =
    codes "family:view" ∷ codes "family:manage" ∷ codes "point:view" ∷ codes "point:manage" ∷ []

abbrev pub find_user : ℕ → List User → Option User
find_user account_id users = first (λ u. u.id == account_id) users

-- `code in held`
abbrev pub holds_scope : Text → List Role → Bool
holds_scope code roles = exists (λ r. exists (text_eq code) r.permissions) roles

-- `held >= _GUARDIAN_SCOPES`
abbrev pub holds_scopes : List Text → List Role → Bool
holds_scopes [] roles = true
holds_scopes (code ∷ scopes) roles = holds_scope code roles && holds_scopes scopes roles

-- `delete_account`
unfoldable pub delete_account : ℕ → Db → Accounts → Result (Db × Accounts)
unfolding drop_account
delete_account account_id db accounts = do
  _ ← or_raise (find_user account_id accounts.users.rows) value_error
  ok (
    drop_account account_id db,
    record accounts {
      users = record accounts.users {
        rows = delete_where (λ u. u.id == account_id) accounts.users.rows;
      };
    },
  )

-- `user.roles` after `grant_guardian_permissions`.
unfoldable pub promoted_roles : List Role → List Role → List Role
unfolding role_for
promoted_roles all roles =
    if holds_scopes guardian_scopes roles
    then roles
    else let kept = delete_where (λ r. text_eq r.name (role_for child)) roles in
      if exists (λ r. text_eq r.name (role_for parent)) kept
      then kept
      else elim (first (λ r. text_eq r.name (role_for parent)) all) [
        | none ↦ kept
        | some granted ↦ kept ++ granted ∷ []
      ]

-- `grant_guardian_permissions`
unfoldable pub grant_guardian_permissions : ℕ → Accounts → Result Accounts
unfolding promoted_roles
grant_guardian_permissions account_id accounts = do
  user ← or_raise (find_user account_id accounts.users.rows) value_error
  ok (record accounts {
    users = record accounts.users {
      rows =
          update_where (λ u. u.id == account_id)
            (λ u. record u { roles = promoted_roles accounts.roles user.roles })
            accounts.users.rows;
    };
  })

-- `_delete_owned_account_of`
unfoldable pub delete_owned_account_of : FamilyMembership → Db → Accounts → Result (Db × Accounts)
unfolding delete_account
delete_owned_account_of target db accounts =
    if has_own_ledger target.role || is_display target.role
    then elim target.account_id [
      | none ↦ ok (db, accounts)
      | some account_id ↦ delete_account account_id db accounts
    ]
    else ok (db, accounts)

-- `_remove_ledger_of`
unfoldable pub remove_ledger_of : ℕ → Db → Result Db
unfolding delete_ledger
remove_ledger_of membership_id db = elim (find_ledger_of membership_id db.ledgers.rows) [
  | none ↦ ok db
  | some ledger ↦
      if ltb 0 (count_by_ledger ledger.id db.transactions.rows)
      then err ledger_not_empty
      else ok (delete_ledger ledger.id db)
]

-- The exception when the target is not a member of the family.
unfoldable pub no_target : FamilyMembership → Result FamilyMembership
no_target actor =
    if not (can_administer_family actor) then err family_access_denied else err membership_not_found

-- `target is None or target.family_id != family_id`
unfoldable pub target_in : ℕ → FamilyMembership → Option FamilyMembership → Result FamilyMembership
unfolding no_target
target_in family_id actor none = no_target actor
target_in family_id actor (some target) =
    if target.family_id == family_id then ok target else no_target actor

-- `_detach_display`
unfoldable pub detach_display :
    FamilyMembership → FamilyMembership → Db → Accounts → Result (Option ℕ × Db × Accounts)
unfolding delete_owned_account_of
detach_display actor target db accounts = do
  raise_if (not (can_detach_display actor target)) family_access_denied
  (db', kept) ← delete_owned_account_of target (delete_member target.id db) accounts
  ok (target.account_id, db', kept)

-- `RemoveMembershipUseCase.execute`, for a person.
unfoldable pub remove_person :
    FamilyMembership → FamilyMembership → Db → Accounts → Result (Option ℕ × Db × Accounts)
unfolding delete_owned_account_of remove_ledger_of
remove_person actor target db accounts = do
  raise_if (not (can_administer_family actor) || target.id == actor.id) family_access_denied
  emptied ← remove_ledger_of target.id db
  (db', kept) ← delete_owned_account_of target (delete_member target.id emptied) accounts
  ok (none, db', kept)

-- `RemoveMembershipUseCase.execute`
unfoldable pub remove_membership : ℕ → ℕ → ℕ → Db → Accounts → Result (Option ℕ × Db × Accounts)
unfolding target_in detach_display remove_person
remove_membership family_id membership_id account_id db accounts = do
  actor ← membership_in family_id account_id db
  target ← target_in family_id actor (find_membership membership_id db.memberships.rows)
  if is_display target.role
      then detach_display actor target db accounts
      else remove_person actor target db accounts

-- `_remove_ledger_with_records`
unfoldable pub remove_ledger_with_records : ℕ → Db → Db
unfolding delete_ledger
remove_ledger_with_records membership_id db = elim (find_ledger_of membership_id db.ledgers.rows) [
  | none ↦ db
  | some ledger ↦
      delete_ledger ledger.id
        (record db { transactions = delete_by_ledger ledger.id db.transactions })
]

-- `ApproveIndependenceUseCase.execute`
unfoldable pub approve_independence : ℕ → ℕ → Db → Accounts → Result (Db × Accounts)
unfolding remove_ledger_with_records grant_guardian_permissions
approve_independence family_id account_id db accounts = do
  me ← membership_in family_id account_id db
  raise_if (not (has_own_ledger me.role)) family_access_denied
  raise_if (not (independence_proposed me)) independence_not_proposed
  accounts' ← grant_guardian_permissions account_id accounts
  ok (delete_member me.id (remove_ledger_with_records me.id db), accounts')

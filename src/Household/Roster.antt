-- ===== src/Household/Roster.antt =====
-- The displays of the families: application/use_cases/manage_displays.py of
-- bounded_contexts/reward_points, with `create_display_account` of
-- infrastructure/sql_account_directory.py. What `secrets` draws for an account's name is an argument.
pub mod Found
use rewardpointsweb.Base.{
  ℕ, ◌≡◌, refl, sym, ap, ◌∙◌, Bool, true, false, not, ==_refl, if◌then◌else◌, holds, Option, none,
  some, List, [], ◌∷◌, first, select, exists, sort_by, place_by, Text, text_eq, strip, codes, arith,
  ◌++◌,
}
use rewardpointsweb.Failure.{
  Result, ok, ◌>>◌, ◌>>=◌, raise_if, or_raise, integrity_error, family_access_denied,
  family_not_found, display_not_found, succeeds-steps, raise_if-passes,
}
use rewardpointsweb.Values.{display_name}
use rewardpointsweb.Roles.{display, is_guardian, is_display}
use rewardpointsweb.Entities.{Family, FamilyMembership, Table, Db, insert_row}
use rewardpointsweb.Access.{find_in_family}
use rewardpointsweb.Invitations.{find_family}
use rewardpointsweb.Members.{list_for_account, add_membership, account_taken, delete_member}
use rewardpointsweb.Household.Accounts.{Role, User, Accounts, role_for, delete_account}

-- `AttachDisplayCommand`
pub record AttachDisplayCommand : Type 0 where
  pub family_id : ℕ
  pub approver_id : ℕ
  pub name : Text

-- `DisplayDTO`
pub record DisplayDto : Type 0 where
  pub account_id : ℕ
  pub membership_id : ℕ
  pub family_id : ℕ
  pub family_name : Text
  pub name : Text
  pub created_at : ℕ

-- `_to_dto`
unfoldable pub to_display : FamilyMembership → Family → Result DisplayDto
to_display m family = do
  account_id ← or_raise m.account_id display_not_found
  ok (record {
    account_id = account_id;
    membership_id = m.id;
    family_id = family.id;
    family_name = family.name;
    name = m.display_name;
    created_at = m.created_at;
  })

-- The role of a display, if there is one.
abbrev pub role_if : Option Role → List Role
role_if none = []
role_if (some role) = role ∷ []

-- `_DISPLAY_USERNAME_PREFIX`
abbrev pub display_username_prefix : Text
display_username_prefix = codes "display-"

-- `create_display_account`: the name of an account is unique.
unfoldable pub create_display_account : Text → Accounts → Result (User × Accounts)
create_display_account token accounts = do
  let name = display_username_prefix ++ token
  raise_if (exists (λ u. text_eq u.username name) accounts.users.rows) integrity_error
  let roles = role_if (first (λ r. text_eq r.name (role_for display)) accounts.roles)
  let (user, users) =
      insert_row (λ id. record { id = id; username = name; roles = roles }) accounts.users
  ok (user, record accounts { users = users })

-- `approver is None or not approver.role.is_guardian`
abbrev pub may_attach : Option FamilyMembership → Bool
may_attach none = false
may_attach (some approver) = is_guardian approver.role

-- `attach`
unfoldable pub attach_display :
    AttachDisplayCommand → Text → ℕ → Db → Accounts → Result (DisplayDto × Db × Accounts)
unfolding create_display_account to_display
attach_display c token now db accounts = do
  raise_if (not (may_attach (find_in_family c.family_id c.approver_id db.memberships.rows)))
      family_access_denied
  family ← or_raise (find_family c.family_id db.families.rows) family_not_found
  name ← display_name (strip c.name)
  (user, accounts') ← create_display_account token accounts
  (m, memberships) ← add_membership family.id (some user.id) display name now db.memberships
  dto ← to_display m family
  ok (dto, record db { memberships = memberships }, accounts')

-- `None if family is None else _to_dto(membership, family)`
abbrev pub show_in : FamilyMembership → Option Family → Result (Option DisplayDto)
show_in m none = ok none
show_in m (some family) = do dto ← to_display m family; ok (some dto)

-- The display of a membership, if its family is there.
abbrev pub show_display : Db → Option FamilyMembership → Result (Option DisplayDto)
show_display db none = ok none
show_display db (some m) = show_in m (find_family m.family_id db.families.rows)

-- `find`, where a display without an account is an error.
unfoldable pub find_display : ℕ → Db → Result (Option DisplayDto)
find_display account_id db =
    show_display db
      (first (λ m. is_display m.role) (list_for_account account_id db.memberships.rows))

-- `detach`
unfoldable pub detach_account : ℕ → Db → Accounts → Result (DisplayDto × Db × Accounts)
unfolding find_display
detach_account account_id db accounts = do
  looked ← find_display account_id db
  found ← or_raise looked display_not_found
  (db', kept) ← delete_account account_id (delete_member found.membership_id db) accounts
  ok (found, db', kept)

-- ===== src/Access/Laws.antt =====
-- Who gets through the resolver.
use rewardpointsweb.Base.{
  ℕ, ◌≡◌, refl, sym, ◌∙◌, ◌↔◌, ◌⊎◌, inl, inr, true, ◌&&◌, ◌==◌, holds, some, arith, first-holds,
  first-Memᴰ, first-only,
}
use mathlib.Core.List.{Memᴰ}
use rewardpointsweb.Failure.{ok}
use rewardpointsweb.Entities.{FamilyMembership, PointLedger, Db}
use rewardpointsweb.Roles.{FamilyRole, owner, parent, child, display, is_guardian}
use rewardpointsweb.Access.{LedgerAccess, find_ledger, find_in_family, modifiable_ledger}

pub find_ledger-id :
    (l : ℕ) (db : Db) (ledger : PointLedger)
    → find_ledger l db.ledgers.rows ≡ some ledger
    → ledger.id ≡ l
unfolding find_ledger
find_ledger-id l db ledger h =
    ground (arith, first-holds (λ (x : PointLedger). x.id == l) db.ledgers.rows ledger h)

pub find_in_family-holds :
    (f a : ℕ) (db : Db) (m : FamilyMembership)
    → find_in_family f a db.memberships.rows ≡ some m
    → (m.family_id ≡ f) × (m.account_id ≡ some a)
unfolding find_in_family
find_in_family-holds f a db m h = ground (
  arith,
  first-holds (λ (x : FamilyMembership). x.family_id == f && holds x.account_id a)
      db.memberships.rows m h,
)

-- The guardians are the owner and the parents.
is_guardian-cases : (r : FamilyRole) → is_guardian r ≡ true → (r ≡ owner) ⊎ (r ≡ parent)
unfolding is_guardian
is_guardian-cases owner h = inl refl
is_guardian-cases parent h = inr refl
is_guardian-cases child h = cc
is_guardian-cases display h = cc

guardian-is : (r : FamilyRole) → (r ≡ owner) ⊎ (r ≡ parent) → is_guardian r ≡ true
unfolding is_guardian
guardian-is r (inl e) = rw e refl
guardian-is r (inr e) = rw e refl

-- The account's membership in the family.
mine_is :
    (f a : ℕ) (m : FamilyMembership)
    → (m.family_id == f && holds m.account_id a) ≡ true
    → (m.family_id ≡ f) × (m.account_id ≡ some a)
mine_is f a m h = ground arith

is_mine :
    (f a : ℕ) (m : FamilyMembership)
    → m.family_id ≡ f
    → m.account_id ≡ some a
    → (m.family_id == f && holds m.account_id a) ≡ true
is_mine f a m family account = ground arith

-- Changing a ledger is granted, with its two rows, exactly when a guardian's role is found.
modifiable_ledger-found :
    (l a : ℕ) (db : Db) (access : LedgerAccess)
    → (modifiable_ledger l a db ≡ ok access) ↔ (
        (find_ledger l db.ledgers.rows ≡ some access.ledger)
        × (find_in_family access.ledger.family_id a db.memberships.rows ≡ some access.membership)
        × (is_guardian access.membership.role ≡ true))
unfolding modifiable_ledger
modifiable_ledger-found l a db access = (
  ground arith,
  λ h. ground (arith, find_in_family-holds access.ledger.family_id a db access.membership h.1),
)

-- The keys of the two tables: an identifier names one ledger, and an account is one member of a
-- family at most.
pub record HasKeys (db : Db) : Type 0 where
  pub ledger :
      (x y : PointLedger) → Memᴰ x db.ledgers.rows → Memᴰ y db.ledgers.rows → x.id ≡ y.id → x ≡ y
  pub membership :
      (m n : FamilyMembership) (a : ℕ)
      → Memᴰ m db.memberships.rows
      → Memᴰ n db.memberships.rows
      → m.family_id ≡ n.family_id
      → m.account_id ≡ some a
      → n.account_id ≡ some a
      → m ≡ n

-- In a database that keeps its keys, changing a ledger is granted to an account exactly when the
-- table has the ledger and a membership of that account in the ledger's family, as an owner or a
-- parent; the answer is these two rows.
pub modifiable_ledger_lem :
    (l a : ℕ) (db : Db) (access : LedgerAccess)
    → HasKeys db
    → (modifiable_ledger l a db ≡ ok access) ↔ (
        Memᴰ access.ledger db.ledgers.rows
        × (access.ledger.id ≡ l)
        × Memᴰ access.membership db.memberships.rows
        × (access.membership.family_id ≡ access.ledger.family_id)
        × (access.membership.account_id ≡ some a)
        × ((access.membership.role ≡ owner) ⊎ (access.membership.role ≡ parent)))
unfolding find_ledger find_in_family
modifiable_ledger_lem l a db access keys = (
  λ h.
      let (found, joined, guardian) = (modifiable_ledger-found l a db access).0 h in
      let (there, same_id) = first-Memᴰ (λ x. x.id == l) db.ledgers.rows access.ledger found in
      let (member, _) =
        first-Memᴰ (λ m. m.family_id == access.ledger.family_id && holds m.account_id a)
          db.memberships.rows access.membership joined in
      let (family, account) =
        find_in_family-holds access.ledger.family_id a db access.membership joined in
      (
        there,
        ground arith,
        member,
        family,
        account,
        is_guardian-cases access.membership.role guardian,
      ),
  λ (there, same_id, member, family, account, role). (modifiable_ledger-found l a db access).1 (
    first-only (λ x. x.id == l) db.ledgers.rows access.ledger there (ground arith)
        (λ x other e. keys.ledger x access.ledger other there (ground arith)),
    first-only (λ m. m.family_id == access.ledger.family_id && holds m.account_id a)
        db.memberships.rows access.membership member
        (is_mine access.ledger.family_id a access.membership family account)
        (λ m other e.
          let (their_family, theirs) = mine_is access.ledger.family_id a m e in
          keys.membership m access.membership a other member (their_family ∙ sym family) theirs
            account),
    guardian-is access.membership.role role,
  ),
)

-- What a granted access is about: the ledger that was asked for, and the account's own membership
-- in the ledger's family, as a guardian.
pub modifiable_ledger-holds :
    (l a : ℕ) (db : Db) (access : LedgerAccess)
    → modifiable_ledger l a db ≡ ok access
    → (access.ledger.id ≡ l)
      × (access.membership.family_id ≡ access.ledger.family_id)
      × (access.membership.account_id ≡ some a)
      × (is_guardian access.membership.role ≡ true)
modifiable_ledger-holds l a db access h =
    let (found, joined, guardian) = (modifiable_ledger-found l a db access).0 h in
    let (same_family, same_account) =
      find_in_family-holds access.ledger.family_id a db access.membership joined in
    (find_ledger-id l db access.ledger found, same_family, same_account, guardian)

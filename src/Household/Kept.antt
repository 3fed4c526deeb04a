-- ===== src/Household/Kept.antt =====
-- About the rows of the ledgers when a member is removed (remove_membership.py) and when an
-- independence is approved (approve_independence.py).
use rewardpointsweb.Base.{
  ℕ, ◌≡◌, refl, sym, ap, exists, none, first-exists, ◌∙◌, true, false, ◌||◌, not, ◌==◌, Option,
  some, Bool-cases, inl, inr, arith,
}
use rewardpointsweb.Failure.{
  ok, succeeds-steps, raise_if-passes, family_access_denied, independence_not_proposed,
}
use rewardpointsweb.Roles.{is_display, has_own_ledger}
use rewardpointsweb.Policy.{can_administer_family, can_detach_display}
use rewardpointsweb.Entities.{
  PointLedger, PointTransaction, FamilyMembership, Table, Db, independence_proposed,
}
use rewardpointsweb.Access.{membership_in, find_membership, find_ledger_of}
use rewardpointsweb.Ledger.{count_by_ledger, list_by_ledger, statement_balance}
use rewardpointsweb.Ledger.Sum.{statement_balance-eq}
use rewardpointsweb.Recording.Record.{shown_balance}
use rewardpointsweb.Members.{delete_member}
use rewardpointsweb.Schema.{drop_account}
use rewardpointsweb.Household.Owned.{
  IsOwnedOnce, delete_member-keeps, remove_ledger_of-rows, remove_ledger_with_records-rows,
  count-deleted, balance_in-deleted,
}
use rewardpointsweb.Household.Accounts.{
  Accounts, target_in, no_target, detach_display, remove_person, remove_ledger_of,
  remove_membership, remove_ledger_with_records, approve_independence, delete_owned_account_of,
  delete_account, grant_guardian_permissions,
}

-- Deleting an account writes no row of a ledger.
delete_owned_account_of-rows :
    (target : FamilyMembership) (db db' : Db) (accounts accounts' : Accounts)
    → delete_owned_account_of target db accounts ≡ ok (db', accounts')
    → db.transactions ≡ db'.transactions
unfolding delete_owned_account_of delete_account drop_account
delete_owned_account_of-rows target db db' accounts accounts' h = ground arith

detach_display-writes :
    (actor target : FamilyMembership) (db : Db) (accounts : Accounts) (display_id : Option ℕ)
    (after : Db) (accounts' : Accounts)
    → detach_display actor target db accounts ≡ ok (display_id, after, accounts')
    → after.transactions ≡ (delete_member target.id db).transactions
unfolding detach_display
detach_display-writes actor target db accounts display_id after accounts' h =
    let (h1, _) =
      raise_if-passes (not (can_detach_display actor target)) family_access_denied _ h in
    let ((db', kept), h2, deleted) =
      succeeds-steps _ (delete_owned_account_of target (delete_member target.id db) accounts) h1 in
    let same : db' ≡ after = ground arith in
    sym (
      delete_owned_account_of-rows target (delete_member target.id db) db' accounts kept deleted
      ∙ ap (λ (d : Db). d.transactions) same)

remove_person-writes :
    (actor target : FamilyMembership) (db : Db) (accounts : Accounts) (display_id : Option ℕ)
    (after : Db) (accounts' : Accounts)
    → IsOwnedOnce db.ledgers.rows
    → remove_person actor target db accounts ≡ ok (display_id, after, accounts')
    → (emptied : Db) × (emptied.transactions.rows ≡ db.transactions.rows)
      × (exists (λ l. l.membership_id == target.id) emptied.ledgers.rows ≡ false)
      × (after.transactions ≡ (delete_member target.id emptied).transactions)
unfolding remove_person
remove_person-writes actor target db accounts display_id after accounts' owned h =
    let (h1, _) =
      raise_if-passes (not (can_administer_family actor) || target.id == actor.id)
        family_access_denied _ h in
    let (emptied, h2, swept) = succeeds-steps _ (remove_ledger_of target.id db) h1 in
    let ((db', kept), h3, deleted) =
      succeeds-steps _ (delete_owned_account_of target (delete_member target.id emptied) accounts)
        h2 in
    let (rows, none_left) = remove_ledger_of-rows target.id db emptied owned swept in
    let same : db' ≡ after = ground arith in
    (
      emptied,
      rows,
      none_left,
      sym (
          delete_owned_account_of-rows target (delete_member target.id emptied) db' accounts kept
            deleted
          ∙ ap (λ (d : Db). d.transactions) same),
    )

target_in-found :
    (family_id : ℕ) (actor target : FamilyMembership) (o : Option FamilyMembership)
    → target_in family_id actor o ≡ ok target
    → o ≡ some target
unfolding target_in no_target
target_in-found family_id actor target none h = ground arith
target_in-found family_id actor target (some found) h = ground arith

-- A display has no ledger.
abbrev pub HasNoLedger : ℕ → Db → Type 0
HasNoLedger membership_id db =
    (d : FamilyMembership)
    → find_membership membership_id db.memberships.rows ≡ some d
    → is_display d.role ≡ true
    → find_ledger_of d.id db.ledgers.rows ≡ none

-- What a removal leaves.
removal-writes :
    (family_id membership_id account_id : ℕ) (db : Db) (accounts : Accounts) (display_id : Option ℕ)
    (after : Db) (accounts' : Accounts)
    → IsOwnedOnce db.ledgers.rows
    → HasNoLedger membership_id db
    → remove_membership family_id membership_id account_id db accounts
      ≡ ok (display_id, after, accounts')
    → (m : ℕ) × (emptied : Db) × (emptied.transactions.rows ≡ db.transactions.rows)
      × (exists (λ l. l.membership_id == m) emptied.ledgers.rows ≡ false)
      × (after.transactions ≡ (delete_member m emptied).transactions)
unfolding remove_membership find_ledger_of
removal-writes family_id membership_id account_id db accounts display_id after accounts' owned shows
      h =
    let (actor, h1, _) = succeeds-steps _ (membership_in family_id account_id db) h in
    let o = find_membership membership_id db.memberships.rows in
    let (target, h2, known) = succeeds-steps _ (target_in family_id actor o) h1 in
    elim (Bool-cases (is_display target.role)) [
      | inl shown ↦
          let done : detach_display actor target db accounts ≡ ok (display_id, after, accounts') =
            ground arith in
          let bare = shows target (target_in-found family_id actor target o known) shown in
          (
            target.id,
            db,
            refl,
            first-exists (λ l. l.membership_id == target.id) db.ledgers.rows bare,
            detach_display-writes actor target db accounts display_id after accounts' done,
          )
      | inr person ↦
          let done : remove_person actor target db accounts ≡ ok (display_id, after, accounts') =
            ground arith in
          let (emptied, rows, none_left, written) =
            remove_person-writes actor target db accounts display_id after accounts' owned done in
          (target.id, emptied, rows, none_left, written)
    ]

-- When a member or a display is removed from a family, in a database where a member has one ledger
-- at most and a display none, every ledger's rows are as many as before, and its statement shows the
-- balance that it showed, though the deletion of a member takes the member's ledger and its rows
-- along.
pub remove_membership-keeps :
    (family_id membership_id account_id : ℕ) (db : Db) (accounts : Accounts) (display_id : Option ℕ)
    (after : Db) (accounts' : Accounts) (l : ℕ)
    → IsOwnedOnce db.ledgers.rows
    → HasNoLedger membership_id db
    → remove_membership family_id membership_id account_id db accounts
      ≡ ok (display_id, after, accounts')
    → (shown_balance l after ≡ shown_balance l db)
      × (count_by_ledger l after.transactions.rows ≡ count_by_ledger l db.transactions.rows)
remove_membership-keeps family_id membership_id account_id db accounts display_id after accounts' l
      owned shows h =
    let (m, emptied, same, none_left, written) =
      removal-writes family_id membership_id account_id db accounts display_id after accounts' owned
        shows h in
    let (balance, rows) = delete_member-keeps m l emptied none_left in
    (
      ap (λ (t : Table PointTransaction). statement_balance (list_by_ledger l t.rows)) written
          ∙ balance
          ∙ ap (λ rs. statement_balance (list_by_ledger l rs)) same,
      ap (λ (t : Table PointTransaction). count_by_ledger l t.rows) written
          ∙ rows
          ∙ ap (count_by_ledger l) same,
    )

approval-writes :
    (family_id account_id : ℕ) (db after : Db) (accounts accounts' : Accounts)
    (me : FamilyMembership)
    → membership_in family_id account_id db ≡ ok me
    → approve_independence family_id account_id db accounts ≡ ok (after, accounts')
    → (grant_guardian_permissions account_id accounts ≡ ok accounts')
      × (after ≡ delete_member me.id (remove_ledger_with_records me.id db))
unfolding approve_independence
approval-writes family_id account_id db after accounts accounts' me found h =
    let (other, h1, known) = succeeds-steps _ (membership_in family_id account_id db) h in
    let (h2, _) = raise_if-passes (not (has_own_ledger other.role)) family_access_denied _ h1 in
    let (h3, _) =
      raise_if-passes (not (independence_proposed other)) independence_not_proposed _ h2 in
    let (granted, h4, done) =
      succeeds-steps _ (grant_guardian_permissions account_id accounts) h3 in
    ground arith

-- When a child's independence is approved, in a database where a member has one ledger at most, the
-- ledger of the child's membership has no rows left, and the statements of all other ledgers show the
-- balance that they showed before.
pub approve_independence-takes :
    (family_id account_id : ℕ) (db after : Db) (accounts accounts' : Accounts)
    (me : FamilyMembership) (ledger : PointLedger)
    → IsOwnedOnce db.ledgers.rows
    → membership_in family_id account_id db ≡ ok me
    → find_ledger_of me.id db.ledgers.rows ≡ some ledger
    → approve_independence family_id account_id db accounts ≡ ok (after, accounts')
    → (count_by_ledger ledger.id after.transactions.rows ≡ 0)
      × ((k : ℕ) → (ledger.id == k) ≡ false → shown_balance k after ≡ shown_balance k db)
approve_independence-takes family_id account_id db after accounts accounts' me ledger owned found
      own h =
    let (_, written) =
      approval-writes family_id account_id db after accounts accounts' me found h in
    let left = remove_ledger_with_records me.id db in
    let (rows, none_left) = remove_ledger_with_records-rows me.id ledger db owned own in
    (
      rw written (
          (delete_member-keeps me.id ledger.id left none_left).1
          ∙ rw rows (count-deleted ledger.id db.transactions.rows)),
      λ k other. rw written (
          (delete_member-keeps me.id k left none_left).0
          ∙ statement_balance-eq k left.transactions.rows
          ∙ rw rows (balance_in-deleted ledger.id k db.transactions.rows other)
          ∙ sym (statement_balance-eq k db.transactions.rows)),
    )

-- ===== src/Tests/Ledger.antt =====
-- Appending to the sample ledger, reading it, deleting it, and who may.
use rewardpointsweb.Base.{
  neg, ℕ, sym, ◌∙◌, negsuc, ◌==◌, if◌then◌else◌, ◌≡◌, ◌⊎◌, ◌↔◌, none, some, refl, true, pos, codes,
  arith, is_blank,
}
use rewardpointsweb.Failure.{ok}
use rewardpointsweb.Values.{idempotency_key, point_amount, transaction_reason}
use mathlib.Core.List.{Memᴰ}
use mathlib.Core.List.Memᴰ
use mathlib.Core.Logic.{⊎_elim}
use rewardpointsweb.Roles.{owner, parent}
use rewardpointsweb.Policy.{
  can_view_ledger, can_modify_ledger, can_administer_family, can_create_child,
}
use rewardpointsweb.Policy.Laws.{rights, policy-rights}
use rewardpointsweb.Entities.{PointTransaction, FamilyMembership, Table}
use rewardpointsweb.Access.{modifiable_ledger}
use rewardpointsweb.Access.Laws.{HasKeys, modifiable_ledger_lem}
use rewardpointsweb.Ledger.{
  find_in_ledger, NewTransaction, append, append_unless, insert_once, find_by_key, violates_unique,
  list_by_ledger, statement_balance, delete_by_ledger,
}
use rewardpointsweb.Ledger.Sum.{balance_in, statement_balance-eq}
use rewardpointsweb.Ledger.History.{IsValid, delete_by_ledger-IsValid}
use rewardpointsweb.Ledger.Append.{added_row, added_table, append-IsValid}
use rewardpointsweb.Tests.Samples.{
  sample, sample-IsValid, the_owner, the_parent, the_child, the_display, the_ledger, dishes,
}

abbrev praise : NewTransaction
praise = record {
  ledger_id = 1;
  amount = pos 30;
  reason = codes "homework";
  granted_by_membership_id = some 1;
  occurred_at = 40;
  idempotency_key = codes "k3";
  reversal_of_id = none;
  corrects_id = none;
}

-- The table after somebody else's request with the same key.
abbrev raced : Table PointTransaction
raced = added_table praise 39 sample.transactions

praise_added :
    append praise 40 sample.transactions
    ≡ ok (added_row praise 40 sample.transactions, added_table praise 40 sample.transactions)
unfolding append append_unless insert_once violates_unique find_by_key is_blank idempotency_key
    point_amount transaction_reason
praise_added = refl

-- The reversal of `dishes`, and a correction that restates it.
abbrev undo_dishes : NewTransaction
undo_dishes = record {
  ledger_id = 1;
  amount = negsuc 49;
  reason = codes "dishes";
  granted_by_membership_id = some 1;
  occurred_at = 40;
  idempotency_key = codes "k3";
  reversal_of_id = some 1;
  corrects_id = none;
}

abbrev undone : Table PointTransaction
undone = added_table undo_dishes 40 sample.transactions

dishes_undone :
    append undo_dishes 40 sample.transactions
    ≡ ok (added_row undo_dishes 40 sample.transactions, undone)
unfolding append idempotency_key is_blank append_unless find_by_key point_amount transaction_reason
    insert_once violates_unique
dishes_undone = refl

undone-IsValid : IsValid undone
unfolding find_in_ledger neg
undone-IsValid =
    append-IsValid undo_dishes 40 sample.transactions (added_row undo_dishes 40 sample.transactions)
      undone dishes_undone sample-IsValid (dishes, refl, refl, refl) tt

abbrev less_for_dishes : NewTransaction
less_for_dishes = record {
  ledger_id = 1;
  amount = pos 40;
  reason = codes "dishes";
  granted_by_membership_id = some 1;
  occurred_at = 40;
  idempotency_key = codes "k4";
  reversal_of_id = none;
  corrects_id = some 1;
}

dishes_restated :
    append less_for_dishes 41 undone
    ≡ ok (added_row less_for_dishes 41 undone, added_table less_for_dishes 41 undone)
unfolding append idempotency_key is_blank append_unless find_by_key point_amount transaction_reason
    insert_once violates_unique
dishes_restated = refl

append-IsValid_example : IsValid (added_table less_for_dishes 41 undone)
append-IsValid_example =
    append-IsValid less_for_dishes 41 undone (added_row less_for_dishes 41 undone)
      (added_table less_for_dishes 41 undone) dishes_restated undone-IsValid tt refl

delete_by_ledger-IsValid_example : IsValid (delete_by_ledger 1 sample.transactions)
delete_by_ledger-IsValid_example = delete_by_ledger-IsValid 1 sample.transactions sample-IsValid

statement_balance-eq_example :
    statement_balance (list_by_ledger 1 sample.transactions.rows)
    ≡ balance_in 1 sample.transactions.rows
statement_balance-eq_example = statement_balance-eq 1 sample.transactions.rows

-- The sample's member of an account.
abbrev member_of : ℕ → FamilyMembership
member_of a =
    if a == 10
    then the_owner
    else if a == 11
    then the_parent
    else if a == 12
    then the_child
    else the_display

sample-member :
    (m : FamilyMembership) (a : ℕ)
    → Memᴰ m sample.memberships.rows
    → m.account_id ≡ some a
    → m ≡ member_of a
sample-member m a there account =
    ⊎_elim (λ (e : m ≡ the_display). ground arith)
      (λ rest.
        ⊎_elim (λ (e : m ≡ the_child). ground arith)
          (λ rest'.
            ⊎_elim (λ (e : m ≡ the_parent). ground arith)
              (λ last. let e : m ≡ the_owner = Memᴰ.eq_of_singleton last in ground arith)
              (Memᴰ.cases_cons rest'))
          (Memᴰ.cases_cons rest))
      (Memᴰ.cases_cons there)

sample-HasKeys : HasKeys sample
sample-HasKeys = record {
  ledger = λ x y mx my e. Memᴰ.eq_of_singleton mx ∙ sym (Memᴰ.eq_of_singleton my);
  membership = λ m n a mm mn family hm hn. sample-member m a mm hm ∙ sym (sample-member n a mn hn);
}

modifiable_ledger_lem_example :
    (modifiable_ledger 1 10 sample ≡ ok record { membership = the_owner; ledger = the_ledger }) ↔ (
      Memᴰ the_ledger sample.ledgers.rows
      × (the_ledger.id ≡ 1)
      × Memᴰ the_owner sample.memberships.rows
      × (the_owner.family_id ≡ the_ledger.family_id)
      × (the_owner.account_id ≡ some 10)
      × ((the_owner.role ≡ owner) ⊎ (the_owner.role ≡ parent)))
modifiable_ledger_lem_example =
    modifiable_ledger_lem 1 10 sample record { membership = the_owner; ledger = the_ledger }
      sample-HasKeys

policy-rights_example :
    (can_administer_family the_child ≡ (rights the_child.role).administers)
    × (can_create_child the_child ≡ (rights the_child.role).creates_children)
    × ((can_modify_ledger the_child the_ledger ≡ true) ↔ (
        (the_ledger.family_id ≡ the_child.family_id)
        × ((rights the_child.role).changes_points ≡ true)))
    × ((can_view_ledger the_child the_ledger ≡ true) ↔ (
        (the_ledger.family_id ≡ the_child.family_id)
        × (((rights the_child.role).views_all ≡ true) ⊎ (the_ledger.membership_id ≡ the_child.id))))
policy-rights_example = policy-rights the_child the_ledger

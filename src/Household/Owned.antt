-- ===== src/Household/Owned.antt =====
-- What goes with a ledger or a member that is deleted (Schema.antt), and what is spared.
use rewardpointsweb.Base.{
  ℕ, ◌≡◌, refl, sym, subst, ap, ◌∙◌, Bool, true, false, ◌==◌, Option-cases, some, List, [], ◌∷◌,
  exists, exists-delete, first-exists, delete_where, update_where, Bool-cases, inl, inr, arith,
}
use rewardpointsweb.Failure.{ok, raise_if-passes, integrity_error}
use rewardpointsweb.Entities.{PointTransaction, PointLedger, Db, Table}
use rewardpointsweb.Access.{find_ledger_of}
use rewardpointsweb.Ledger.{count_by_ledger, delete_by_ledger}
use rewardpointsweb.Ledger.Sum.{balance_in, statement_balance-eq}
use rewardpointsweb.Ledger.History.{delete_by_ledger-rows}
use rewardpointsweb.Recording.Record.{shown_balance}
use rewardpointsweb.Schema.{forget_grantor, is_dropped, drop_ledgers}
use rewardpointsweb.Members.{delete_member, add_ledger}
use rewardpointsweb.Household.{delete_ledger}
use rewardpointsweb.Household.Accounts.{remove_ledger_of, remove_ledger_with_records}

-- Forgetting who granted the rows.
abbrev forgotten : ℕ → List PointTransaction → List PointTransaction
forgotten m rows = update_where (λ r. true) (λ r. forget_grantor m r) rows

balance_in-forgotten :
    (m l : ℕ) (rows : List PointTransaction) → balance_in l (forgotten m rows) ≡ balance_in l rows
unfolding balance_in
balance_in-forgotten m l [] = refl
balance_in-forgotten m l (r ∷ rows) = ground (arith, balance_in-forgotten m l rows)

count-forgotten :
    (m l : ℕ) (rows : List PointTransaction)
    → count_by_ledger l (forgotten m rows) ≡ count_by_ledger l rows
unfolding count_by_ledger
count-forgotten m l [] = refl
count-forgotten m l (r ∷ rows) = ground (arith, count-forgotten m l rows)

-- Every member has one ledger at most, as `point_ledgers.membership_id` is unique.
abbrev pub IsOwnedOnce : List PointLedger → Type 0
IsOwnedOnce [] = Unit
IsOwnedOnce (l ∷ ledgers) =
    (exists (λ x. x.membership_id == l.membership_id) ledgers ≡ false) × IsOwnedOnce ledgers

-- A new ledger keeps it so.
add_ledger-IsOwnedOnce :
    (family_id membership_id now : ℕ) (t t' : Table PointLedger) (l : PointLedger)
    → add_ledger family_id membership_id now t ≡ ok (l, t')
    → IsOwnedOnce t.rows
    → IsOwnedOnce t'.rows
unfolding add_ledger
add_ledger-IsOwnedOnce family_id membership_id now t t' l h owned =
    let (h1, fresh) =
      raise_if-passes (exists (λ x. x.membership_id == membership_id) t.rows) integrity_error _ h in
    let rows : t'.rows
        ≡ record {
          id = t.next_id;
          family_id = family_id;
          membership_id = membership_id;
          created_at = now;
        }
          ∷ t.rows =
      ground arith in
    rw rows (fresh, owned)

-- A member whose ledger is deleted has none.
owned-deleted :
    (m : ℕ) (l : PointLedger) (ledgers : List PointLedger)
    → IsOwnedOnce ledgers
    → find_ledger_of m ledgers ≡ some l
    → exists (λ x. x.membership_id == m) (delete_where (λ x. x.id == l.id) ledgers) ≡ false
unfolding find_ledger_of
owned-deleted m l [] owned h = refl
owned-deleted m l (x ∷ ledgers) owned h = elim (Bool-cases (x.membership_id == m)) [
  | inl mine ↦
      let member : x.membership_id ≡ m = ground arith in
      let first_one : x ≡ l = ground arith in
      let rest : exists (λ y. y.membership_id == m) ledgers ≡ false =
        subst (λ k. exists (λ y. y.membership_id == k) ledgers ≡ false) member owned.0 in
      let gone : (x.id == l.id) ≡ true = ground arith in
      rw gone (exists-delete (λ y. y.membership_id == m) (λ y. y.id == l.id) ledgers rest)
  | inr other ↦ ground (arith, owned-deleted m l ledgers owned.1)
]

-- Where no ledger goes, no row goes.
is_dropped-none :
    (goes : PointLedger → Bool) (ledgers : List PointLedger) (id : ℕ)
    → exists goes ledgers ≡ false
    → is_dropped goes ledgers id ≡ false
is_dropped-none goes [] id h = refl
is_dropped-none goes (l ∷ ledgers) id h = ground (arith, is_dropped-none goes ledgers id)

is_dropped-other :
    (l : ℕ) (ledgers : List PointLedger) (id : ℕ)
    → (id == l) ≡ false
    → is_dropped (λ x. x.id == l) ledgers id ≡ false
is_dropped-other l [] id h = refl
is_dropped-other l (x ∷ ledgers) id h = ground (arith, is_dropped-other l ledgers id)

spared-none :
    (goes : PointLedger → Bool) (ledgers : List PointLedger) (rows : List PointTransaction)
    → exists goes ledgers ≡ false
    → delete_where (λ r. is_dropped goes ledgers r.ledger_id) rows ≡ rows
spared-none goes ledgers [] h = refl
spared-none goes ledgers (r ∷ rows) h =
    ground (arith, is_dropped-none goes ledgers r.ledger_id, spared-none goes ledgers rows)

-- A ledger without rows takes no row with it.
spared-empty :
    (l : ℕ) (ledgers : List PointLedger) (rows : List PointTransaction)
    → count_by_ledger l rows ≡ 0
    → delete_where (λ r. is_dropped (λ x. x.id == l) ledgers r.ledger_id) rows ≡ rows
unfolding count_by_ledger
spared-empty l ledgers [] h = refl
spared-empty l ledgers (r ∷ rows) h =
    ground (arith, is_dropped-other l ledgers r.ledger_id, spared-empty l ledgers rows)

-- A member without a ledger takes no row of any ledger along.
delete_member-rows :
    (m : ℕ) (db : Db)
    → exists (λ x. x.membership_id == m) db.ledgers.rows ≡ false
    → (delete_member m db).transactions.rows ≡ forgotten m db.transactions.rows
unfolding delete_member drop_ledgers
delete_member-rows m db none_left =
    ap (forgotten m)
      (spared-none (λ x. x.membership_id == m) db.ledgers.rows db.transactions.rows none_left)

pub delete_member-keeps :
    (m l : ℕ) (db : Db)
    → exists (λ x. x.membership_id == m) db.ledgers.rows ≡ false
    → (shown_balance l (delete_member m db) ≡ shown_balance l db)
      × (count_by_ledger l (delete_member m db).transactions.rows
          ≡ count_by_ledger l db.transactions.rows)
delete_member-keeps m l db none_left =
    let rows = delete_member-rows m db none_left in
    (
      statement_balance-eq l (delete_member m db).transactions.rows
          ∙ ap (balance_in l) rows
          ∙ balance_in-forgotten m l db.transactions.rows
          ∙ sym (statement_balance-eq l db.transactions.rows),
      ap (count_by_ledger l) rows ∙ count-forgotten m l db.transactions.rows,
    )

pub remove_ledger_of-rows :
    (m : ℕ) (db after : Db)
    → IsOwnedOnce db.ledgers.rows
    → remove_ledger_of m db ≡ ok after
    → (after.transactions.rows ≡ db.transactions.rows)
      × (exists (λ x. x.membership_id == m) after.ledgers.rows ≡ false)
unfolding remove_ledger_of delete_ledger drop_ledgers find_ledger_of
remove_ledger_of-rows m db after owned h = elim (Option-cases (find_ledger_of m db.ledgers.rows)) [
  | inl missing ↦
      let same : db ≡ after = ground arith in
      subst
        (λ (d : Db).
          (d.transactions.rows ≡ db.transactions.rows)
          × (exists (λ x. x.membership_id == m) d.ledgers.rows ≡ false))
        same (refl, first-exists (λ x. x.membership_id == m) db.ledgers.rows missing)
  | inr (ledger, found) ↦
      let empty : count_by_ledger ledger.id db.transactions.rows ≡ 0 = ground arith in
      let same : delete_ledger ledger.id db ≡ after = ground arith in
      subst
        (λ (d : Db).
          (d.transactions.rows ≡ db.transactions.rows)
          × (exists (λ x. x.membership_id == m) d.ledgers.rows ≡ false))
        same
        (
          spared-empty ledger.id db.ledgers.rows db.transactions.rows empty,
          owned-deleted m ledger db.ledgers.rows owned found,
        )
]

-- Deleting a ledger's rows.
pub balance_in-deleted :
    (l k : ℕ) (rows : List PointTransaction)
    → (l == k) ≡ false
    → balance_in k (delete_where (λ r. r.ledger_id == l) rows) ≡ balance_in k rows
unfolding balance_in
balance_in-deleted l k [] h = refl
balance_in-deleted l k (r ∷ rows) h = ground (arith, balance_in-deleted l k rows h)

pub count-deleted :
    (l : ℕ) (rows : List PointTransaction)
    → count_by_ledger l (delete_where (λ r. r.ledger_id == l) rows) ≡ 0
unfolding count_by_ledger
count-deleted l [] = refl
count-deleted l (r ∷ rows) = ground (arith, count-deleted l rows)

-- The ledger of a child, with its rows.
pub remove_ledger_with_records-rows :
    (m : ℕ) (ledger : PointLedger) (db : Db)
    → IsOwnedOnce db.ledgers.rows
    → find_ledger_of m db.ledgers.rows ≡ some ledger
    → ((remove_ledger_with_records m db).transactions.rows
        ≡ delete_where (λ r. r.ledger_id == ledger.id) db.transactions.rows)
      × (exists (λ x. x.membership_id == m) (remove_ledger_with_records m db).ledgers.rows ≡ false)
unfolding remove_ledger_with_records delete_ledger drop_ledgers
remove_ledger_with_records-rows m ledger db owned own =
    let rows = delete_by_ledger-rows ledger.id db.transactions in
    let empty =
      ap (count_by_ledger ledger.id) rows ∙ count-deleted ledger.id db.transactions.rows in
    let swept : remove_ledger_with_records m db
        ≡ delete_ledger ledger.id
            (record db { transactions = delete_by_ledger ledger.id db.transactions }) =
      ground (arith, own) in
    (
      ap (λ (d : Db). d.transactions.rows) swept
          ∙ spared-empty ledger.id db.ledgers.rows (delete_by_ledger ledger.id db.transactions).rows
              empty
          ∙ rows,
      ap (λ (d : Db). exists (λ x. x.membership_id == m) d.ledgers.rows) swept
          ∙ owned-deleted m ledger db.ledgers.rows owned own,
    )

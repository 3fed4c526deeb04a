-- ===== src/Ledger/Sum.antt =====
-- The balance of a ledger, as the sum over its rows in whatever order they are listed.
use rewardpointsweb.Base.{
  ℕ, ◌≡◌, refl, if◌then◌else◌, ◌==◌, List, [], ◌∷◌, select, ℤ, pos, ◌+ℤ◌, arith, int_laws, ◌∙◌,
  Bool-cases, inl, inr, ap, +ℤ_zero,
}
use rewardpointsweb.Entities.{PointTransaction}
use rewardpointsweb.Ledger.{
  list_by_ledger, in_order, place, comes_first, sum_from, statement_balance,
}

-- The sum of the amounts of one ledger's rows.
unfoldable pub balance_in : ℕ → List PointTransaction → ℤ
balance_in l [] = pos 0
balance_in l (r ∷ rows) =
    if r.ledger_id == l then r.amount +ℤ balance_in l rows else balance_in l rows

sum : List PointTransaction → ℤ
sum [] = pos 0
sum (r ∷ rows) = r.amount +ℤ sum rows

sum_from-eq-sum : (acc : ℤ) (rows : List PointTransaction) → sum_from acc rows ≡ acc +ℤ sum rows
unfolding sum_from sum
sum_from-eq-sum acc [] = omega int_laws
sum_from-eq-sum acc (r ∷ rows) = sum_from-eq-sum (acc +ℤ r.amount) rows ∙ omega int_laws

sum-place :
    (r : PointTransaction) (rows : List PointTransaction)
    → sum (place r rows) ≡ r.amount +ℤ sum rows
unfolding sum place
sum-place r [] = refl
sum-place r (s ∷ rows) = elim (Bool-cases (comes_first s r)) [
  | inl later ↦ rw later (rw (sum-place r rows) (omega int_laws))
  | inr first ↦ rw first
]

sum-in_order : (rows : List PointTransaction) → sum (in_order rows) ≡ sum rows
unfolding sum in_order
sum-in_order [] = refl
sum-in_order (r ∷ rows) = sum-place r (in_order rows) ∙ ap (λ s. r.amount +ℤ s) (sum-in_order rows)

sum-select :
    (l : ℕ) (rows : List PointTransaction)
    → sum (select (λ r. r.ledger_id == l) rows) ≡ balance_in l rows
unfolding sum balance_in
sum-select l [] = refl
sum-select l (r ∷ rows) = ground (arith, sum-select l rows)

-- The balance that a statement of a ledger shows is the sum over the ledger's rows.
pub statement_balance-eq :
    (l : ℕ) (rows : List PointTransaction)
    → statement_balance (list_by_ledger l rows) ≡ balance_in l rows
unfolding statement_balance list_by_ledger
statement_balance-eq l rows =
    sum_from-eq-sum (pos 0) (in_order (select (λ r. r.ledger_id == l) rows))
    ∙ +ℤ_zero (sum (in_order (select (λ r. r.ledger_id == l) rows)))
    ∙ sum-in_order (select (λ r. r.ledger_id == l) rows)
    ∙ sum-select l rows

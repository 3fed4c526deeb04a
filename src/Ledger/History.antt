-- ===== src/Ledger/History.antt =====
-- The well-formedness of the table of transactions: what each row keeps, towards the rows that
-- were there before it.
use rewardpointsweb.Base.{
  refl, first-holds, exists-delete, first-exists, first-misses, ℕ, ◌<◌, ◌≤◌, ◌≡◌, ◌≢◌, Bool, true,
  false, ◌&&◌, ◌==◌, Option, none, some, List, [], ◌∷◌, first, exists, delete_where, holds, arith,
  neg, Bool-cases, inl, inr, Text,
}
use mathlib.Core.Path.{subst}
use rewardpointsweb.Values.{reason_max_length, key_max_length}
use rewardpointsweb.Values.Laws.{IsText, IsAmount}
use rewardpointsweb.Entities.{PointTransaction, Table}
use rewardpointsweb.Ledger.{
  find_by_key, find_reversal_of, find_in_ledger, violates_unique, has_key, taken, is_reversal,
  delete_by_ledger,
}

-- A reversal undoes an earlier row of its own ledger that is no reversal, by the opposite amount.
abbrev pub Undoes : Option ℕ → PointTransaction → List PointTransaction → Type 0
Undoes none r rows = Unit
Undoes (some o) r rows =
    (original : PointTransaction) × (find_in_ledger r.ledger_id o rows ≡ some original)
    × (original.reversal_of_id ≡ none)
    × (r.amount ≡ neg original.amount)

-- A correction restates a row that its own ledger reverses.
abbrev pub reverses_in : ℕ → ℕ → PointTransaction → Bool
reverses_in l o x = holds x.reversal_of_id o && x.ledger_id == l

abbrev pub Restates : Option ℕ → PointTransaction → List PointTransaction → Type 0
Restates none r rows = Unit
Restates (some o) r rows = exists (reverses_in r.ledger_id o) rows ≡ true

pub record IsEntry (r : PointTransaction) (rows : List PointTransaction) : Type 0 where
  pub amount : IsAmount r.amount
  pub reason : IsText reason_max_length r.reason
  pub key : IsText key_max_length r.idempotency_key
  pub unique : violates_unique r rows ≡ false
  pub undoes : Undoes r.reversal_of_id r rows
  pub restates : Restates r.corrects_id r rows

-- Every row was admissible when it was added, and the identifiers grow towards `next`.
abbrev pub IsHistory : ℕ → List PointTransaction → Type 0
IsHistory next [] = Unit
IsHistory next (r ∷ rows) = (r.id < next) × IsEntry r rows × IsHistory r.id rows

abbrev pub IsValid : Table PointTransaction → Type 0
IsValid t = IsHistory t.next_id t.rows

pub IsHistory-mono :
    (m n : ℕ) (rows : List PointTransaction) → IsHistory m rows → m ≤ n → IsHistory n rows
IsHistory-mono m n [] h le = tt
IsHistory-mono m n (r ∷ rows) h le = (omega arith, h.1, h.2)

taken-select :
    (column : PointTransaction → Option ℕ) (q : PointTransaction → Bool) (o : Option ℕ)
    (rows : List PointTransaction)
    → taken column o rows ≡ false
    → taken column o (delete_where q rows) ≡ false
taken-select column q none rows h = h
taken-select column q (some v) rows h = exists-delete (λ r. holds (column r) v) q rows h

violates_unique-select :
    (r : PointTransaction) (q : PointTransaction → Bool) (rows : List PointTransaction)
    → violates_unique r rows ≡ false
    → violates_unique r (delete_where q rows) ≡ false
unfolding violates_unique
violates_unique-select r q rows h = ground (
  arith,
  exists-delete (has_key r.ledger_id r.idempotency_key) q rows,
  taken-select (λ x. x.reversal_of_id) q r.reversal_of_id rows,
  taken-select (λ x. x.corrects_id) q r.corrects_id rows,
)

-- A deletion that spares what the query asks for does not change its answer.
first-delete_where :
    (p q : PointTransaction → Bool) (rows : List PointTransaction)
    → ((x : PointTransaction) → p x ≡ true → q x ≡ false)
    → first p (delete_where q rows) ≡ first p rows
first-delete_where p q [] spared = refl
first-delete_where p q (r ∷ rows) spared =
    ground (arith, spared r, first-delete_where p q rows spared)

exists-delete_where :
    (p q : PointTransaction → Bool) (rows : List PointTransaction)
    → ((x : PointTransaction) → p x ≡ true → q x ≡ false)
    → exists p rows ≡ true
    → exists p (delete_where q rows) ≡ true
exists-delete_where p q [] spared h = h
exists-delete_where p q (r ∷ rows) spared h =
    ground (arith, spared r, exists-delete_where p q rows spared)

module _ (l : ℕ) where
  abbrev of_ledger : PointTransaction → Bool
  of_ledger r = r.ledger_id == l

  -- Deleting the reversals first makes no difference to what is left.
  pub delete_by_ledger-rows :
      (t : Table PointTransaction) → (delete_by_ledger l t).rows ≡ delete_where of_ledger t.rows
  unfolding delete_by_ledger
  delete_by_ledger-rows t = twice t.rows
    where
      twice :
          (rows : List PointTransaction)
          → delete_where of_ledger (delete_where (λ r. r.ledger_id == l && is_reversal r) rows)
            ≡ delete_where of_ledger rows
      twice [] = refl
      twice (r ∷ rows) = ground (arith, twice rows)

  -- The original of a row of another ledger stays.
  find_in_ledger-delete :
      (k o : ℕ) (rows : List PointTransaction)
      → k ≢ l
      → find_in_ledger k o (delete_where of_ledger rows) ≡ find_in_ledger k o rows
  unfolding find_in_ledger
  find_in_ledger-delete k o rows ne =
      first-delete_where (λ r. r.id == o && r.ledger_id == k) of_ledger rows (λ x h. ground arith)

  Undoes-delete :
      (o : Option ℕ) (r : PointTransaction) (rows : List PointTransaction)
      → r.ledger_id ≢ l
      → Undoes o r rows
      → Undoes o r (delete_where of_ledger rows)
  Undoes-delete none r rows ne u = tt
  Undoes-delete (some o) r rows ne u =
      (u.0, rw (find_in_ledger-delete r.ledger_id o rows ne) u.1, u.2, u.3)

  Restates-delete :
      (o : Option ℕ) (r : PointTransaction) (rows : List PointTransaction)
      → r.ledger_id ≢ l
      → Restates o r rows
      → Restates o r (delete_where of_ledger rows)
  Restates-delete none r rows ne u = tt
  Restates-delete (some o) r rows ne u =
      exists-delete_where (reverses_in r.ledger_id o) of_ledger rows (λ x h. ground arith) u

  IsEntry-delete :
      (r : PointTransaction) (rows : List PointTransaction)
      → r.ledger_id ≢ l
      → IsEntry r rows
      → IsEntry r (delete_where of_ledger rows)
  IsEntry-delete r rows ne e = record {
    amount = e.amount;
    reason = e.reason;
    key = e.key;
    unique = violates_unique-select r of_ledger rows e.unique;
    undoes = Undoes-delete r.reversal_of_id r rows ne e.undoes;
    restates = Restates-delete r.corrects_id r rows ne e.restates;
  }

  IsHistory-delete :
      (n : ℕ) (rows : List PointTransaction)
      → IsHistory n rows
      → IsHistory n (delete_where of_ledger rows)
  IsHistory-delete n [] h = tt
  IsHistory-delete n (r ∷ rows) h = elim (Bool-cases (r.ledger_id == l)) [
    | inl gone ↦ rw gone (
        IsHistory-mono r.id n (delete_where of_ledger rows) (IsHistory-delete r.id rows h.2)
          (omega (arith, h.0)))
    | inr stays ↦
        rw stays (h.0, IsEntry-delete r rows (ground arith) h.1, IsHistory-delete r.id rows h.2)
  ]

  delete_by_ledger-next : (t : Table PointTransaction) → (delete_by_ledger l t).next_id ≡ t.next_id
  unfolding delete_by_ledger
  delete_by_ledger-next t = refl

  -- Deleting a whole ledger leaves a well-formed table.
  pub delete_by_ledger-IsValid :
      (t : Table PointTransaction) → IsValid t → IsValid (delete_by_ledger l t)
  delete_by_ledger-IsValid t h =
      rw (delete_by_ledger-next t, delete_by_ledger-rows t) (IsHistory-delete t.next_id t.rows h)

-- Every row that a query finds was admissible when it was added.
pub IsHistory-first :
    (p : PointTransaction → Bool) (n : ℕ) (rows : List PointTransaction) (r : PointTransaction)
    → IsHistory n rows
    → first p rows ≡ some r
    → (older : List PointTransaction) × IsEntry r older
IsHistory-first p n [] r h e = cc
IsHistory-first p n (x ∷ rows) r h e = elim (Bool-cases (p x)) [
  | inl hit ↦ (rows, subst (λ y. IsEntry y rows) (ground arith) h.1)
  | inr miss ↦ IsHistory-first p x.id rows r h.2 (ground arith)
]

pub find_in_ledger-holds :
    (l id : ℕ) (rows : List PointTransaction) (r : PointTransaction)
    → find_in_ledger l id rows ≡ some r
    → (r.id ≡ id) × (r.ledger_id ≡ l)
unfolding find_in_ledger
find_in_ledger-holds l id rows r h =
    ground (arith, first-holds (λ (x : PointTransaction). x.id == id && x.ledger_id == l) rows r h)

-- A row that no other reverses leaves the unique column free for its reversal.
pub find_reversal_of-taken :
    (o : ℕ) (rows : List PointTransaction)
    → find_reversal_of o rows ≡ none
    → taken (λ r. r.reversal_of_id) (some o) rows ≡ false
unfolding find_reversal_of
find_reversal_of-taken o rows h = first-exists (λ r. holds r.reversal_of_id o) rows h

pub IsHistory-first_lt :
    (p : PointTransaction → Bool) (n : ℕ) (rows : List PointTransaction) (r : PointTransaction)
    → IsHistory n rows
    → first p rows ≡ some r
    → r.id < n
IsHistory-first_lt p n [] r h e = cc
IsHistory-first_lt p n (x ∷ rows) r h e = elim (Bool-cases (p x)) [
  | inl hit ↦ ground (arith, h.0)
  | inr miss ↦ omega (arith, IsHistory-first_lt p x.id rows r h.2 (ground arith), h.0)
]

-- A row that a key finds does not reverse a row that nothing reverses.
pub find_by_key-ne :
    (l o : ℕ) (key : Text) (rows : List PointTransaction) (r : PointTransaction)
    → find_by_key l key rows ≡ some r
    → find_reversal_of o rows ≡ none
    → holds r.reversal_of_id o ≡ false
unfolding find_by_key find_reversal_of
find_by_key-ne l o key rows r used standing =
    first-misses (has_key l key) (λ x. holds x.reversal_of_id o) rows r used standing

exists_reverses_in :
    (l o : ℕ) (rows : List PointTransaction)
    → find_reversal_of o rows ≡ none
    → exists (reverses_in l o) rows ≡ false
unfolding find_reversal_of
exists_reverses_in l o [] h = refl
exists_reverses_in l o (x ∷ rows) h = ground (arith, exists_reverses_in l o rows)

Restates-standing :
    (c : Option ℕ) (r : PointTransaction) (o : ℕ) (rows : List PointTransaction)
    → Restates c r rows
    → find_reversal_of o rows ≡ none
    → holds c o ≡ false
Restates-standing none r o rows u h = refl
Restates-standing (some v) r o rows u h = elim (Bool-cases (v == o)) [
  | inl same ↦ cc (
    u,
    exists_reverses_in r.ledger_id v rows
        (subst (λ k. find_reversal_of k rows ≡ none) (ground arith) h),
  )
  | inr other ↦ other
]

-- In a well-formed table a row that nothing reverses is restated by nothing.
pub corrects-taken :
    (n o : ℕ) (rows : List PointTransaction)
    → IsHistory n rows
    → find_reversal_of o rows ≡ none
    → taken (λ r. r.corrects_id) (some o) rows ≡ false
unfolding find_reversal_of
corrects-taken n o [] h e = refl
corrects-taken n o (r ∷ rows) h e =
    ground
      (arith, Restates-standing r.corrects_id r o rows h.1.restates, corrects-taken r.id o rows h.2)

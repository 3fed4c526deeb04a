-- ===== src/Archive/Restored.antt =====
-- An import writes the whole of a history that the rules of an archive accept.
use rewardpointsweb.Base.{
  ℕ, ◌≡◌, refl, sym, ap, subst, ◌∙◌, Bool, true, false, ◌==◌, ==_eq, ==_refl, if◌then◌else◌,
  is_some, Option, none, some, List, [], ◌∷◌, exists, All, length, ℤ, pos, neg, ◌+ℤ◌, Text, arith,
  Bool-cases, Option-cases, inl, inr,
}
use rewardpointsweb.Failure.{ok, succeeds-steps, raise_if-passes, invalid_family_archive}
use rewardpointsweb.Values.{key_max_length, reason_max_length}
use rewardpointsweb.Values.Laws.{IsText, IsAmount}
use rewardpointsweb.Entities.{PointTransaction, Table}
use rewardpointsweb.Ledger.{find_by_key, taken, list_by_ledger, statement_balance}
use rewardpointsweb.Ledger.History.{IsValid, Undoes, Restates}
use rewardpointsweb.Ledger.Sum.{balance_in, statement_balance-eq}
use rewardpointsweb.Ledger.Append.{
  added_row, added_table, append-fresh, append-IsValid, violates_unique-fresh, balance_in-added,
}
use rewardpointsweb.Archive.{
  ArchivedTransactionDto, ArchivedLedgerDto, is_in, is_stranger, lookup, WrittenHistory,
  nothing_written, append_entry, writable_from, require_writable_history,
}
use rewardpointsweb.Archive.Accepted.{
  names, is_single, Reversible, Correctable, append_entry-IsAccepted,
}
use rewardpointsweb.Archive.Agreement.{
  rev_of, cor_of, key_of, IsUnknown, IsKnown, Agrees, AgreesAt, accepted-IsUnknown,
}
use rewardpointsweb.Archive.Added.{added-Agrees}
use rewardpointsweb.Archive.Import.{id_at, restored_row, append_entries, append_history}

-- What the request's schema has checked of an entry, and that it does not both reverse and correct.
pub record IsDocument (entry : ArchivedTransactionDto) : Type 0 where
  pub amount : IsAmount entry.amount
  pub reason : IsText reason_max_length entry.reason
  pub key : IsText key_max_length (key_of entry.ref)
  pub reverses : names entry.reverses [] ≡ false
  pub corrects : names entry.corrects [] ≡ false
  pub single : is_single entry ≡ true

is_some-none : (o : Option ℕ) → is_some o ≡ false → o ≡ none
is_some-none none h = refl
is_some-none (some n) h = cc

-- The members' identifiers, for all who may have recorded.
abbrev pub Recorders : List Text → List (Text × ℕ) → Type 0
Recorders recorders members =
    (ref : Text) → is_in ref recorders ≡ true → is_some (lookup ref members) ≡ true

id_at-recorder :
    (members : List (Text × ℕ)) (recorders : List Text) (ref : Option Text)
    → Recorders recorders members
    → is_stranger ref recorders ≡ false
    → (actor : Option ℕ) × (id_at members ref ≡ ok actor)
unfolding id_at
id_at-recorder members recorders none r h = (none, refl)
id_at-recorder members recorders (some []) r h = (none, refl)
id_at-recorder members recorders (some (c ∷ s)) r h = elim (Option-cases (lookup (c ∷ s) members)) [
  | inl missing ↦ absurd (ground (arith, r (c ∷ s)))
  | inr (id, found) ↦ (some id, rw found refl)
]

module _ (l : ℕ) (w : WrittenHistory) (ids : List (Text × ℕ)) (t : Table PointTransaction)
    (agrees : Agrees l w ids t) where
  -- The row that an entry reverses.
  reference-Undoes :
      (target : Option Text) (amount : ℤ)
      → names target [] ≡ false
      → Reversible target amount w
      → (o : Option ℕ) × (id_at ids target ≡ ok o)
        × (taken rev_of o t.rows ≡ false)
        × ((row : PointTransaction) → row.amount ≡ amount → row.ledger_id ≡ l → Undoes o row t.rows)
  unfolding id_at
  reference-Undoes none amount e r = (none, refl, refl, λ row a k. tt)
  reference-Undoes (some []) amount e r = absurd cc
  reference-Undoes (some (c ∷ s)) amount e r = elim (Option-cases (lookup (c ∷ s) ids)) [
    | inl missing ↦
        let unknown : IsUnknown l w t (c ∷ s) =
          subst (λ x. AgreesAt l w t (c ∷ s) x) missing (agrees (c ∷ s)) in
        absurd (cc (unknown.amount, r.3))
    | inr (o, found) ↦
        let at_o : IsKnown l w t (c ∷ s) o =
          subst (λ x. AgreesAt l w t (c ∷ s) x) found (agrees (c ∷ s)) in
        let same : at_o.row.amount ≡ r.2 = ground (arith, at_o.amount, r.3) in
        let standing = is_some-none at_o.row.reversal_of_id (sym at_o.reversal ∙ r.0) in
        (
          some o,
          rw found refl,
          sym at_o.reversed ∙ r.1,
          λ row a k. (at_o.row, rw k at_o.found, standing, a ∙ r.4 ∙ ap neg (sym same)),
        )
  ]

  reference-Restates :
      (target : Option Text)
      → names target [] ≡ false
      → Correctable target w
      → (o : Option ℕ) × (id_at ids target ≡ ok o)
        × (taken cor_of o t.rows ≡ false)
        × ((row : PointTransaction) → row.ledger_id ≡ l → Restates o row t.rows)
  unfolding id_at
  reference-Restates none e r = (none, refl, refl, λ row k. tt)
  reference-Restates (some []) e r = absurd cc
  reference-Restates (some (c ∷ s)) e r = elim (Option-cases (lookup (c ∷ s) ids)) [
    | inl missing ↦
        let unknown : IsUnknown l w t (c ∷ s) =
          subst (λ x. AgreesAt l w t (c ∷ s) x) missing (agrees (c ∷ s)) in
        absurd (cc (unknown.amount, r.3))
    | inr (o, found) ↦
        let at_o : IsKnown l w t (c ∷ s) o =
          subst (λ x. AgreesAt l w t (c ∷ s) x) found (agrees (c ∷ s)) in
        (
          some o,
          rw found refl,
          sym at_o.corrected ∙ r.0,
          λ row k. rw k (at_o.reversed_here ∙ sym at_o.reversed ∙ r.1),
        )
  ]

abbrev pub total_from : ℤ → List ArchivedTransactionDto → ℤ
total_from acc [] = acc
total_from acc (entry ∷ entries) = total_from (entry.amount +ℤ acc) entries

module _ (l : ℕ) (members : List (Text × ℕ)) (recorders : List Text) (now : ℕ)
    (known : Recorders recorders members) where
  -- What an import of entries writes.
  pub record Writes (entries : List ArchivedTransactionDto) (ids : List (Text × ℕ))
      (t : Table PointTransaction) : Type 0 where
    pub table : Table PointTransaction
    pub done : append_entries entries l members now ids t ≡ ok table
    pub valid : IsValid table
    pub balance : balance_in l table.rows ≡ total_from (balance_in l t.rows) entries
    pub others : (k : ℕ) → (l == k) ≡ false → balance_in k table.rows ≡ balance_in k t.rows

  append_entries-Writes :
      (entries : List ArchivedTransactionDto) (w after : WrittenHistory) (ids : List (Text × ℕ))
      (t : Table PointTransaction)
      → All IsDocument entries
      → writable_from entries recorders w ≡ ok after
      → Agrees l w ids t
      → IsValid t
      → Writes entries ids t
  unfolding append_entries writable_from
  append_entries-Writes [] w after ids t d h a v = record {
    table = t;
    done = refl;
    valid = v;
    balance = refl;
    others = λ k other. refl;
  }
  append_entries-Writes (entry ∷ entries) w after ids t d h a v =
      let doc : IsDocument entry = d.0 in
      let (h1, friend) =
        raise_if-passes (is_stranger entry.granted_by recorders) invalid_family_archive _ h in
      let (w1, h2, read) = succeeds-steps _ (append_entry entry w) h1 in
      let acc = append_entry-IsAccepted entry w w1 doc.single read in
      let (actor, by) = id_at-recorder members recorders entry.granted_by known friend in
      let unknown = accepted-IsUnknown l w w1 ids t entry a acc in
      let (rev, reverse, rev_free, undoes) =
        reference-Undoes l w ids t a entry.reverses entry.amount doc.reverses acc.reversible in
      let (cor, correct, cor_free, restates) =
        reference-Restates l w ids t a entry.corrects doc.corrects acc.correctable in
      let new = restored_row entry l actor rev cor in
      let written =
        append-fresh new now t unknown.key doc.key doc.amount doc.reason
          (violates_unique-fresh new now t unknown.key rev_free cor_free) in
      let v1 =
        append-IsValid new now t (added_row new now t) (added_table new now t) written v
          (undoes (added_row new now t) refl refl) (restates (added_row new now t) refl) in
      let a1 =
        added-Agrees l w w1 ids t entry actor rev cor now a v acc reverse correct doc.reverses
          doc.corrects in
      let rest =
        append_entries-Writes entries w1 after ((entry.ref, t.next_id) ∷ ids)
          (added_table new now t) d.1 h2 a1 v1 in
      record {
        table = rest.table;
        done = rw by (rw reverse (rw correct (rw written rest.done)));
        valid = rest.valid;
        balance =
            rest.balance
            ∙ ap (λ b. total_from b entries) (balance_in-added new now t l ∙ rw (==_refl l) refl);
        others = λ k other. rest.others k other ∙ balance_in-added new now t k ∙ rw other refl;
      }

-- A ledger without rows.
abbrev pub is_of : ℕ → PointTransaction → Bool
is_of l r = r.ledger_id == l

empty-find_by_key :
    (l : ℕ) (key : Text) (rows : List PointTransaction)
    → exists (is_of l) rows ≡ false
    → find_by_key l key rows ≡ none
unfolding find_by_key
empty-find_by_key l key [] h = refl
empty-find_by_key l key (x ∷ rows) h = ground (arith, empty-find_by_key l key rows)

empty-balance_in :
    (l : ℕ) (rows : List PointTransaction)
    → exists (is_of l) rows ≡ false
    → balance_in l rows ≡ pos 0
unfolding balance_in
empty-balance_in l [] h = refl
empty-balance_in l (x ∷ rows) h = ground (arith, empty-balance_in l rows)

-- A history that the rules of an archive accept, of entries of which none both reverses and corrects
-- and which have passed the checks of the request's schema, is written into a ledger without rows,
-- when each member who may have recorded is known: every entry, the table stays well-formed,
-- the ledger's statement shows the sum of the entries' amounts, and those of other ledgers show what
-- they showed before.
pub append_history-restores :
    (archived : ArchivedLedgerDto) (l now : ℕ) (members : List (Text × ℕ)) (recorders : List Text)
    (t : Table PointTransaction)
    → require_writable_history archived.transactions recorders ≡ ok tt
    → All IsDocument archived.transactions
    → Recorders recorders members
    → IsValid t
    → exists (is_of l) t.rows ≡ false
    → (table : Table PointTransaction) × (append_history archived l members now t
        ≡ ok (length archived.transactions, table))
      × IsValid table
      × ((k : ℕ)
          → statement_balance (list_by_ledger k table.rows) ≡ (
              if l == k
              then total_from (pos 0) archived.transactions
              else statement_balance (list_by_ledger k t.rows)))
unfolding append_history require_writable_history
append_history-restores archived l now members recorders t h d known valid empty =
    let (after, _, accepted) =
      succeeds-steps _ (writable_from archived.transactions recorders nothing_written) h in
    let start : Agrees l nothing_written [] t = λ ref. record {
      amount = refl;
      reversal = refl;
      reversed = refl;
      corrected = refl;
      key = empty-find_by_key l (key_of ref) t.rows empty;
    } in
    let w =
      append_entries-Writes l members recorders now known archived.transactions nothing_written
        after [] t d accepted start valid in
    (
      w.table,
      rw w.done refl,
      w.valid,
      λ k. statement_balance-eq k w.table.rows ∙ elim (Bool-cases (l == k)) [
        | inl own ↦ rw own (
            subst (λ x. balance_in x w.table.rows ≡ total_from (pos 0) archived.transactions)
              (==_eq l k own)
              (w.balance
                ∙ ap (λ b. total_from b archived.transactions) (empty-balance_in l t.rows empty)))
        | inr other ↦ rw other (w.others k other ∙ sym (statement_balance-eq k t.rows))
      ],
    )

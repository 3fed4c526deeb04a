-- ===== src/Archive/Added.antt =====
-- Writing an entry that the rules of an archive accept keeps the two histories in agreement.
use rewardpointsweb.Base.{
  ℕ, ◌≡◌, refl, sym, ap, subst, ◌∙◌, true, false, ==_refl, Option, some, List, [], ◌∷◌, Text,
  text_eq, text_eq-true, text_eq-append, arith, Bool-cases, Option-cases, inl, inr,
}
use rewardpointsweb.Failure.{ok}
use rewardpointsweb.Entities.{PointTransaction, Table}
use rewardpointsweb.Ledger.{find_in_ledger}
use rewardpointsweb.Ledger.History.{IsValid}
use rewardpointsweb.Ledger.Append.{added_row, added_table, find_by_key-added_ne}
use rewardpointsweb.Archive.{ArchivedTransactionDto, lookup, WrittenHistory}
use rewardpointsweb.Archive.Accepted.{IsAccepted, names}
use rewardpointsweb.Archive.Import.{import_key_prefix, id_at, restored_row}
use rewardpointsweb.Archive.Agreement.{
  exists-reverses_in, taken-below, corrects-below, key_of, IsUnknown, IsKnown, AgreesAt, Agrees,
  names-holds, id_at-below, names-Reversible, names-Correctable, text_eq_comm, accepted-IsUnknown,
}

module _ (l : ℕ) (w after : WrittenHistory) (ids : List (Text × ℕ)) (t : Table PointTransaction)
    (entry : ArchivedTransactionDto) (actor reversal_of corrects : Option ℕ) (now : ℕ)
    (agrees : Agrees l w ids t) (valid : IsValid t) (accepted : IsAccepted entry w after)
    (reverse : id_at ids entry.reverses ≡ ok reversal_of)
    (correct : id_at ids entry.corrects ≡ ok corrects)
    (reverses_given : names entry.reverses [] ≡ false)
    (corrects_given : names entry.corrects [] ≡ false) where
  abbrev pub new_row : PointTransaction
  new_row = added_row (restored_row entry l actor reversal_of corrects) now t

  abbrev pub new_table : Table PointTransaction
  new_table = added_table (restored_row entry l actor reversal_of corrects) now t

  added-IsKnown :
      (ref : Text) → text_eq ref entry.ref ≡ true → IsKnown l after new_table ref t.next_id
  unfolding find_in_ledger
  added-IsKnown ref same =
      let refs : entry.ref ≡ ref = sym (text_eq-true ref entry.ref same) in
      let unknown : IsUnknown l w t ref =
        subst (λ x. IsUnknown l w t x) refs
          (accepted-IsUnknown l w after ids t entry agrees accepted) in
      let (is_reversing, rev_below) =
        id_at-below l w ids t entry.reverses reversal_of agrees reverse reverses_given in
      let (_, cor_below) =
        id_at-below l w ids t entry.corrects corrects agrees correct corrects_given in
      let rev_free = taken-below t.next_id t.next_id t.rows valid (omega arith) in
      record {
        row = new_row;
        found = ground (arith, ==_refl t.next_id, ==_refl l);
        amount = rw accepted.amounts (rw same refl);
        reversal =
            rw (accepted.reversals ref)
              (rw (same, unknown.reversal) (ground (arith, is_reversing)));
        reversed =
            rw
              (
                accepted.reversed ref,
                names-Reversible entry.reverses entry.amount w ref accepted.reversible
                    unknown.amount,
              )
              (ground (arith, unknown.reversed, rev_below, rev_free));
        reversed_here =
            ground (arith, exists-reverses_in l t.next_id t.rows rev_free, rev_below, rev_free);
        corrected =
            rw
              (
                accepted.corrected ref,
                names-Correctable entry.corrects w ref accepted.correctable unknown.amount,
              )
              (ground (
                arith,
                unknown.corrected,
                cor_below,
                corrects-below t.next_id t.next_id t.rows valid (omega arith),
              ));
        key = ap key_of refs;
        below = omega arith;
      }

  kept-IsUnknown :
      (ref : Text)
      → text_eq ref entry.ref ≡ false
      → IsUnknown l w t ref
      → IsUnknown l after new_table ref
  kept-IsUnknown ref other unknown =
      let keys : text_eq (key_of entry.ref) (key_of ref) ≡ false =
        text_eq-append import_key_prefix entry.ref ref ∙ text_eq_comm entry.ref ref ∙ other in
      record {
        amount = rw accepted.amounts (rw other unknown.amount);
        reversal = rw (accepted.reversals ref) (ground (arith, unknown.reversal));
        reversed =
            rw
              (
                accepted.reversed ref,
                names-Reversible entry.reverses entry.amount w ref accepted.reversible
                    unknown.amount,
              )
              unknown.reversed;
        corrected =
            rw
              (
                accepted.corrected ref,
                names-Correctable entry.corrects w ref accepted.correctable unknown.amount,
              )
              unknown.corrected;
        key =
            find_by_key-added_ne (restored_row entry l actor reversal_of corrects) now t
              (key_of ref) unknown.key keys;
      }

  kept-IsKnown :
      (ref : Text) (o : ℕ)
      → text_eq ref entry.ref ≡ false
      → lookup ref ids ≡ some o
      → IsKnown l w t ref o
      → IsKnown l after new_table ref o
  unfolding find_in_ledger
  kept-IsKnown ref o other at_o k =
      let rev =
        names-holds l w ids t entry.reverses reversal_of ref o agrees reverse reverses_given at_o in
      let cor =
        names-holds l w ids t entry.corrects corrects ref o agrees correct corrects_given at_o in
      record {
        row = k.row;
        found = ground (arith, k.found, k.below);
        amount = rw accepted.amounts (rw other k.amount);
        reversal = rw (accepted.reversals ref) (rw other (ground (arith, k.reversal)));
        reversed = rw (accepted.reversed ref, rev) (ground (arith, k.reversed));
        reversed_here = ground (arith, k.reversed_here, ==_refl l);
        corrected = rw (accepted.corrected ref, cor) (ground (arith, k.corrected));
        key = k.key;
        below = ground (arith, k.below);
      }

  -- After an accepted entry was written, the two agree again.
  pub added-Agrees : Agrees l after ((entry.ref, t.next_id) ∷ ids) new_table
  added-Agrees ref = elim (Bool-cases (text_eq ref entry.ref)) [
    | inl same ↦ rw same (added-IsKnown ref same)
    | inr other ↦ rw other (elim (Option-cases (lookup ref ids)) [
      | inl missing ↦
          rw missing
            (kept-IsUnknown ref other (subst (λ x. AgreesAt l w t ref x) missing (agrees ref)))
      | inr (o, found) ↦
          rw found
            (kept-IsKnown ref o other found (subst (λ x. AgreesAt l w t ref x) found (agrees ref)))
    ])
  ]

-- ===== src/Archive/Accepted.antt =====
-- What the rules of an archive say of an entry that they accept.
use rewardpointsweb.Base.{
  ◌≡◌, sym, ◌∙◌, Bool, true, false, ◌&&◌, ◌||◌, not, is_some, Option, none, some, ◌∷◌, ℤ, neg,
  int_eq, int_eq-true, Text, text_eq, arith,
}
use rewardpointsweb.Failure.{ok, or_raise, succeeds-steps, raise_if-passes, invalid_family_archive}
use rewardpointsweb.Archive.{
  ArchivedTransactionDto, is_in, lookup, WrittenHistory, amount_of, claim_reversal,
  claim_correction, append_entry,
}

-- The reference names the row.
abbrev pub names : Option Text → Text → Bool
names none ref = false
names (some target) ref = text_eq ref target

-- The row that an entry reverses.
abbrev pub Reversible : Option Text → ℤ → WrittenHistory → Type 0
Reversible none amount w = Unit
Reversible (some target) amount w =
    (is_in target w.reversals ≡ false)
    × (is_in target w.reversed ≡ false)
    × (a : ℤ) × (lookup target w.amounts ≡ some a)
    × (amount ≡ neg a)

-- The row that an entry corrects, after it has claimed its reversal.
abbrev pub Correctable : Option Text → WrittenHistory → Type 0
Correctable none w = Unit
Correctable (some target) w =
    (is_in target w.corrected ≡ false)
    × (is_in target w.reversed ≡ true)
    × (a : ℤ) × (lookup target w.amounts ≡ some a)

-- No entry both reverses and corrects.
abbrev pub is_single : ArchivedTransactionDto → Bool
is_single entry = not (is_some entry.reverses && is_some entry.corrects)

claim_reversal-accepts :
    (entry : ArchivedTransactionDto) (target : Option Text) (w w1 : WrittenHistory)
    → claim_reversal entry target w ≡ ok w1
    → Reversible target entry.amount w
      × (w1.amounts ≡ w.amounts)
      × (w1.reversals ≡ w.reversals)
      × (w1.corrected ≡ w.corrected)
      × ((ref : Text) → is_in ref w1.reversed ≡ (names target ref || is_in ref w.reversed))
unfolding claim_reversal amount_of
claim_reversal-accepts entry none w w1 h = ground arith
claim_reversal-accepts entry (some target) w w1 h =
    let (h1, unused) =
      raise_if-passes (is_in target w.reversals || is_in target w.reversed) invalid_family_archive _
        h in
    let (amount, h2, known) =
      succeeds-steps _ (or_raise (lookup target w.amounts) invalid_family_archive) h1 in
    let (h3, opposite) =
      raise_if-passes (not (int_eq entry.amount (neg amount))) invalid_family_archive _ h2 in
    let same = int_eq-true entry.amount (neg amount) (ground arith) in
    (
      (ground arith, ground arith, amount, ground arith, same),
      ground arith,
      ground arith,
      ground arith,
      λ ref. ground arith,
    )

claim_correction-accepts :
    (target : Option Text) (w w1 : WrittenHistory)
    → claim_correction target w ≡ ok w1
    → Correctable target w
      × (w1.amounts ≡ w.amounts)
      × (w1.reversals ≡ w.reversals)
      × (w1.reversed ≡ w.reversed)
      × ((ref : Text) → is_in ref w1.corrected ≡ (names target ref || is_in ref w.corrected))
unfolding claim_correction amount_of
claim_correction-accepts none w w1 h = ground arith
claim_correction-accepts (some target) w w1 h =
    let (h1, unused) =
      raise_if-passes (is_in target w.reversals || is_in target w.corrected) invalid_family_archive
        _ h in
    let (amount, h2, known) =
      succeeds-steps _ (or_raise (lookup target w.amounts) invalid_family_archive) h1 in
    let (h3, undone) =
      raise_if-passes (not (is_in target w.reversed)) invalid_family_archive _ h2 in
    (
      (ground arith, ground arith, amount, ground arith),
      ground arith,
      ground arith,
      ground arith,
      λ ref. ground arith,
    )

-- An entry that is accepted, and what is known of the history afterwards.
pub record IsAccepted (entry : ArchivedTransactionDto) (w after : WrittenHistory) : Type 0 where
  pub fresh : lookup entry.ref w.amounts ≡ none
  pub reversible : Reversible entry.reverses entry.amount w
  pub correctable : Correctable entry.corrects w
  pub amounts : after.amounts ≡ (entry.ref, entry.amount) ∷ w.amounts
  pub reversals :
      (ref : Text)
      → is_in ref after.reversals
        ≡ (is_some entry.reverses && text_eq ref entry.ref || is_in ref w.reversals)
  pub reversed :
      (ref : Text) → is_in ref after.reversed ≡ (names entry.reverses ref || is_in ref w.reversed)
  pub corrected :
      (ref : Text) → is_in ref after.corrected ≡ (names entry.corrects ref || is_in ref w.corrected)

Correctable-before :
    (reverses corrects : Option Text) (w w1 : WrittenHistory)
    → not (is_some reverses && is_some corrects) ≡ true
    → w1.amounts ≡ w.amounts
    → w1.corrected ≡ w.corrected
    → ((ref : Text) → is_in ref w1.reversed ≡ (names reverses ref || is_in ref w.reversed))
    → Correctable corrects w1
    → Correctable corrects w
Correctable-before reverses none w w1 s a c r h = tt
Correctable-before none (some target) w w1 s a c r h =
    (rw (sym c) h.0, sym (r target) ∙ h.1, h.2, rw (sym a) h.3)
Correctable-before (some other) (some target) w w1 s a c r h = cc

pub append_entry-IsAccepted :
    (entry : ArchivedTransactionDto) (w after : WrittenHistory)
    → is_single entry ≡ true
    → append_entry entry w ≡ ok after
    → IsAccepted entry w after
unfolding append_entry
append_entry-IsAccepted entry w after single h =
    let (h1, fresh) =
      raise_if-passes (is_some (lookup entry.ref w.amounts)) invalid_family_archive _ h in
    let (w1, h2, reversing) = succeeds-steps _ (claim_reversal entry entry.reverses w) h1 in
    let (w2, h3, correcting) = succeeds-steps _ (claim_correction entry.corrects w1) h2 in
    let (rev, amounts1, reversals1, corrected1, reversed1) =
      claim_reversal-accepts entry entry.reverses w w1 reversing in
    let (cor, amounts2, reversals2, reversed2, corrected2) =
      claim_correction-accepts entry.corrects w1 w2 correcting in
    record {
      fresh = ground arith;
      reversible = rev;
      correctable =
          Correctable-before entry.reverses entry.corrects w w1 single amounts1 corrected1 reversed1
            cor;
      amounts = ground arith;
      reversals = λ ref. ground arith;
      reversed = λ ref. ground (arith, reversed1 ref);
      corrected = λ ref. ground (arith, corrected2 ref);
    }

-- ===== src/Archive/Agreement.antt =====
-- The history that the rules of an archive have read, and the rows that the import has written for
-- it, agree.
use rewardpointsweb.Base.{
  ℕ, ◌<◌, ◌≤◌, ◌≡◌, refl, sym, ap, subst, ◌∙◌, true, false, ◌&&◌, ◌==◌, ==_eq, is_some, holds,
  Option, none, some, List, [], ◌∷◌, ◌++◌, exists, ℤ, Text, text_eq, text_eq-true, text_eq-append,
  text_eq_refl, arith, Bool-cases, Option-cases, inl, inr,
}
use rewardpointsweb.Failure.{ok}
use rewardpointsweb.Entities.{PointTransaction, Table}
use rewardpointsweb.Ledger.{find_by_key, find_in_ledger, taken}
use rewardpointsweb.Ledger.History.{
  IsHistory, Undoes, Restates, reverses_in, find_in_ledger-holds, IsHistory-first_lt,
}
use rewardpointsweb.Archive.{ArchivedTransactionDto, is_in, lookup, WrittenHistory}
use rewardpointsweb.Archive.Accepted.{IsAccepted, names, Reversible, Correctable}
use rewardpointsweb.Archive.Import.{import_key_prefix, id_at}

abbrev pub rev_of : PointTransaction → Option ℕ
rev_of r = r.reversal_of_id

abbrev pub cor_of : PointTransaction → Option ℕ
cor_of r = r.corrects_id

-- The rows refer to earlier ones only.
reference-below :
    (o : Option ℕ) (r : PointTransaction) (n : ℕ) (rows : List PointTransaction)
    → IsHistory r.id rows
    → r.id < n
    → Undoes o r rows
    → holds o n ≡ false
unfolding find_in_ledger
reference-below none r n rows h lt u = refl
reference-below (some o) r n rows h lt u =
    let earlier =
      IsHistory-first_lt (λ x. x.id == o && x.ledger_id == r.ledger_id) r.id rows u.0 h u.1 in
    let (same, _) = find_in_ledger-holds r.ledger_id o rows u.0 u.1 in ground (arith, earlier, same)

pub exists-reverses_in :
    (l o : ℕ) (rows : List PointTransaction)
    → taken rev_of (some o) rows ≡ false
    → exists (reverses_in l o) rows ≡ false
exists-reverses_in l o [] h = refl
exists-reverses_in l o (x ∷ rows) h = ground (arith, exists-reverses_in l o rows)

pub taken-below :
    (m n : ℕ) (rows : List PointTransaction)
    → IsHistory m rows
    → m ≤ n
    → taken rev_of (some n) rows ≡ false
taken-below m n [] h le = refl
taken-below m n (r ∷ rows) h le =
    let own = reference-below r.reversal_of_id r n rows h.2 (omega (arith, h.0)) h.1.undoes in
    ground (arith, own, taken-below r.id n rows h.2 (omega (arith, h.0)))

restating-below :
    (o : Option ℕ) (r : PointTransaction) (n : ℕ) (rows : List PointTransaction)
    → IsHistory r.id rows
    → r.id < n
    → Restates o r rows
    → holds o n ≡ false
restating-below none r n rows h lt u = refl
restating-below (some o) r n rows h lt u = elim (Bool-cases (o == n)) [
  | inl same ↦
      let free = exists-reverses_in r.ledger_id n rows (taken-below r.id n rows h (ground arith)) in
      absurd (ground arith)
  | inr other ↦ other
]

pub corrects-below :
    (m n : ℕ) (rows : List PointTransaction)
    → IsHistory m rows
    → m ≤ n
    → taken cor_of (some n) rows ≡ false
corrects-below m n [] h le = refl
corrects-below m n (r ∷ rows) h le =
    let own = restating-below r.corrects_id r n rows h.2 (omega (arith, h.0)) h.1.restates in
    ground (arith, own, corrects-below r.id n rows h.2 (omega (arith, h.0)))

abbrev pub key_of : Text → Text
key_of ref = import_key_prefix ++ ref

-- A ref that is not read yet.
pub record IsUnknown (l : ℕ) (w : WrittenHistory) (t : Table PointTransaction) (ref : Text)
    : Type 0 where
  pub amount : lookup ref w.amounts ≡ none
  pub reversal : is_in ref w.reversals ≡ false
  pub reversed : is_in ref w.reversed ≡ false
  pub corrected : is_in ref w.corrected ≡ false
  pub key : find_by_key l (key_of ref) t.rows ≡ none

-- A ref that is read, and its row.
pub record IsKnown (l : ℕ) (w : WrittenHistory) (t : Table PointTransaction) (ref : Text) (o : ℕ)
    : Type 0 where
  pub row : PointTransaction
  pub found : find_in_ledger l o t.rows ≡ some row
  pub amount : lookup ref w.amounts ≡ some row.amount
  pub reversal : is_in ref w.reversals ≡ is_some row.reversal_of_id
  pub reversed : is_in ref w.reversed ≡ taken rev_of (some o) t.rows
  pub reversed_here : exists (reverses_in l o) t.rows ≡ taken rev_of (some o) t.rows
  pub corrected : is_in ref w.corrected ≡ taken cor_of (some o) t.rows
  pub key : row.idempotency_key ≡ key_of ref
  pub below : o < t.next_id

abbrev pub AgreesAt : ℕ → WrittenHistory → Table PointTransaction → Text → Option ℕ → Type 0
AgreesAt l w t ref none = IsUnknown l w t ref
AgreesAt l w t ref (some o) = IsKnown l w t ref o

abbrev pub Agrees : ℕ → WrittenHistory → List (Text × ℕ) → Table PointTransaction → Type 0
Agrees l w ids t = (ref : Text) → AgreesAt l w t ref (lookup ref ids)

-- Two refs of one row are one.
known-same :
    (l : ℕ) (w : WrittenHistory) (t : Table PointTransaction) (r s : Text) (o : ℕ)
    → IsKnown l w t r o
    → IsKnown l w t s o
    → text_eq r s ≡ true
known-same l w t r s o h k =
    let same : h.row.idempotency_key ≡ k.row.idempotency_key = ground (arith, h.found, k.found) in
    let keys : key_of r ≡ key_of s = sym h.key ∙ same ∙ k.key in
    let itself : text_eq (key_of r) (key_of r) ≡ true = text_eq_refl (key_of r) in
    sym (text_eq-append import_key_prefix r s)
    ∙ subst (λ x. text_eq (key_of r) x ≡ true) keys itself

-- A reference is to a row by its identifier as it is by its ref.
pub names-holds :
    (l : ℕ) (w : WrittenHistory) (ids : List (Text × ℕ)) (t : Table PointTransaction)
    (target : Option Text) (ot : Option ℕ) (ref : Text) (o : ℕ)
    → Agrees l w ids t
    → id_at ids target ≡ ok ot
    → names target [] ≡ false
    → lookup ref ids ≡ some o
    → names target ref ≡ holds ot o
unfolding id_at
names-holds l w ids t none ot ref o a h e k = ground arith
names-holds l w ids t (some []) ot ref o a h e k = cc
names-holds l w ids t (some (c ∷ s)) ot ref o a h e k = elim (Option-cases (lookup (c ∷ s) ids)) [
  | inl missing ↦ absurd (ground arith)
  | inr (p, found) ↦
      let known_ref : IsKnown l w t ref o = subst (λ x. AgreesAt l w t ref x) k (a ref) in
      let known_target : IsKnown l w t (c ∷ s) p =
        subst (λ x. AgreesAt l w t (c ∷ s) x) found (a (c ∷ s)) in
      let same : ot ≡ some p = ground arith in
      elim (Bool-cases (p == o)) [
        | inl one ↦
            let at_o : IsKnown l w t (c ∷ s) o =
              subst (λ x. IsKnown l w t (c ∷ s) x) (==_eq p o one) known_target in
            rw (same, known-same l w t ref (c ∷ s) o known_ref at_o) (sym one)
        | inr two ↦ elim (Bool-cases (text_eq ref (c ∷ s))) [
          | inl equal ↦
              let refs = text_eq-true ref (c ∷ s) equal in
              let both : some o ≡ some p = sym k ∙ ap (λ x. lookup x ids) refs ∙ found in
              absurd (ground arith)
          | inr unequal ↦ rw (same, unequal) (sym two)
        ]
      ]
]

-- What a reference that is given is found to be.
pub id_at-below :
    (l : ℕ) (w : WrittenHistory) (ids : List (Text × ℕ)) (t : Table PointTransaction)
    (target : Option Text) (ot : Option ℕ)
    → Agrees l w ids t
    → id_at ids target ≡ ok ot
    → names target [] ≡ false
    → (is_some ot ≡ is_some target) × (holds ot t.next_id ≡ false)
unfolding id_at
id_at-below l w ids t none ot a h e = ground arith
id_at-below l w ids t (some []) ot a h e = cc
id_at-below l w ids t (some (c ∷ s)) ot a h e = elim (Option-cases (lookup (c ∷ s) ids)) [
  | inl missing ↦ absurd (ground arith)
  | inr (p, found) ↦
      let known_target : IsKnown l w t (c ∷ s) p =
        subst (λ x. AgreesAt l w t (c ∷ s) x) found (a (c ∷ s)) in
      let same : ot ≡ some p = ground arith in rw same (refl, ground (arith, known_target.below))
]

pub names-Reversible :
    (target : Option Text) (amount : ℤ) (w : WrittenHistory) (ref : Text)
    → Reversible target amount w
    → lookup ref w.amounts ≡ none
    → names target ref ≡ false
names-Reversible none amount w ref h n = refl
names-Reversible (some target) amount w ref h n = elim (Bool-cases (text_eq ref target)) [
  | inl equal ↦
      let both : none ≡ some h.2 =
        sym n ∙ ap (λ x. lookup x w.amounts) (text_eq-true ref target equal) ∙ h.3 in
      absurd cc
  | inr unequal ↦ unequal
]

pub names-Correctable :
    (target : Option Text) (w : WrittenHistory) (ref : Text)
    → Correctable target w
    → lookup ref w.amounts ≡ none
    → names target ref ≡ false
names-Correctable none w ref h n = refl
names-Correctable (some target) w ref h n = elim (Bool-cases (text_eq ref target)) [
  | inl equal ↦
      let both : none ≡ some h.2 =
        sym n ∙ ap (λ x. lookup x w.amounts) (text_eq-true ref target equal) ∙ h.3 in
      absurd cc
  | inr unequal ↦ unequal
]

pub text_eq_comm : (s t : Text) → text_eq s t ≡ text_eq t s
text_eq_comm [] [] = refl
text_eq_comm [] (d ∷ t) = refl
text_eq_comm (c ∷ s) [] = refl
text_eq_comm (c ∷ s) (d ∷ t) = ground (arith, text_eq_comm s t)

-- The ref of an accepted entry is new.
pub accepted-IsUnknown :
    (l : ℕ) (w after : WrittenHistory) (ids : List (Text × ℕ)) (t : Table PointTransaction)
    (entry : ArchivedTransactionDto)
    → Agrees l w ids t
    → IsAccepted entry w after
    → IsUnknown l w t entry.ref
accepted-IsUnknown l w after ids t entry a acc = elim (Option-cases (lookup entry.ref ids)) [
  | inl missing ↦ subst (λ x. AgreesAt l w t entry.ref x) missing (a entry.ref)
  | inr (o, found) ↦
      let known_ref : IsKnown l w t entry.ref o =
        subst (λ x. AgreesAt l w t entry.ref x) found (a entry.ref) in
      absurd (cc (acc.fresh, known_ref.amount))
]

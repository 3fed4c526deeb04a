-- ===== src/Security/Throttle/Table.antt =====
-- The table of login attempts, by its primary key: what a query finds after a write.
use rewardpointsweb.Base.{
  ℕ, ◌≡◌, refl, sym, ◌⊎◌, inl, inr, Bool, true, false, ◌&&◌, if◌then◌else◌, none, some, List, [],
  ◌∷◌, first, exists, delete_where, Bool-cases, arith, Text, text_eq, text_eq-true, text_eq_refl,
}
use rewardpointsweb.Security.Throttle.{
  ThrottlePolicy, LoginAttempts, no_attempts, is_for, get, sweep, put, save, forget,
}

-- A row's key tells which questions it answers.
is_for-same :
    (p i : Text) (a x : LoginAttempts)
    → is_for a.purpose a.identifier x ≡ true
    → is_for p i x ≡ is_for p i a
unfolding is_for
is_for-same p i a x h =
    let same_purpose : x.purpose ≡ a.purpose = text_eq-true x.purpose a.purpose (ground arith) in
    let same_identifier : x.identifier ≡ a.identifier =
      text_eq-true x.identifier a.identifier (ground arith) in
    rw (same_purpose, same_identifier) refl

-- No two rows have one key.
abbrev pub IsTable : List LoginAttempts → Type 0
IsTable [] = Unit
IsTable (x ∷ rows) = (exists (is_for x.purpose x.identifier) rows ≡ false) × IsTable rows

is_for-both :
    (p i : Text) (a x : LoginAttempts)
    → is_for p i a ≡ true
    → is_for p i x ≡ true
    → is_for a.purpose a.identifier x ≡ true
unfolding is_for
is_for-both p i a x h k =
    let purpose : a.purpose ≡ p = text_eq-true a.purpose p (ground arith) in
    let identifier : a.identifier ≡ i = text_eq-true a.identifier i (ground arith) in
    rw (purpose, identifier) k

is_for_self : (a : LoginAttempts) → is_for a.purpose a.identifier a ≡ true
unfolding is_for
is_for_self a = ground (arith, text_eq_refl a.purpose, text_eq_refl a.identifier)

first-put :
    (p i : Text) (a : LoginAttempts) (rows : List LoginAttempts)
    → first (is_for p i) (put a rows) ≡ (if is_for p i a then some a else first (is_for p i) rows)
unfolding put
first-put p i a [] = refl
first-put p i a (x ∷ rows) = elim (Bool-cases (is_for a.purpose a.identifier x)) [
  | inl same ↦ rw same (rw (is_for-same p i a x same) (ground arith))
  | inr other ↦ rw other (ground (arith, is_for-both p i a x, first-put p i a rows))
]

pub get-put :
    (p i : Text) (a : LoginAttempts) (rows : List LoginAttempts)
    → get p i (put a rows) ≡ (if is_for p i a then a else get p i rows)
unfolding get
get-put p i a rows = ground (arith, first-put p i a rows)

keyed :
    (p i : Text) (x : LoginAttempts) → is_for p i x ≡ true → (x.purpose ≡ p) × (x.identifier ≡ i)
unfolding is_for
keyed p i x h =
    (text_eq-true x.purpose p (ground arith), text_eq-true x.identifier i (ground arith))

-- What a query finds has the key.
pub get-keyed :
    (p i : Text) (rows : List LoginAttempts)
    → ((get p i rows).purpose ≡ p) × ((get p i rows).identifier ≡ i)
unfolding get
get-keyed p i [] = (refl, refl)
get-keyed p i (x ∷ rows) = ground (arith, keyed p i x, get-keyed p i rows)

-- A deletion, by another condition, removes the only row with a key or none with it.
first-none :
    (p i : Text) (a : LoginAttempts) (rows : List LoginAttempts)
    → is_for p i a ≡ true
    → exists (is_for a.purpose a.identifier) rows ≡ false
    → first (is_for p i) rows ≡ none
first-none p i a [] h k = refl
first-none p i a (x ∷ rows) h k = ground (arith, is_for-both p i a x, first-none p i a rows)

first-select_none :
    (p i : Text) (q : LoginAttempts → Bool) (rows : List LoginAttempts)
    → first (is_for p i) rows ≡ none
    → first (is_for p i) (delete_where q rows) ≡ none
first-select_none p i q [] h = refl
first-select_none p i q (x ∷ rows) h = ground (arith, first-select_none p i q rows)

pub get-delete :
    (p i : Text) (q : LoginAttempts → Bool) (rows : List LoginAttempts)
    → IsTable rows
    → (get p i (delete_where q rows) ≡ get p i rows)
      ⊎ ((get p i (delete_where q rows) ≡ no_attempts p i) × (q (get p i rows) ≡ true))
unfolding get
get-delete p i q [] t = inl refl
get-delete p i q (x ∷ rows) t = elim (Bool-cases (is_for p i x)) [
  | inl hit ↦ ground (arith, first-select_none p i q rows (first-none p i x rows hit t.0))
  | inr miss ↦ ground (arith, get-delete p i q rows t.1)
]

exists-delete :
    (p q : LoginAttempts → Bool) (rows : List LoginAttempts)
    → exists p rows ≡ false
    → exists p (delete_where q rows) ≡ false
exists-delete p q [] h = refl
exists-delete p q (x ∷ rows) h = ground (arith, exists-delete p q rows)

delete-IsTable :
    (q : LoginAttempts → Bool) (rows : List LoginAttempts)
    → IsTable rows
    → IsTable (delete_where q rows)
delete-IsTable q [] t = tt
delete-IsTable q (x ∷ rows) t = elim (Bool-cases (q x)) [
  | inl gone ↦ rw gone (delete-IsTable q rows t.1)
  | inr kept ↦
      rw kept (exists-delete (is_for x.purpose x.identifier) q rows t.0, delete-IsTable q rows t.1)
]

exists-put :
    (x a : LoginAttempts) (rows : List LoginAttempts)
    → exists (is_for x.purpose x.identifier) rows ≡ false
    → is_for x.purpose x.identifier a ≡ false
    → exists (is_for x.purpose x.identifier) (put a rows) ≡ false
unfolding put
exists-put x a [] h k = ground arith
exists-put x a (y ∷ rows) h k = ground (arith, exists-put x a rows)

is_for_comm :
    (a x : LoginAttempts)
    → is_for a.purpose a.identifier x ≡ false
    → is_for x.purpose x.identifier a ≡ false
is_for_comm a x h = elim (Bool-cases (is_for x.purpose x.identifier a)) [
  | inl same ↦ absurd (cc (is_for-both x.purpose x.identifier a x same (is_for_self x)))
  | inr other ↦ other
]

put-IsTable : (a : LoginAttempts) (rows : List LoginAttempts) → IsTable rows → IsTable (put a rows)
unfolding put
put-IsTable a [] t = (refl, tt)
put-IsTable a (x ∷ rows) t = elim (Bool-cases (is_for a.purpose a.identifier x)) [
  | inl same ↦
      let (purpose, identifier) = keyed a.purpose a.identifier x same in
      rw same (rw (sym purpose, sym identifier) t.0, t.1)
  | inr other ↦ rw other (exists-put x a rows t.0 (is_for_comm a x other), put-IsTable a rows t.1)
]

forget-key :
    (p i q j : Text) (x : LoginAttempts)
    → is_for p i x ≡ true
    → is_for q j x ≡ (text_eq p q && text_eq i j)
unfolding is_for
forget-key p i q j x h = let (purpose, identifier) = keyed p i x h in rw (purpose, identifier) refl

pub get-forget :
    (p i q j : Text) (rows : List LoginAttempts)
    → get p i (forget q j rows)
      ≡ (if text_eq p q && text_eq i j then no_attempts p i else get p i rows)
unfolding get forget
get-forget p i q j [] = ground arith
get-forget p i q j (x ∷ rows) = ground (arith, forget-key p i q j x, get-forget p i q j rows)

pub save-IsTable :
    (a : LoginAttempts) (now : ℕ) (p : ThrottlePolicy) (rows : List LoginAttempts)
    → IsTable rows
    → IsTable (save a now p rows)
unfolding save sweep
save-IsTable a now p rows t = put-IsTable a (sweep now p rows) (delete-IsTable _ rows t)

pub forget-IsTable :
    (p i : Text) (rows : List LoginAttempts) → IsTable rows → IsTable (forget p i rows)
unfolding forget
forget-IsTable p i rows t = delete-IsTable (is_for p i) rows t

-- ===== src/Base/Lists.antt =====
-- Lists measured by native numbers, and lists as the rows of a database table: what the
-- repositories' queries do with them.
use Prim.Native.Nat.{ℕ, suc, ◌+◌}
use mathlib.Core.Path.{◌≡◌, refl, ap, ◌∙◌}
use mathlib.Core.Logic.{inl, inr, ⊎_elim}
use mathlib.Core.Bool.{Bool, true, false, not}
use mathlib.Core.List.{List, [], ◌∷◌, ◌++◌, Memᴰ}
use mathlib.Core.List.Memᴰ
use mathlib.Core.Option.{Option, none, some}
use native.Mathlib.Omega.{arith}
use rewardpointsweb.Base.Tests.{if◌then◌else◌, Bool-cases, Option-cases, leb}

module _ {ℓ} {A : Type ℓ} where
  abbrev pub length : List A → ℕ
  length [] = 0
  length (x ∷ xs) = suc (length xs)

  -- `session.scalar(select(…).where(p))`
  abbrev pub first : (A → Bool) → List A → Option A
  first p [] = none
  first p (x ∷ xs) = if p x then some x else first p xs

  -- `session.scalars(select(…).where(p))`
  abbrev pub select : (A → Bool) → List A → List A
  select p [] = []
  select p (x ∷ xs) = if p x then x ∷ select p xs else select p xs

  -- `delete(…).where(p)`
  abbrev pub delete_where : (A → Bool) → List A → List A
  delete_where p = select (λ x. not (p x))

  -- `update(…).where(p)`
  abbrev pub update_where : (A → Bool) → (A → A) → List A → List A
  update_where p f [] = []
  update_where p f (x ∷ xs) = (if p x then f x else x) ∷ update_where p f xs

  -- `any(p(x) for x in xs)`
  abbrev pub exists : (A → Bool) → List A → Bool
  exists p [] = false
  exists p (x ∷ xs) = if p x then true else exists p xs

  abbrev pub All {κ} : (A → Type κ) → List A → Type κ
  All P [] = Unit
  All P (x ∷ xs) = P x × All P xs

  pub length-append : (xs ys : List A) → length (xs ++ ys) ≡ length xs + length ys
  length-append [] ys = omega arith
  length-append (x ∷ xs) ys = omega (arith, length-append xs ys)

  -- What a query finds satisfies its condition.
  pub first-holds : (p : A → Bool) (xs : List A) (a : A) → first p xs ≡ some a → p a ≡ true
  first-holds p [] a h = cc
  first-holds p (x ∷ xs) a h = ground (arith, first-holds p xs a)

  pub first-exists : (p : A → Bool) (xs : List A) → first p xs ≡ none → exists p xs ≡ false
  first-exists p [] h = refl
  first-exists p (x ∷ xs) h = ground (arith, first-exists p xs)

  pub All-first {κ} :
      (P : A → Type κ) (p : A → Bool) (xs : List A) (a : A) → All P xs → first p xs ≡ some a → P a
  All-first P p [] a h e = cc
  All-first P p (x ∷ xs) a h e = elim (Bool-cases (p x)) [
    | inl t ↦ ground (arith, h.0)
    | inr f ↦ All-first P p xs a h.1 (ground arith)
  ]

  -- A query that finds nothing does not hold of what another finds.
  pub first-misses :
      (p q : A → Bool) (xs : List A) (a : A) → first p xs ≡ some a → first q xs ≡ none → q a ≡ false
  first-misses p q [] a h n = cc
  first-misses p q (x ∷ xs) a h n = elim (Bool-cases (p x)) [
    | inl t ↦ ground arith
    | inr f ↦ first-misses p q xs a (ground arith) (ground arith)
  ]

  -- What a deletion leaves.
  pub exists-delete :
      (p q : A → Bool) (xs : List A) → exists p xs ≡ false → exists p (delete_where q xs) ≡ false
  exists-delete p q [] h = refl
  exists-delete p q (x ∷ xs) h = ground (arith, exists-delete p q xs)

  -- What a query finds is a row of the table.
  pub first-Memᴰ :
      (p : A → Bool) (xs : List A) (a : A) → first p xs ≡ some a → Memᴰ a xs × (p a ≡ true)
  first-Memᴰ p [] a h = cc
  first-Memᴰ p (x ∷ xs) a h = elim (Bool-cases (p x)) [
    | inl hit ↦ let same : a ≡ x = ground arith in (Memᴰ.head same, rw same hit)
    | inr miss ↦ let (there, holds_) = first-Memᴰ p xs a (ground arith) in (Memᴰ.tail there, holds_)
  ]

  Memᴰ-exists : (p : A → Bool) (xs : List A) (a : A) → Memᴰ a xs → p a ≡ true → exists p xs ≡ true
  Memᴰ-exists p [] a m h = absurd (Memᴰ.not-nil m)
  Memᴰ-exists p (x ∷ xs) a m h =
      ⊎_elim (λ same. rw⁻¹ same (rw h refl)) (λ t. ground (arith, Memᴰ-exists p xs a t h))
        (Memᴰ.cases_cons m)

  -- A row that is there, and the only one of its kind, is the one that is found.
  pub first-only :
      (p : A → Bool) (xs : List A) (a : A)
      → Memᴰ a xs
      → p a ≡ true
      → ((x : A) → Memᴰ x xs → p x ≡ true → x ≡ a)
      → first p xs ≡ some a
  first-only p xs a m h only = elim (Option-cases (first p xs)) [
    | inl missing ↦ absurd (ground (arith, Memᴰ-exists p xs a m h, first-exists p xs missing))
    | inr (b, found) ↦
        let (there, holds_) = first-Memᴰ p xs b found in found ∙ ap some (only b there holds_)
  ]

  -- `order_by(key)`, the least key first.
  unfoldable pub place_by : (A → ℕ) → A → List A → List A
  place_by key a [] = a ∷ []
  place_by key a (x ∷ xs) = if leb (key a) (key x) then a ∷ x ∷ xs else x ∷ place_by key a xs

  unfoldable pub sort_by : (A → ℕ) → List A → List A
  unfolding place_by
  sort_by key [] = []
  sort_by key (x ∷ xs) = place_by key x (sort_by key xs)

-- ===== src/Members/Leaving.antt =====
-- Leaving a family does not leave it without a guardian who can sign in.
use rewardpointsweb.Base.{
  ℕ, ◌≡◌, refl, subst, ◌⊎◌, inl, inr, Bool, true, false, ◌&&◌, ◌==◌, ==_refl, if◌then◌else◌, List,
  [], ◌∷◌, select, exists, delete_where, update_where, arith, Bool-cases,
}
use rewardpointsweb.Failure.{ok}
use rewardpointsweb.Roles.{owner, is_guardian, administers_family}
use rewardpointsweb.Entities.{FamilyMembership, Table, Db, is_linked}
use rewardpointsweb.Access.{membership_in}
use rewardpointsweb.Members.{
  place_member, sorted_members, list_for_family, is_older, successor, leave_to, leave_family,
  can_take_over, update_role, change_member, delete_member,
}

module _ {A : Type 0} where
  abbrev In : A → List A → Type 0
  In a [] = ⊥
  In a (x ∷ xs) = (a ≡ x) ⊎ In a xs

  In-select : (p : A → Bool) (a : A) (xs : List A) → In a (select p xs) → In a xs × (p a ≡ true)
  In-select p a [] h = absurd h
  In-select p a (x ∷ xs) h = ground (arith, In-select p a xs)

  In-exists : (p : A → Bool) (a : A) (xs : List A) → In a xs → p a ≡ true → exists p xs ≡ true
  In-exists p a [] h t = absurd h
  In-exists p a (x ∷ xs) h t = ground (arith, In-exists p a xs)

  In-update :
      (p : A → Bool) (f : A → A) (a : A) (xs : List A)
      → In a xs
      → In (if p a then f a else a) (update_where p f xs)
  In-update p f a [] h = absurd h
  In-update p f a (x ∷ xs) (inl e) = inl (rw e refl)
  In-update p f a (x ∷ xs) (inr h) = inr (In-update p f a xs h)

  In-delete :
      (p : A → Bool) (a : A) (xs : List A) → In a xs → p a ≡ false → In a (delete_where p xs)
  In-delete p a [] h t = absurd h
  In-delete p a (x ∷ xs) h t = ground (arith, In-delete p a xs)

In-place :
    (g m : FamilyMembership) (rows : List FamilyMembership)
    → In g (place_member m rows)
    → (g ≡ m) ⊎ In g rows
unfolding place_member
In-place g m [] h = h
In-place g m (n ∷ rows) h = ground (arith, In-place g m rows)

In-sorted :
    (g : FamilyMembership) (rows : List FamilyMembership) → In g (sorted_members rows) → In g rows
unfolding sorted_members
In-sorted g [] h = h
In-sorted g (m ∷ rows) h = ground (arith, In-place g m (sorted_members rows) h, In-sorted g rows)

In-successor :
    (m : FamilyMembership) (rows : List FamilyMembership) → In (successor m rows) (m ∷ rows)
unfolding successor
In-successor m [] = inl refl
In-successor m (n ∷ rows) = ground (arith, In-successor (if is_older n m then n else m) rows)

-- A guardian of the family with an account, and an owner with one.
abbrev pub guards : ℕ → FamilyMembership → Bool
guards family_id m = m.family_id == family_id && (is_guardian m.role && is_linked m)

abbrev pub administers : ℕ → FamilyMembership → Bool
administers family_id m = m.family_id == family_id && (administers_family m.role && is_linked m)

-- Those who can take over are members of the family, other than the one who leaves.
listed :
    (f : ℕ) (me g : FamilyMembership) (rows : List FamilyMembership)
    → In g (select (can_take_over me) (list_for_family f rows))
    → In g rows
      × (g.family_id ≡ f)
      × ((g.id == me.id) ≡ false)
      × (is_guardian g.role ≡ true)
      × (is_linked g ≡ true)
unfolding list_for_family
listed f me g rows h =
    let (inside, able) =
      In-select (can_take_over me) g (sorted_members (select (λ m. m.family_id == f) rows)) h in
    let (there, same) =
      In-select (λ m. m.family_id == f) g rows
        (In-sorted g (select (λ m. m.family_id == f) rows) inside) in
    (there, ground arith, ground arith, ground arith, ground arith)

-- Deleting another member keeps one who guards or administers.
delete_member-exists :
    (p : FamilyMembership → Bool) (me : ℕ) (s : FamilyMembership) (db : Db)
    → In s db.memberships.rows
    → (s.id == me) ≡ false
    → p s ≡ true
    → exists p (delete_member me db).memberships.rows ≡ true
unfolding delete_member
delete_member-exists p me s db there other holds_ =
    In-exists p s (delete_where (λ m. m.id == me) db.memberships.rows)
      (In-delete (λ m. m.id == me) s db.memberships.rows there other) holds_

abbrev promoted : ℕ → Table FamilyMembership → Table FamilyMembership
promoted id t = record t {
  rows = update_where (λ m. m.id == id) (λ m. record m { role = owner }) t.rows;
}

-- The two ways in which `leave_to` ends.
leave_to-cases :
    (me g : FamilyMembership) (gs : List FamilyMembership) (db db' : Db)
    → leave_to me (g ∷ gs) db ≡ ok db'
    → ((administers_family me.role ≡ false) × (db' ≡ delete_member me.id db))
      ⊎ ((administers_family me.role ≡ true)
          × (db'
              ≡ delete_member me.id
                  (record db { memberships = promoted (successor g gs).id db.memberships })))
unfolding leave_to update_role change_member
leave_to-cases me g gs db db' h = elim (Bool-cases (administers_family me.role)) [
  | inl owns ↦ inr (owns, ground arith)
  | inr plain ↦ inl (plain, ground arith)
]

In-promoted :
    (s : FamilyMembership) (t : Table FamilyMembership)
    → In s t.rows
    → In (record s { role = owner }) (promoted s.id t).rows
In-promoted s t there =
    let moved = In-update (λ m. m.id == s.id) (λ m. record m { role = owner }) s t.rows there in
    subst (λ b. In (if b then record s { role = owner } else s) (promoted s.id t).rows)
      (==_refl s.id) moved

leave_to-nobody : (me : FamilyMembership) (db db' : Db) → leave_to me [] db ≡ ok db' → ⊥
unfolding leave_to
leave_to-nobody me db db' h = cc

leave_to-guarded :
    (f : ℕ) (me : FamilyMembership) (gs : List FamilyMembership) (db db' : Db)
    → ((g : FamilyMembership)
        → In g gs
        → In g db.memberships.rows
          × (g.family_id ≡ f)
          × ((g.id == me.id) ≡ false)
          × (is_guardian g.role ≡ true)
          × (is_linked g ≡ true))
    → leave_to me gs db ≡ ok db'
    → (exists (guards f) db'.memberships.rows ≡ true)
      × (administers_family me.role ≡ true → exists (administers f) db'.memberships.rows ≡ true)
unfolding is_guardian administers_family is_linked
leave_to-guarded f me [] db db' able h = absurd (leave_to-nobody me db db' h)
leave_to-guarded f me (g ∷ gs) db db' able h =
    let s = successor g gs in
    let (there, family, other, guards_, linked) = able s (In-successor g gs) in
    elim (leave_to-cases me g gs db db' h) [
      | inl (plain, e) ↦ (
        rw e (delete_member-exists (guards f) me.id s db there other (ground arith)),
        λ owns. absurd (ground arith),
      )
      | inr (owns, e) ↦
          let db1 = record db { memberships = promoted s.id db.memberships } in
          let s1 = record s { role = owner } in
          let there1 = In-promoted s db.memberships there in
          (
            rw e (delete_member-exists (guards f) me.id s1 db1 there1 other (ground arith)),
            λ _.
                rw e
                  (delete_member-exists (administers f) me.id s1 db1 there1 other (ground arith)),
          )
    ]

-- Leaving keeps the family in the hands of somebody who can sign in: a guardian with an account
-- is still a member, and if it was the owner who left, an owner with an account is.
pub leave_family-guarded :
    (f a : ℕ) (me : FamilyMembership) (db db' : Db)
    → membership_in f a db ≡ ok me
    → leave_family f a db ≡ ok db'
    → (exists (guards f) db'.memberships.rows ≡ true)
      × (administers_family me.role ≡ true → exists (administers f) db'.memberships.rows ≡ true)
unfolding leave_family
leave_family-guarded f a me db db' member h =
    let guardians = select (can_take_over me) (list_for_family f db.memberships.rows) in
    let left : leave_to me guardians db ≡ ok db' = ground arith in
    leave_to-guarded f me guardians db db' (λ g. listed f me g db.memberships.rows) left

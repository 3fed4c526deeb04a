-- ===== src/Household/Roster/Found.antt =====
-- Attaching a display, then looking for it by its account (Household/Roster.antt).
use rewardpointsweb.Base.{
  ℕ, ◌≡◌, refl, sym, ap, ◌∙◌, Bool, true, false, not, ==_refl, if◌then◌else◌, holds, Option, none,
  some, List, [], ◌∷◌, first, select, exists, sort_by, place_by, Text, text_eq, strip, arith, ◌++◌,
}
use rewardpointsweb.Failure.{
  Result, ok, ◌>>=◌, or_raise, integrity_error, family_access_denied, family_not_found,
  succeeds-steps, raise_if-passes,
}
use rewardpointsweb.Values.{display_name}
use rewardpointsweb.Roles.{display, is_display}
use rewardpointsweb.Entities.{Family, FamilyMembership, Table, Db}
use rewardpointsweb.Access.{find_in_family}
use rewardpointsweb.Invitations.{find_family}
use rewardpointsweb.Members.{list_for_account, add_membership, account_taken}
use rewardpointsweb.Household.Accounts.{User, Accounts}
use rewardpointsweb.Household.Roster.{
  AttachDisplayCommand, DisplayDto, to_display, display_username_prefix, create_display_account,
  may_attach, attach_display, show_in, show_display, find_display,
}

-- The memberships of an account that has only just come.
select-none :
    (p : FamilyMembership → Bool) (rows : List FamilyMembership)
    → exists p rows ≡ false
    → select p rows ≡ []
select-none p [] h = refl
select-none p (x ∷ rows) h = ground (arith, select-none p rows)

list_for_account-first :
    (account_id : ℕ) (m : FamilyMembership) (rows : List FamilyMembership)
    → m.account_id ≡ some account_id
    → exists (λ x. holds x.account_id account_id) rows ≡ false
    → list_for_account account_id (m ∷ rows) ≡ m ∷ []
unfolding list_for_account sort_by place_by
list_for_account-first account_id m rows own fresh =
    let mine : holds m.account_id account_id ≡ true =
      ap (λ o. holds o account_id) own ∙ ==_refl account_id in
    rw mine (rw (select-none (λ x. holds x.account_id account_id) rows fresh) refl)

-- The membership that is added.
add_membership-first :
    (family_id account_id : ℕ) (name : Text) (now : ℕ) (t t' : Table FamilyMembership)
    (m : FamilyMembership)
    → add_membership family_id (some account_id) display name now t ≡ ok (m, t')
    → (t'.rows ≡ m ∷ t.rows)
      × (m.account_id ≡ some account_id)
      × (m.role ≡ display)
      × (m.family_id ≡ family_id)
unfolding add_membership
add_membership-first family_id account_id name now t t' m h =
    let (validated, h1, _) = succeeds-steps _ (display_name name) h in
    let (h2, _) =
      raise_if-passes (account_taken family_id (some account_id) t.rows) integrity_error _ h1 in
    ground arith

find_family-id :
    (family_id : ℕ) (rows : List Family) (f : Family)
    → find_family family_id rows ≡ some f
    → f.id ≡ family_id
unfolding find_family
find_family-id family_id [] f h = cc
find_family-id family_id (x ∷ rows) f h = ground (arith, find_family-id family_id rows f)

-- A display that is written and read.
to_display-account_id :
    (m : FamilyMembership) (family : Family) (dto : DisplayDto) (account_id : ℕ)
    → m.account_id ≡ some account_id
    → to_display m family ≡ ok dto
    → dto.account_id ≡ account_id
unfolding to_display
to_display-account_id m family dto account_id own h = ground arith

create_display_account-id :
    (token : Text) (accounts accounts' : Accounts) (user : User)
    → create_display_account token accounts ≡ ok (user, accounts')
    → user.id ≡ accounts.users.next_id
unfolding create_display_account
create_display_account-id token accounts accounts' user h =
    let (h1, _) =
      raise_if-passes
        (exists (λ u. text_eq u.username (display_username_prefix ++ token)) accounts.users.rows)
        integrity_error _ h in
    ground arith

show_display-found :
    (db : Db) (m : FamilyMembership) (family : Family) (dto : DisplayDto)
    → find_family m.family_id db.families.rows ≡ some family
    → to_display m family ≡ ok dto
    → show_display db (some m) ≡ ok (some dto)
show_display-found db m family dto home written =
    ap (show_in m) home ∙ ap (λ r. r >>= λ d. ok (some d)) written

find_display-only :
    (account_id : ℕ) (m : FamilyMembership) (db : Db)
    → list_for_account account_id db.memberships.rows ≡ m ∷ []
    → m.role ≡ display
    → find_display account_id db ≡ show_display db (some m)
unfolding find_display is_display
find_display-only account_id m db alone role =
    let shown : first (λ x. is_display x.role) (m ∷ []) ≡ some m =
      ap (λ r. if is_display r then some m else none) role in
    ap (λ rows. show_display db (first (λ x. is_display x.role) rows)) alone
    ∙ ap (show_display db) shown

-- What attaching a display answers.
attached-inj :
    {dto dto' : DisplayDto} {db db' : Db} {accounts accounts' : Accounts}
    → ◌≡◌ {A = Result (DisplayDto × Db × Accounts)}
        (ok (dto, db, accounts))
        (ok (dto', db', accounts'))
    → (dto ≡ dto') × (db ≡ db')
attached-inj h = (cc, cc)

or_raise-ok :
    {family : Family} (o : Option Family)
    → or_raise o family_not_found ≡ ok family
    → o ≡ some family
or_raise-ok none h = cc
or_raise-ok (some f) h = cc

-- A display that a guardian has attached, under an account that no member has had, is found by
-- its account, as it was answered.
pub attach_display-find :
    (c : AttachDisplayCommand) (token : Text) (now : ℕ) (db after : Db)
    (accounts accounts' : Accounts) (dto : DisplayDto)
    → exists (λ m. holds m.account_id accounts.users.next_id) db.memberships.rows ≡ false
    → attach_display c token now db accounts ≡ ok (dto, after, accounts')
    → find_display dto.account_id after ≡ ok (some dto)
unfolding attach_display find_display create_display_account to_display is_display
attach_display-find c token now db after accounts accounts' dto fresh h =
    let (h1, _) =
      raise_if-passes
        (not (may_attach (find_in_family c.family_id c.approver_id db.memberships.rows)))
        family_access_denied _ h in
    let (family, h2, home) =
      succeeds-steps _ (or_raise (find_family c.family_id db.families.rows) family_not_found) h1 in
    let (name, h3, _) = succeeds-steps _ (display_name (strip c.name)) h2 in
    let ((user, made), h4, created) = succeeds-steps _ (create_display_account token accounts) h3 in
    let ((m, memberships), h5, added) =
      succeeds-steps _ (add_membership family.id (some user.id) display name now db.memberships)
        h4 in
    let (given, h6, written) = succeeds-steps _ (to_display m family) h5 in
    let (rows, own, role, house) =
      add_membership-first family.id user.id name now db.memberships memberships m added in
    let mine : user.id ≡ accounts.users.next_id =
      create_display_account-id token accounts made user created in
    let sent : given.account_id ≡ user.id =
      to_display-account_id m family given user.id own written in
    let (same, kept) = attached-inj h6 in
    let found = or_raise-ok (find_family c.family_id db.families.rows) home in
    let home' : find_family m.family_id after.families.rows ≡ some family =
      ap (λ d. find_family m.family_id d.families.rows) (sym kept)
      ∙ ap (λ i. find_family i db.families.rows)
          (house ∙ find_family-id c.family_id db.families.rows family found)
      ∙ found in
    let account : dto.account_id ≡ user.id = sym (ap (λ d. d.account_id) same) ∙ sent in
    let fresh' : exists (λ x. holds x.account_id dto.account_id) db.memberships.rows ≡ false =
      ap (λ i. exists (λ x. holds x.account_id i) db.memberships.rows) (account ∙ mine) ∙ fresh in
    let alone : list_for_account dto.account_id after.memberships.rows ≡ m ∷ [] =
      ap (λ d. list_for_account dto.account_id d.memberships.rows) (sym kept)
      ∙ ap (list_for_account dto.account_id) rows
      ∙ list_for_account-first dto.account_id m db.memberships.rows (own ∙ ap some (sym account))
          fresh' in
    find_display-only dto.account_id m after alone role
    ∙ show_display-found after m family dto home' (written ∙ ap ok same)

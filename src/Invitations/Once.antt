-- ===== src/Invitations/Once.antt =====
-- A code is good for one membership.
use rewardpointsweb.Base.{
  ℕ, ◌≤◌, ◌≡◌, refl, Option, none, some, List, [], ◌∷◌, select, update_where, inl, inr,
  Option-cases, arith, Text,
}
use rewardpointsweb.Failure.{ok, err, invitation_not_found}
use rewardpointsweb.Entities.{FamilyMembership, FamilyInvitation, Table, Db}
use rewardpointsweb.Invitations.{
  Hashing, hash_code, consumable, consume, link_target, join_as_new, bind_to, bind,
}

abbrev mark_used : ℕ → FamilyInvitation → FamilyInvitation
mark_used now i = record i { used_at = some now }

-- What is used or expired stays so.
none_consumable :
    (h : Text) (now later : ℕ) (rows : List FamilyInvitation)
    → now ≤ later
    → select (consumable h later) (update_where (consumable h now) (mark_used now) rows) ≡ []
unfolding consumable
none_consumable h now later [] le = refl
none_consumable h now later (i ∷ rows) le = ground (arith, none_consumable h now later rows le)

consume-again :
    (hashing : Hashing) (code : Text) (now later : ℕ) (t : Table FamilyInvitation)
    → now ≤ later
    → (consume hashing code later (consume hashing code now t).1).0 ≡ none
unfolding consume
consume-again hashing code now later t le =
    rw (none_consumable (hash_code hashing code) now later t.rows le) refl

bind_to-invitations :
    (i : FamilyInvitation) (target : Option ℕ) (account_id : ℕ) (name : Option Text) (now : ℕ)
    (db : Db) (m : FamilyMembership) (db' : Db)
    → bind_to i target account_id name now db ≡ ok (m, db')
    → db'.invitations ≡ db.invitations
unfolding bind_to link_target join_as_new
bind_to-invitations i (some target) account_id name now db m db' h = ground arith
bind_to-invitations i none account_id name now db m db' h = ground arith

bind-invitations :
    (hashing : Hashing) (code : Text) (account_id : ℕ) (name : Option Text) (now : ℕ) (db : Db)
    (m : FamilyMembership) (db' : Db)
    → bind hashing code account_id name now db ≡ ok (m, db')
    → db'.invitations ≡ (consume hashing code now db.invitations).1
unfolding bind
bind-invitations hashing code account_id name now db m db' h =
    elim (Option-cases (consume hashing code now db.invitations).0) [
      | inl missing ↦ absurd (ground arith)
      | inr (i, found) ↦ ground (
        arith,
        bind_to-invitations i i.target_membership_id account_id name now
            (record db { invitations = (consume hashing code now db.invitations).1 }) m db',
      )
    ]

-- Once a code has made a membership, nobody makes another with it: every later call with the
-- code, by whatever account, finds no invitation.
pub bind-once :
    (hashing : Hashing) (code : Text) (account_id : ℕ) (name : Option Text) (now : ℕ) (db : Db)
    (m : FamilyMembership) (db' : Db)
    → bind hashing code account_id name now db ≡ ok (m, db')
    → (other : ℕ) (other_name : Option Text) (later : ℕ) → now ≤ later
    → bind hashing code other other_name later db' ≡ err invitation_not_found
unfolding bind
bind-once hashing code account_id name now db m db' h other other_name later le =
    let kept = bind-invitations hashing code account_id name now db m db' h in
    rw kept (rw (consume-again hashing code now later db.invitations le) refl)

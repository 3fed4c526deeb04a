-- ===== src/Invitations/Issue.antt =====
-- Issuing and revoking an invitation: `issue`, `find_in_family` and `delete` of
-- infrastructure/sql_family_invitation_repository.py, and the use cases issue_invitation.py and
-- revoke_invitation.py of bounded_contexts/reward_points. The code that `secrets` chooses is an
-- argument.
use rewardpointsweb.Base.{
  ℕ, ◌+◌, ◌<◌, ◌≡◌, refl, Bool, false, ◌&&◌, not, ◌==◌, Option, none, some, List, [], ◌∷◌, first,
  select, exists, delete_where, Text, text_eq, text_eq_refl, arith,
}
use rewardpointsweb.Failure.{
  Result, ok, raise_if, or_raise, ◌>>=◌, ◌>>◌, integrity_error, family_access_denied,
  role_not_invitable, membership_not_found, invitation_target_unavailable, invitation_not_found,
}
use rewardpointsweb.Roles.{FamilyRole, is_invitable}
use rewardpointsweb.Policy.{can_invite}
use rewardpointsweb.Entities.{FamilyMembership, FamilyInvitation, Table, Db, insert_row, is_linked}
use rewardpointsweb.Access.{find_membership, membership_in}
use rewardpointsweb.Invitations.{Hashing, hash_code, find_by_code, consumable, consume}

abbrev has_hash : Text → FamilyInvitation → Bool
has_hash code_hash i = text_eq i.code_hash code_hash

-- The row of `issue`.
abbrev invitation_row : Text → ℕ → FamilyRole → Option ℕ → ℕ → ℕ → ℕ → FamilyInvitation
invitation_row code_hash family_id role target expires_at now id = record {
  id = id;
  family_id = family_id;
  role = role;
  target_membership_id = target;
  expires_at = expires_at;
  used_at = none;
  created_at = now;
  code_hash = code_hash;
}

-- `issue`; `code_hash` is unique.
unfoldable pub issue :
    Hashing
    → Text
    → ℕ
    → FamilyRole
    → Option ℕ
    → ℕ
    → ℕ
    → Table FamilyInvitation
    → Result (FamilyInvitation × Table FamilyInvitation)
issue hashing code family_id role target expires_at now t = do
  raise_if (exists (has_hash (hash_code hashing code)) t.rows) integrity_error
  ok (insert_row (invitation_row (hash_code hashing code) family_id role target expires_at now) t)

-- `IssueInvitationCommand`
pub record IssueInvitationCommand : Type 0 where
  pub family_id : ℕ
  pub account_id : ℕ
  pub role : FamilyRole
  pub target_membership_id : Option ℕ

-- `InvitationDTO`
pub record InvitationDto : Type 0 where
  pub id : ℕ
  pub role : FamilyRole
  pub target_membership_id : Option ℕ
  pub target_display_name : Option Text
  pub expires_at : ℕ
  pub code : Option Text

-- `IssueInvitationUseCase._require_target`
unfoldable pub require_target : Option ℕ → ℕ → Db → Result (Option FamilyMembership)
require_target none family_id db = ok none
require_target (some membership_id) family_id db = do
  target ← or_raise (find_membership membership_id db.memberships.rows) membership_not_found
  raise_if (not (target.family_id == family_id)) membership_not_found
  raise_if (is_linked target) invitation_target_unavailable
  ok (some target)

abbrev id_of : Option FamilyMembership → Option ℕ
id_of none = none
id_of (some m) = some m.id

abbrev name_of : Option FamilyMembership → Option Text
name_of none = none
name_of (some m) = some m.display_name

-- `IssueInvitationUseCase.execute`
unfoldable pub issue_invitation :
    Hashing → Text → ℕ → IssueInvitationCommand → ℕ → Db → Result (InvitationDto × Db)
issue_invitation hashing code ttl c now db = do
  actor ← membership_in c.family_id c.account_id db
  raise_if (not (can_invite actor c.role)) family_access_denied
  raise_if (not (is_invitable c.role)) role_not_invitable
  target ← require_target c.target_membership_id c.family_id db
  (i, invitations) ←
      issue hashing code c.family_id c.role (id_of target) (now + ttl) now db.invitations
  ok (
    record {
      id = i.id;
      role = i.role;
      target_membership_id = i.target_membership_id;
      target_display_name = name_of target;
      expires_at = i.expires_at;
      code = some code;
    },
    record db { invitations = invitations },
  )

-- `find_in_family`
unfoldable pub find_invitation : ℕ → ℕ → List FamilyInvitation → Option FamilyInvitation
find_invitation family_id invitation_id rows =
    first (λ i. i.id == invitation_id && i.family_id == family_id) rows

-- `RevokeInvitationUseCase.execute`
unfoldable pub revoke_invitation : ℕ → ℕ → ℕ → Db → Result Db
unfolding find_invitation
revoke_invitation family_id invitation_id account_id db = do
  actor ← membership_in family_id account_id db
  i ← or_raise (find_invitation family_id invitation_id db.invitations.rows) invitation_not_found
  raise_if (not (can_invite actor i.role)) family_access_denied
  ok (record db {
    invitations = record db.invitations {
      rows = delete_where (λ j. j.id == i.id) db.invitations.rows;
    };
  })

none_fits :
    (h : Text) (now : ℕ) (rows : List FamilyInvitation)
    → exists (has_hash h) rows ≡ false
    → select (consumable h now) rows ≡ []
unfolding consumable
none_fits h now [] free = refl
none_fits h now (i ∷ rows) free = ground (arith, none_fits h now rows)

-- A code that was issued is good until its invitation expires: to consume it gives the invitation
-- that was issued, with the family, the role and the target that were asked for, and marked as used.
pub issue-consume :
    (hashing : Hashing) (code : Text) (family_id : ℕ) (role : FamilyRole) (target : Option ℕ)
    (expires_at now later : ℕ) (i : FamilyInvitation) (t t' : Table FamilyInvitation)
    → issue hashing code family_id role target expires_at now t ≡ ok (i, t')
    → later < expires_at
    → ((consume hashing code later t').0 ≡ some (record i { used_at = some later }))
      × (i.family_id ≡ family_id)
      × (i.role ≡ role)
      × (i.target_membership_id ≡ target)
unfolding issue consume consumable find_by_code
issue-consume hashing code family_id role target expires_at now later i t t' h early =
    ground (
      arith,
      none_fits (hash_code hashing code) later t.rows,
      text_eq_refl (hash_code hashing code),
    )

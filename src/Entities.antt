-- ===== src/Entities.antt =====
-- The entities of bounded_contexts/reward_points/domain/entities, and the database that holds
-- them (bounded_contexts/reward_points/infrastructure/reward_points_models.py). A table is the
-- list of its rows, the newest first, and the identifier that its next row gets. A row is kept as
-- the entity that the repository makes of it. Points in time and days are numbers.
use rewardpointsweb.Base.{ℕ, ◌+◌, ◌∷◌, List, Option, Bool, is_some, ℤ, Text, ◌==◌}
use rewardpointsweb.Roles.{FamilyRole}

pub record Table (R : Type 0) : Type 0 where
  pub rows : List R
  pub next_id : ℕ

-- `session.add(row)` and `flush`: the row gets the next identifier.
abbrev pub insert_row : {R : Type 0} → (ℕ → R) → Table R → R × Table R
insert_row make t =
    let r = make t.next_id in (r, record { rows = r ∷ t.rows; next_id = t.next_id + 1 })

-- `Family`
pub record Family : Type 0 where
  pub id : ℕ
  pub name : Text
  pub rules : Option Text
  pub created_at : ℕ

-- `FamilyMembership`
pub record FamilyMembership : Type 0 where
  pub id : ℕ
  pub family_id : ℕ
  pub account_id : Option ℕ
  pub role : FamilyRole
  pub display_name : Text
  pub created_at : ℕ
  pub independence_proposed_at : Option ℕ
  pub display_order : ℕ

-- `FamilyMembership.is_linked`
unfoldable pub is_linked : FamilyMembership → Bool
is_linked m = is_some m.account_id

-- `FamilyMembership.independence_proposed`
unfoldable pub independence_proposed : FamilyMembership → Bool
independence_proposed m = is_some m.independence_proposed_at

-- `PointLedger`
pub record PointLedger : Type 0 where
  pub id : ℕ
  pub family_id : ℕ
  pub membership_id : ℕ
  pub created_at : ℕ

-- `PointLedger.belongs_to_family`
unfoldable pub belongs_to_family : PointLedger → ℕ → Bool
belongs_to_family l family_id = l.family_id == family_id

-- `PointTransaction`, with the column `idempotency_key` that only the table has.
pub record PointTransaction : Type 0 where
  pub id : ℕ
  pub ledger_id : ℕ
  pub amount : ℤ
  pub reason : Text
  pub granted_by_membership_id : Option ℕ
  pub occurred_at : ℕ
  pub created_at : ℕ
  pub idempotency_key : Text
  pub reversal_of_id : Option ℕ
  pub corrects_id : Option ℕ

-- `DailyBonus`
pub record DailyBonus : Type 0 where
  pub id : ℕ
  pub ledger_id : ℕ
  pub amount : ℤ
  pub reason : Text
  pub starts_on : ℕ
  pub granted_through : Option ℕ

-- `EventSticker`, with the column `stuck_by_membership_id` that only the table has.
pub record EventSticker : Type 0 where
  pub number : ℕ
  pub stuck_at : ℕ
  pub stuck_by_membership_id : Option ℕ

-- `RewardEvent`; the rows of the sticker table stand in `stickers`, by number.
pub record RewardEvent : Type 0 where
  pub id : ℕ
  pub ledger_id : ℕ
  pub title : Text
  pub reward : ℤ
  pub goal_count : ℕ
  pub stickers : List EventSticker
  pub completed_at : Option ℕ
  pub created_at : ℕ
  pub deadline : Option ℕ
  pub awarded_transaction_id : Option ℕ

-- `FamilyInvitation`, with the column `code_hash` that only the table has.
pub record FamilyInvitation : Type 0 where
  pub id : ℕ
  pub family_id : ℕ
  pub role : FamilyRole
  pub target_membership_id : Option ℕ
  pub expires_at : ℕ
  pub used_at : Option ℕ
  pub created_at : ℕ
  pub code_hash : Text

pub record Db : Type 0 where
  pub families : Table Family
  pub memberships : Table FamilyMembership
  pub ledgers : Table PointLedger
  pub transactions : Table PointTransaction
  pub bonuses : Table DailyBonus
  pub events : Table RewardEvent
  pub invitations : Table FamilyInvitation

-- ===== src/Schema.antt =====
-- What the foreign keys of bounded_contexts/reward_points/infrastructure/reward_points_models.py do
-- when a row is deleted: `ON DELETE CASCADE` and `ON DELETE SET NULL`. The references from one row of
-- a ledger to another (`reversal_of_id`, `corrects_id`, `awarded_transaction_id`) stay inside the
-- ledger, whose rows go together.
use rewardpointsweb.Base.{
  ℕ, Bool, true, ◌&&◌, ◌==◌, if◌then◌else◌, holds, none, List, exists, delete_where, update_where,
  map,
}
use rewardpointsweb.Entities.{
  FamilyMembership, PointLedger, PointTransaction, EventSticker, RewardEvent, Db,
}

-- `granted_by_membership_id`: the row that names a member as its grantor loses the name.
abbrev pub forget_grantor : ℕ → PointTransaction → PointTransaction
forget_grantor membership_id r =
    if holds r.granted_by_membership_id membership_id
    then record r { granted_by_membership_id = none }
    else r

-- `stuck_by_membership_id`: so does the sticker.
abbrev pub forget_sticker : ℕ → EventSticker → EventSticker
forget_sticker membership_id s =
    if holds s.stuck_by_membership_id membership_id
    then record s { stuck_by_membership_id = none }
    else s

abbrev pub forget_stickers : ℕ → RewardEvent → RewardEvent
forget_stickers membership_id e = record e {
  stickers = map (λ s. forget_sticker membership_id s) e.stickers;
}

-- `account_id`: the memberships of an account that goes stay, without it.
abbrev pub forget_account : ℕ → FamilyMembership → FamilyMembership
forget_account account_id m =
    if holds m.account_id account_id then record m { account_id = none } else m

unfoldable pub drop_account : ℕ → Db → Db
drop_account account_id db = record db {
  memberships = record db.memberships {
    rows = update_where (λ m. true) (λ m. forget_account account_id m) db.memberships.rows;
  };
}

-- The identifier is that of a ledger that goes.
abbrev pub is_dropped : (PointLedger → Bool) → List PointLedger → ℕ → Bool
is_dropped goes ledgers id = exists (λ l. goes l && l.id == id) ledgers

-- Ledgers go, and with them their transactions, bonuses and events.
unfoldable pub drop_ledgers : (PointLedger → Bool) → Db → Db
drop_ledgers goes db = record db {
  ledgers = record db.ledgers { rows = delete_where goes db.ledgers.rows };
  transactions = record db.transactions {
    rows = delete_where (λ r. is_dropped goes db.ledgers.rows r.ledger_id) db.transactions.rows;
  };
  bonuses = record db.bonuses {
    rows = delete_where (λ b. is_dropped goes db.ledgers.rows b.ledger_id) db.bonuses.rows;
  };
  events = record db.events {
    rows = delete_where (λ e. is_dropped goes db.ledgers.rows e.ledger_id) db.events.rows;
  };
}

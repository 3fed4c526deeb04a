-- ===== src/Tests/Samples.antt =====
-- A family of an owner (account 10), a parent (11), a child (12) and a display (13), with the
-- child's ledger and two of its rows.
use rewardpointsweb.Base.{[], ◌∷◌, none, some, pos, negsuc, codes, arith, is_blank}
use rewardpointsweb.Roles.{owner, parent, child, display}
use rewardpointsweb.Entities.{Family, FamilyMembership, PointLedger, PointTransaction, Db}
use rewardpointsweb.Ledger.{violates_unique}
use rewardpointsweb.Ledger.History.{IsValid}

abbrev pub the_owner : FamilyMembership
the_owner = record {
  id = 1;
  family_id = 1;
  account_id = some 10;
  role = owner;
  display_name = codes "Aki";
  created_at = 5;
  independence_proposed_at = none;
  display_order = 0;
}

abbrev pub the_parent : FamilyMembership
the_parent = record {
  id = 2;
  family_id = 1;
  account_id = some 11;
  role = parent;
  display_name = codes "Ben";
  created_at = 6;
  independence_proposed_at = none;
  display_order = 1;
}

abbrev pub the_child : FamilyMembership
the_child = record {
  id = 3;
  family_id = 1;
  account_id = some 12;
  role = child;
  display_name = codes "Chi";
  created_at = 7;
  independence_proposed_at = none;
  display_order = 2;
}

abbrev pub the_display : FamilyMembership
the_display = record {
  id = 4;
  family_id = 1;
  account_id = some 13;
  role = display;
  display_name = codes "TV";
  created_at = 8;
  independence_proposed_at = none;
  display_order = 3;
}

abbrev pub the_ledger : PointLedger
the_ledger = record { id = 1; family_id = 1; membership_id = 3; created_at = 7 }

abbrev pub dishes : PointTransaction
dishes = record {
  id = 1;
  ledger_id = 1;
  amount = pos 50;
  reason = codes "dishes";
  granted_by_membership_id = some 1;
  occurred_at = 20;
  created_at = 20;
  idempotency_key = codes "k1";
  reversal_of_id = none;
  corrects_id = none;
}

abbrev pub game : PointTransaction
game = record {
  id = 2;
  ledger_id = 1;
  amount = negsuc 19;
  reason = codes "game";
  granted_by_membership_id = some 2;
  occurred_at = 21;
  created_at = 22;
  idempotency_key = codes "k2";
  reversal_of_id = none;
  corrects_id = none;
}

abbrev pub the_family : Family
the_family = record { id = 1; name = codes "Home"; rules = none; created_at = 5 }

abbrev pub sample : Db
sample = record {
  families = record { rows = the_family ∷ []; next_id = 2 };
  memberships = record {
    rows = the_display ∷ the_child ∷ the_parent ∷ the_owner ∷ [];
    next_id = 5;
  };
  ledgers = record { rows = the_ledger ∷ []; next_id = 2 };
  transactions = record { rows = game ∷ dishes ∷ []; next_id = 3 };
  bonuses = record { rows = []; next_id = 1 };
  events = record { rows = []; next_id = 1 };
  invitations = record { rows = []; next_id = 1 };
}

pub sample-IsValid : IsValid sample.transactions
unfolding violates_unique is_blank
sample-IsValid = ground arith

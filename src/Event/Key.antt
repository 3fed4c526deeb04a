-- ===== src/Event/Key.antt =====
-- The keys of the award rows: every event has its own.
use Prim.Native.Nat.{◌*◌}
use rewardpointsweb.Base.{
  ℕ, zero, suc, ◌+◌, ◌-◌, ◌/◌, ◌<◌, ◌≡◌, refl, ◌∙◌, sym, ap, Text, [], ◌∷◌, ◌++◌, arith, ltb, inl,
  inr, Bool-cases,
}
use rewardpointsweb.Values.{step_key, is_derived}
use rewardpointsweb.Values.Laws.{step_key-injective}
use rewardpointsweb.Days.{digit}
use rewardpointsweb.Failure.{ok}
use rewardpointsweb.Entities.{RewardEvent}
use rewardpointsweb.Values.Laws.{idempotency_key-cases}
use rewardpointsweb.Event.{award_key, decimal, decimal_from, event_base}

-- `int(s)`, for the digits of a number.
value_from : ℕ → Text → ℕ
value_from acc [] = acc
value_from acc (c ∷ s) = value_from (acc * 10 + (c - 48)) s

value_from-append :
    (acc c : ℕ) (s : Text) → value_from acc (s ++ c ∷ []) ≡ value_from acc s * 10 + (c - 48)
unfolding value_from
value_from-append acc c [] = refl
value_from-append acc c (d ∷ s) = value_from-append (acc * 10 + (d - 48)) c s

value-decimal_from : (fuel n : ℕ) → n < fuel → value_from 0 (decimal_from fuel n) ≡ n
unfolding value_from decimal_from
value-decimal_from zero n h = absurd (omega arith)
value-decimal_from (suc fuel) n h = elim (Bool-cases (ltb n 10)) [
  | inl small ↦ rw small (ground arith)
  | inr large ↦ rw large (
      value_from-append 0 (digit n) (decimal_from fuel (n / 10))
      ∙ ground (arith, value-decimal_from fuel (n / 10)))
]

-- A number is read back from its digits.
value-decimal : (n : ℕ) → value_from 0 (decimal n) ≡ n
unfolding decimal
value-decimal n = value-decimal_from (suc n) n (omega arith)

pub decimal-injective : (m n : ℕ) → decimal m ≡ decimal n → m ≡ n
decimal-injective m n e = sym (value-decimal m) ∙ ap (value_from 0) e ∙ value-decimal n

step_key-decimal :
    (m n : ℕ) → step_key event_base (decimal m) ≡ step_key event_base (decimal n) → m ≡ n
unfolding is_derived
step_key-decimal m n e =
    decimal-injective m n
      (step_key-injective event_base event_base (decimal m) (decimal n) refl refl e).1

-- Two events that have the same award key are the same event: the keys of different events differ.
pub award_key-injective :
    (d e : RewardEvent) (key : Text) → award_key d ≡ ok key → award_key e ≡ ok key → d.id ≡ e.id
unfolding award_key
award_key-injective d e key hd he =
    let same : step_key event_base (decimal d.id) ≡ step_key event_base (decimal e.id) = ground (
      arith,
      idempotency_key-cases (step_key event_base (decimal d.id)),
      idempotency_key-cases (step_key event_base (decimal e.id)),
    ) in
    step_key-decimal d.id e.id same

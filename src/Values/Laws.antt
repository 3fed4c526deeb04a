-- ===== src/Values/Laws.antt =====
-- What the value objects guarantee, and the keys that one operation makes for its steps.
use rewardpointsweb.Base.{
  ℕ, ◌+◌, ◌≤◌, ◌<◌, ◌≡◌, ◌≢◌, ◌⊎◌, refl, true, false, ◌∷◌, [], arith, length, length-append, ℤ,
  magnitude, magnitude-neg, neg, Text, is_blank, contains-append,
}
use rewardpointsweb.Base.Texts.{is_space}
use rewardpointsweb.Base.Texts.Strip.{is_blank-append_nonspace}
use rewardpointsweb.Failure.{value_error, ok, err}
use rewardpointsweb.Values.{
  checked_text, idempotency_key, transaction_reason, key_max_length, reason_max_length,
  point_amount, negated, max_magnitude, for_step, step_key, step_separator, max_step_length,
  max_base_length, is_derived,
}

-- A text within the limit that is not blank, as a value object holds it.
abbrev pub IsText : ℕ → Text → Type 0
IsText limit value = (is_blank value ≡ false) × (length value ≤ limit)

pub checked_text-ok :
    (limit : ℕ) (value : Text) → IsText limit value → checked_text limit value ≡ ok value
unfolding checked_text
checked_text-ok limit value h = ground arith

pub checked_text-IsText :
    (limit : ℕ) (value v : Text)
    → checked_text limit value ≡ ok v
    → (v ≡ value) × IsText limit value
unfolding checked_text
checked_text-IsText limit value v h = ground arith

-- A value object is the text that it is made of, or is refused.
pub checked_text-cases :
    (limit : ℕ) (value : Text)
    → ((checked_text limit value ≡ ok value) × IsText limit value)
      ⊎ (checked_text limit value ≡ err value_error)
unfolding checked_text
checked_text-cases limit value = ground arith

pub idempotency_key-cases :
    (key : Text)
    → ((idempotency_key key ≡ ok key) × IsText key_max_length key)
      ⊎ (idempotency_key key ≡ err value_error)
unfolding idempotency_key
idempotency_key-cases key = checked_text-cases key_max_length key

pub idempotency_key-ok : (key : Text) → IsText key_max_length key → idempotency_key key ≡ ok key
unfolding idempotency_key
idempotency_key-ok key h = checked_text-ok key_max_length key h

pub transaction_reason-ok :
    (reason : Text) → IsText reason_max_length reason → transaction_reason reason ≡ ok reason
unfolding transaction_reason
transaction_reason-ok reason h = checked_text-ok reason_max_length reason h

pub transaction_reason-cases :
    (reason : Text)
    → ((transaction_reason reason ≡ ok reason) × IsText reason_max_length reason)
      ⊎ (transaction_reason reason ≡ err value_error)
unfolding transaction_reason
transaction_reason-cases reason = checked_text-cases reason_max_length reason

-- An amount that a row may carry: not zero, and at most a million either way.
abbrev pub IsAmount : ℤ → Type 0
IsAmount a = (magnitude a ≢ 0) × (magnitude a ≤ max_magnitude)

pub point_amount-ok : (a : ℤ) → IsAmount a → point_amount a ≡ ok a
unfolding point_amount
point_amount-ok a h = ground arith

pub point_amount-IsAmount : (a v : ℤ) → point_amount a ≡ ok v → (v ≡ a) × IsAmount a
unfolding point_amount
point_amount-IsAmount a v h = ground arith

pub point_amount-cases :
    (a : ℤ) → ((point_amount a ≡ ok a) × IsAmount a) ⊎ (point_amount a ≡ err value_error)
unfolding point_amount
point_amount-cases a = ground arith

-- The reversal's amount never fails its own checks.
pub negated-ok : (a : ℤ) → IsAmount a → negated a ≡ ok (neg a)
unfolding negated
negated-ok a h = ground (arith, magnitude-neg a)

pub length-step_key : (key step : Text) → length (step_key key step) ≡ length key + 1 + length step
length-step_key key step = omega (arith, length-append key (step_separator ∷ step))

pub is_derived-step_key : (key step : Text) → is_derived (step_key key step) ≡ true
unfolding is_derived
is_derived-step_key key step =
    ground (arith, contains-append step_separator key (step_separator ∷ step))

-- The separator is no white space, so a step's key is never blank.
is_blank-separator : (key step : Text) → is_blank (step_key key step) ≡ false
unfolding is_space
is_blank-separator key step = is_blank-append_nonspace step_separator key step refl

-- Where the parts hold no separator, a step's key tells its parts.
pub step_key-injective :
    (j k s t : Text)
    → is_derived j ≡ false
    → is_derived k ≡ false
    → step_key j s ≡ step_key k t
    → (j ≡ k) × (s ≡ t)
unfolding is_derived
step_key-injective [] [] s t p q e = ground arith
step_key-injective [] (d ∷ k) s t p q e = ground arith
step_key-injective (c ∷ j) [] s t p q e = ground arith
step_key-injective (c ∷ j) (d ∷ k) s t p q e = ground (arith, step_key-injective j k s t)

-- For a step and a key within their limits, the step's key is the key, the separator and the step.
pub for_step-ok :
    (key step : Text)
    → 0 < length step
    → length step ≤ max_step_length
    → length key ≤ max_base_length
    → for_step key step ≡ ok (step_key key step)
unfolding for_step
for_step-ok key step h k l = ground (arith, length-step_key key step, is_blank-separator key step)

pub IsAmount-neg : (a : ℤ) → IsAmount a → IsAmount (neg a)
IsAmount-neg a h = rw (magnitude-neg a) h

-- The key of a step is a key.
pub IsText-step_key :
    (key step : Text)
    → length step ≤ max_step_length
    → length key ≤ max_base_length
    → IsText key_max_length (step_key key step)
IsText-step_key key step k l =
    (is_blank-separator key step, omega (arith, length-step_key key step))

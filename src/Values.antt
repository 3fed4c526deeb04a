-- ===== src/Values.antt =====
-- The value objects of bounded_contexts/reward_points/domain/value_objects. A value object is
-- modelled by the value that it wraps, and made by a function that checks it (`__post_init__`)
-- and raises `ValueError`.
pub mod Laws
use rewardpointsweb.Base.{
  ℕ, ◌+◌, ◌-◌, ◌++◌, ◌∷◌, [], ltb, ◌==◌, ◌||◌, length, ℤ, magnitude, neg, Text, is_blank, contains,
  Bool,
}
use rewardpointsweb.Failure.{Result, ok, value_error, raise_if, ◌>>=◌, ◌>>◌}

-- The two checks that the text values share, over the class's `MAX_LENGTH`.
unfoldable pub checked_text : ℕ → Text → Result Text
checked_text limit value = do
  raise_if (is_blank value) value_error
  raise_if (ltb limit (length value)) value_error
  ok value

abbrev pub display_name_max_length : ℕ
display_name_max_length = 100

-- `DisplayName(value)`
unfoldable pub display_name : Text → Result Text
unfolding checked_text
display_name value = checked_text display_name_max_length value

abbrev pub family_name_max_length : ℕ
family_name_max_length = 100

-- `FamilyName(value)`
unfoldable pub family_name : Text → Result Text
unfolding checked_text
family_name value = checked_text family_name_max_length value

abbrev pub family_rules_max_length : ℕ
family_rules_max_length = 2000

-- `FamilyRules(value)`
unfoldable pub family_rules : Text → Result Text
unfolding checked_text
family_rules value = checked_text family_rules_max_length value

abbrev pub reason_max_length : ℕ
reason_max_length = 255

-- `TransactionReason(value)`
unfoldable pub transaction_reason : Text → Result Text
unfolding checked_text
transaction_reason value = checked_text reason_max_length value

abbrev pub max_magnitude : ℕ
max_magnitude = 1000000

-- `PointAmount(value)`
unfoldable pub point_amount : ℤ → Result ℤ
point_amount value = do
  raise_if (magnitude value == 0) value_error
  raise_if (ltb max_magnitude (magnitude value)) value_error
  ok value

-- `PointAmount.negated`, which goes through the checks again.
unfoldable pub negated : ℤ → Result ℤ
unfolding point_amount
negated value = point_amount (neg value)

abbrev pub key_max_length : ℕ
key_max_length = 64

-- `STEP_SEPARATOR`, "#"
abbrev pub step_separator : ℕ
step_separator = b'#'

abbrev pub max_step_length : ℕ
max_step_length = 12

abbrev pub max_base_length : ℕ
max_base_length = key_max_length - 1 - max_step_length

-- `IdempotencyKey(value)`
unfoldable pub idempotency_key : Text → Result Text
unfolding checked_text
idempotency_key value = checked_text key_max_length value

-- The text of the key for one step, `f"{self.value}{STEP_SEPARATOR}{step}"`.
abbrev pub step_key : Text → Text → Text
step_key key step = key ++ (step_separator ∷ step)

-- `IdempotencyKey.for_step`
unfoldable pub for_step : Text → Text → Result Text
unfolding idempotency_key
for_step key step = do
  raise_if (length step == 0 || ltb max_step_length (length step)) value_error
  raise_if (ltb max_base_length (length key)) value_error
  idempotency_key (step_key key step)

-- `is_derived`
unfoldable pub is_derived : Text → Bool
is_derived value = contains step_separator value

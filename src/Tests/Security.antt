-- ===== src/Tests/Security.antt =====
-- Sample policies, rows and secrets for the throttle and the second factor.
use rewardpointsweb.Base.{
  strip, ℕ, ◌<◌, ◌≤◌, ◌-◌, ◌*◌, ◌≡◌, ◌≢◌, refl, true, false, Option, none, some, List, [], ◌∷◌,
  Text, text_eq, codes, arith,
}
use rewardpointsweb.Failure.{ok, err, too_many_attempts}
use rewardpointsweb.Security.Throttle.{
  ThrottlePolicy, LoginAttempts, no_attempts, retry_after, after_failure, get, sweep, put, save,
  normalize_identifier, wait_seconds, require_allowed, record_attempt, record_success,
}
use rewardpointsweb.Security.Throttle.Sweep.{
  Request, asks, fails, succeeds, answers, answers_kept, answers-answers_kept,
}
use rewardpointsweb.Security.Throttle.Lock.{
  require_allowed-record_attempt, guessed, guessed_bound, guessed_limit,
}
use rewardpointsweb.Security.Totp.{
  save as save_secret, TotpLibrary, TotpSecret, TotpEnrollmentDto, find_by_user, verify,
  get_two_factor_status, start_totp_enrollment, confirm_totp_enrollment, verify_second_factor,
  confirm,
}
use rewardpointsweb.Security.Totp.Enabled.{
  starts, disables, serve_totp_all, demanded, serve_totp_all-stays, start_totp_enrollment-confirm,
}

-- Three failures within 600 seconds lock for 900.
abbrev policy : ThrottlePolicy
policy = record { max_failures = 3; window = 600000000; lock_duration = 900000000 }

abbrev same_case : Text → Text
same_case s = s

abbrev login : Text
login = codes "login"

abbrev bob : Text
bob = codes "bob"

abbrev traffic : List (ℕ × Request)
traffic =
    (1000000, fails login bob)
    ∷ (2000000, fails login (codes "ann"))
    ∷ (3000000, fails login bob)
    ∷ (4000000, fails login (codes " bob "))
    ∷ (5000000, asks login bob)
    ∷ (700000000, fails login (codes "ann"))
    ∷ (905000000, asks login bob)
    ∷ (906000000, succeeds login bob)
    ∷ []

answers-answers_kept_example :
    answers same_case policy traffic [] ≡ answers_kept same_case policy traffic []
answers-answers_kept_example = answers-answers_kept same_case policy traffic [] refl tt

traffic-answers :
    answers same_case policy traffic []
    ≡ false ∷ false ∷ false ∷ true ∷ true ∷ false ∷ false ∷ false ∷ []
unfolding require_allowed record_attempt record_success normalize_identifier after_failure
    retry_after get save put sweep strip
traffic-answers = refl

abbrev two_failures : List LoginAttempts
two_failures =
    record {
      purpose = login;
      identifier = bob;
      failures = 2;
      window_started_at = some 0;
      locked_until = none;
    }
    ∷ []

locks : (record_attempt same_case policy login bob 5000000 two_failures).0 ≡ true
unfolding record_attempt normalize_identifier after_failure get strip retry_after
locks = refl

same_name : normalize_identifier same_case (codes " bob ") ≡ normalize_identifier same_case bob
unfolding normalize_identifier strip
same_name = refl

require_allowed-record_attempt_example :
    require_allowed same_case policy login
      (codes " bob ")
      6000000
      (record_attempt same_case policy login bob 5000000 two_failures).1
    ≡ err (too_many_attempts 899)
unfolding wait_seconds
require_allowed-record_attempt_example =
    require_allowed-record_attempt same_case policy login bob (codes " bob ") 5000000 6000000
      two_failures locks same_name

-- Two failures within 100 microseconds lock for 30.
abbrev short_lock : ThrottlePolicy
short_lock = record { max_failures = 2; window = 100; lock_duration = 30 }

four_guesses : guessed same_case short_lock login bob (0 ∷ 10 ∷ 40 ∷ 70 ∷ []) [] ≡ true
unfolding require_allowed record_attempt normalize_identifier retry_after get save put sweep
    after_failure strip
four_guesses = refl

fresh_name : get login (normalize_identifier same_case bob) [] ≡ no_attempts login bob
unfolding get normalize_identifier strip
fresh_name = refl

guessed_bound_example : (4 - 2) * 30 < 100
unfolding get
guessed_bound_example =
    guessed_bound same_case short_lock login bob 0 (10 ∷ 40 ∷ 70 ∷ []) [] refl refl
      (
        omega arith,
        (
          omega arith,
          (
            omega arith,
            (omega arith, (omega arith, (omega arith, (omega arith, (omega arith, tt))))),
          ),
        ),
      )
      four_guesses

abbrev long_lock : ThrottlePolicy
long_lock = record { max_failures = 2; window = 100; lock_duration = 100 }

two_guesses : guessed same_case long_lock login bob (0 ∷ 10 ∷ []) [] ≡ true
unfolding require_allowed record_attempt normalize_identifier retry_after get save put sweep
    after_failure strip
two_guesses = refl

third_guess : guessed same_case long_lock login bob (0 ∷ 10 ∷ 99 ∷ []) [] ≡ false
unfolding require_allowed record_attempt normalize_identifier retry_after get save put sweep
    after_failure strip
third_guess = refl

guessed_limit_example : 2 ≤ 2
unfolding get
guessed_limit_example =
    guessed_limit same_case long_lock login bob 0 (10 ∷ []) [] refl (omega arith) refl
      (omega arith, (omega arith, (omega arith, (omega arith, tt)))) two_guesses

-- A library for which the code of a secret is its first six characters.
abbrev sample_library : TotpLibrary
sample_library = record {
  verifies = λ secret code now. text_eq secret code;
  uri = λ secret name. secret;
  is_digit = λ c. true;
}

abbrev enabled_secret : TotpSecret
enabled_secret = record { user_id = 1; secret = codes "123456"; confirmed_at = some 10 }

serve_totp_all-stays_example :
    find_by_user 1 (
      serve_totp_all sample_library
        (starts 2 (codes "ann") (codes "222222")
          ∷ disables 1 (codes "000000") 20
          ∷ starts 1 bob (codes "3")
          ∷ [])
        (enabled_secret ∷ []))
    ≡ some enabled_secret
unfolding find_by_user verify strip
serve_totp_all-stays_example =
    serve_totp_all-stays sample_library 1 enabled_secret
      (starts 2 (codes "ann") (codes "222222")
        ∷ disables 1 (codes "000000") 20
        ∷ starts 1 bob (codes "3")
        ∷ [])
      (enabled_secret ∷ []) refl refl refl

abbrev bobs_enrollment : TotpEnrollmentDto
bobs_enrollment = record { secret = codes "3333"; otpauth_uri = codes "3333" }

abbrev bobs_secret : Option ℕ → TotpSecret
bobs_secret confirmed_at = record {
  user_id = 2;
  secret = codes "3333";
  confirmed_at = confirmed_at;
}

bob_starts :
    start_totp_enrollment sample_library 2 bob (codes "3333") (enabled_secret ∷ [])
    ≡ ok (bobs_enrollment, enabled_secret ∷ bobs_secret none ∷ [])
unfolding start_totp_enrollment find_by_user save_secret
bob_starts = refl

bob_confirms :
    confirm_totp_enrollment sample_library 2
      (codes " 33 33")
      30
      (enabled_secret ∷ bobs_secret none ∷ [])
    ≡ ok (enabled_secret ∷ bobs_secret (some 30) ∷ [])
unfolding confirm_totp_enrollment confirm verify strip
bob_confirms = refl

start_totp_enrollment-confirm_example :
    (verify sample_library (codes "3333") (codes " 33 33") 30 ≡ true)
    × (get_two_factor_status 2 (enabled_secret ∷ bobs_secret (some 30) ∷ [])
        ≡ record { enabled = true; enrolling = false })
    × ((sent : Option Text) (later : ℕ)
        → (verify_second_factor sample_library 2 sent later (enabled_secret ∷ bobs_secret none ∷ [])
            ≡ ok tt)
          × (verify_second_factor sample_library 2 sent later
                (enabled_secret ∷ bobs_secret (some 30) ∷ [])
              ≡ demanded sample_library (codes "3333") sent later)
          × ((v : ℕ)
              → v ≢ 2
              → verify_second_factor sample_library v sent later
                  (enabled_secret ∷ bobs_secret (some 30) ∷ [])
                ≡ verify_second_factor sample_library v sent later (enabled_secret ∷ [])))
start_totp_enrollment-confirm_example =
    start_totp_enrollment-confirm sample_library 2 bob (codes "3333") bobs_enrollment
      (codes " 33 33") 30 (enabled_secret ∷ []) (enabled_secret ∷ bobs_secret none ∷ [])
      (enabled_secret ∷ bobs_secret (some 30) ∷ []) bob_starts bob_confirms

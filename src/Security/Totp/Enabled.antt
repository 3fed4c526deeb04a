-- ===== src/Security/Totp/Enabled.antt =====
-- An enabled second factor stays until its owner takes it off with a valid code; one that is
-- being set up never locks its owner out.
use rewardpointsweb.Base.{
  ℕ, ◌≡◌, ◌≢◌, inl, inr, refl, Bool, true, false, ◌&&◌, not, ◌==◌, if◌then◌else◌, Option, none,
  some, List, [], ◌∷◌, Text, Option-cases, arith,
}
use rewardpointsweb.Failure.{Result, ok, err, ◌>>=◌, raise_if, totp_required, invalid_totp_code}
use rewardpointsweb.Security.Totp.{
  TotpLibrary, TotpSecret, is_confirmed, verify, find_by_user, save, confirmed, confirm, delete,
  get_two_factor_status, TotpEnrollmentDto, start_totp_enrollment, confirm_totp_enrollment,
  disable_totp, verify_second_factor, is_missing, verify_sent,
}

-- What an account asks for, and when.
pub data TotpRequest : Type 0 where
  starts : (user_id : ℕ) (account_name secret : Text) → TotpRequest
  confirms : (user_id : ℕ) (code : Text) (now : ℕ) → TotpRequest
  disables : (user_id : ℕ) (code : Text) (now : ℕ) → TotpRequest

-- The table after a request; one that fails is rolled back.
abbrev pub kept_or : Result (List TotpSecret) → List TotpSecret → List TotpSecret
kept_or (ok rows) before = rows
kept_or (err e) before = before

abbrev pub serve_totp : TotpLibrary → TotpRequest → List TotpSecret → List TotpSecret
serve_totp lib (starts u name secret) rows =
    kept_or (do (dto, after) ← start_totp_enrollment lib u name secret rows; ok after) rows
serve_totp lib (confirms u code now) rows =
    kept_or (confirm_totp_enrollment lib u code now rows) rows
serve_totp lib (disables u code now) rows = kept_or (disable_totp lib u code now rows) rows

pub find_by_user-save :
    (u : ℕ) (s : TotpSecret) (rows : List TotpSecret)
    → find_by_user u (save s rows) ≡ (if s.user_id == u then some s else find_by_user u rows)
unfolding find_by_user save
find_by_user-save u s [] = refl
find_by_user-save u s (x ∷ rows) = ground (arith, find_by_user-save u s rows)

pub find_by_user-delete :
    (u v : ℕ) (rows : List TotpSecret)
    → find_by_user u (delete v rows) ≡ (if v == u then none else find_by_user u rows)
unfolding find_by_user delete
find_by_user-delete u v [] = ground arith
find_by_user-delete u v (x ∷ rows) = ground (arith, find_by_user-delete u v rows)

find_by_user-owner :
    (u : ℕ) (s : TotpSecret) (rows : List TotpSecret) → find_by_user u rows ≡ some s → s.user_id ≡ u
unfolding find_by_user
find_by_user-owner u s [] h = cc
find_by_user-owner u s (x ∷ rows) h = ground (arith, find_by_user-owner u s rows)

-- What takes the second factor with this secret off.
abbrev pub takes_off : TotpLibrary → ℕ → TotpSecret → TotpRequest → Bool
takes_off lib u s (disables v code now) = (v == u) && verify lib s.secret code now
takes_off lib u s (starts v name secret) = false
takes_off lib u s (confirms v code now) = false

abbrev pub any_takes_off : TotpLibrary → ℕ → TotpSecret → List TotpRequest → Bool
any_takes_off lib u s [] = false
any_takes_off lib u s (r ∷ rest) = if takes_off lib u s r then true else any_takes_off lib u s rest

abbrev pub serve_totp_all : TotpLibrary → List TotpRequest → List TotpSecret → List TotpSecret
serve_totp_all lib [] rows = rows
serve_totp_all lib (r ∷ rest) rows = serve_totp_all lib rest (serve_totp lib r rows)

serve_totp-stays :
    (lib : TotpLibrary) (u : ℕ) (s : TotpSecret) (r : TotpRequest) (rows : List TotpSecret)
    → find_by_user u rows ≡ some s
    → is_confirmed s ≡ true
    → takes_off lib u s r ≡ false
    → find_by_user u (serve_totp lib r rows) ≡ some s
unfolding start_totp_enrollment confirm_totp_enrollment disable_totp confirm
serve_totp-stays lib u s (starts v name secret) rows h c n =
    let new : TotpSecret = record { user_id = v; secret = secret; confirmed_at = none } in
    ground (arith, find_by_user-save u new rows)
serve_totp-stays lib u s (confirms v code now) rows h c n =
    elim (Option-cases (find_by_user v rows)) [
      | inl missing ↦ ground arith
      | inr (x, found) ↦
          ground (arith, find_by_user-owner v x rows, find_by_user-save u (confirmed x now) rows)
    ]
serve_totp-stays lib u s (disables v code now) rows h c n =
    elim (Option-cases (find_by_user v rows)) [
      | inl missing ↦ ground arith
      | inr (x, found) ↦ ground (arith, find_by_user-delete u v rows)
    ]

-- An enabled second factor, its secret included, is the same after any requests of any accounts
-- among which its owner does not take it off with a code that is valid at that time.
pub serve_totp_all-stays :
    (lib : TotpLibrary) (u : ℕ) (s : TotpSecret) (requests : List TotpRequest)
    (rows : List TotpSecret)
    → find_by_user u rows ≡ some s
    → is_confirmed s ≡ true
    → any_takes_off lib u s requests ≡ false
    → find_by_user u (serve_totp_all lib requests rows) ≡ some s
serve_totp_all-stays lib u s [] rows h c n = h
serve_totp_all-stays lib u s (r ∷ rest) rows h c n =
    serve_totp_all-stays lib u s rest (serve_totp lib r rows)
      (serve_totp-stays lib u s r rows h c (ground arith)) c (ground arith)

-- What the two steps of the set-up write.
start_totp_enrollment-finds :
    (lib : TotpLibrary) (u : ℕ) (name secret : Text) (dto : TotpEnrollmentDto)
    (rows started : List TotpSecret)
    → start_totp_enrollment lib u name secret rows ≡ ok (dto, started)
    → (v : ℕ)
    → find_by_user v started ≡ (
        if u == v
        then some (record { user_id = u; secret = dto.secret; confirmed_at = none })
        else find_by_user v rows)
unfolding start_totp_enrollment
start_totp_enrollment-finds lib u name secret dto rows started h v =
    let new : TotpSecret = record { user_id = u; secret = secret; confirmed_at = none } in
    ground (arith, find_by_user-save v new rows)

confirm_totp_enrollment-finds :
    (lib : TotpLibrary) (u : ℕ) (s : TotpSecret) (code : Text) (now : ℕ)
    (rows enabled : List TotpSecret)
    → find_by_user u rows ≡ some s
    → confirm_totp_enrollment lib u code now rows ≡ ok enabled
    → (verify lib s.secret code now ≡ true)
      × ((v : ℕ)
          → find_by_user v enabled
            ≡ (if u == v then some (confirmed s now) else find_by_user v rows))
unfolding confirm_totp_enrollment confirm
confirm_totp_enrollment-finds lib u s code now rows enabled found h =
    let owner = find_by_user-owner u s rows found in
    (ground arith, λ v. ground (arith, find_by_user-save v (confirmed s now) rows))

-- What a login asks for.
abbrev pub demanded : TotpLibrary → Text → Option Text → ℕ → Result (Unit {0})
demanded lib secret code now =
    if is_missing code
    then err totp_required
    else raise_if (not (verify_sent lib secret code now)) invalid_totp_code

-- A secret that was started and not confirmed asks for nothing at a login. Once its owner has
-- confirmed it, which takes a valid code, the status is enabled and a login needs a valid code of
-- that secret; and the logins of other accounts need what they needed before.
pub start_totp_enrollment-confirm :
    (lib : TotpLibrary) (u : ℕ) (name secret : Text) (dto : TotpEnrollmentDto) (code : Text)
    (now : ℕ) (rows started enabled : List TotpSecret)
    → start_totp_enrollment lib u name secret rows ≡ ok (dto, started)
    → confirm_totp_enrollment lib u code now started ≡ ok enabled
    → (verify lib dto.secret code now ≡ true)
      × (get_two_factor_status u enabled ≡ record { enabled = true; enrolling = false })
      × ((sent : Option Text) (later : ℕ)
          → (verify_second_factor lib u sent later started ≡ ok tt)
            × (verify_second_factor lib u sent later enabled ≡ demanded lib dto.secret sent later)
            × ((v : ℕ)
                → v ≢ u
                → verify_second_factor lib v sent later enabled
                  ≡ verify_second_factor lib v sent later rows))
unfolding verify_second_factor get_two_factor_status
start_totp_enrollment-confirm lib u name secret dto code now rows started enabled h k =
    let first_step = start_totp_enrollment-finds lib u name secret dto rows started h in
    let new : TotpSecret = record { user_id = u; secret = dto.secret; confirmed_at = none } in
    let (valid, second_step) =
      confirm_totp_enrollment-finds lib u new code now started enabled
        (ground (arith, first_step u)) k in
    (
      valid,
      ground (arith, second_step u),
      λ sent later. (
        ground (arith, first_step u),
        ground (arith, second_step u),
        λ v other. ground (arith, first_step v, second_step v),
      ),
    )

-- ===== src/Tests/Displays.antt =====
-- Pairing a display, with codes that hash to themselves.
use rewardpointsweb.Base.{ℕ, ◌≡◌, ◌↔◌, refl, true, some, List, [], ◌∷◌, map, Text, codes, arith}
use rewardpointsweb.Failure.{Result, ok, err, expired_token, authorization_pending}
use rewardpointsweb.Displays.{
  mark_claimed, find_by_device_code, find_by_user_code, add, replace, delete_expired_before,
  mark_approved, is_user_code_in_use, Codes, Displays, normalize_user_code,
}
use rewardpointsweb.Displays.Code.{
  IsAsciiAware, ascii_upper, ascii_alnum, is_user_code, spells, normalize_user_code-spells,
}
use rewardpointsweb.Displays.Pair.{
  approvable, StartedPairing, start_pairing, approve_pairing, claim_pairing,
}
use rewardpointsweb.Displays.Runs.{DisplayRequest, starts, approves, opens, removes, serve_displays}
use rewardpointsweb.Displays.Once.{no_displays, claim_pairing-once}
use rewardpointsweb.Displays.Opened.{pair_and_open, pair_and_open-account}

abbrev ascii_codes : Codes
ascii_codes = record { upper = map ascii_upper; isalnum = ascii_alnum; sha256 = λ s. s }

ascii_codes-IsAsciiAware : IsAsciiAware ascii_codes
ascii_codes-IsAsciiAware = record { upper = λ s h. refl; isalnum = λ c h. refl }

abbrev shown_code : Text
shown_code = codes "KQ7M3XPA"

normalize_user_code-spells_example :
    (normalize_user_code ascii_codes (codes "kq7m 3xpa") ≡ some shown_code)
    ↔ ((is_user_code shown_code ≡ true) × (spells (codes "kq7m 3xpa") shown_code ≡ true))
normalize_user_code-spells_example =
    normalize_user_code-spells ascii_codes ascii_codes-IsAsciiAware (codes "kq7m 3xpa") shown_code
      refl

abbrev draw : ℕ → Text
draw k = shown_code

abbrev secret : Text
secret = codes "device"

abbrev credential : Text
credential = codes "credential"

-- What a display gets when it starts.
abbrev first_start : Result (StartedPairing × Displays)
first_start = start_pairing ascii_codes draw secret 5000000 no_displays

abbrev started_or : Result (StartedPairing × Displays) → StartedPairing × Displays
started_or (ok (s, db)) = (s, db)
started_or (err e) =
    (record { user_code = []; device_code = []; expires_in = 0; interval = 0 }, no_displays)

starts_well : first_start ≡ ok ((started_or first_start).0, (started_or first_start).1)
unfolding start_pairing is_user_code_in_use find_by_user_code delete_expired_before add
starts_well = refl

abbrev enroll_ninth : Unit {0} → Result (ℕ × Unit {0})
enroll_ninth state = ok (9, state)

pair_and_open-account_example :
    pair_and_open ascii_codes draw secret credential enroll_ninth 5000000 6000000 7000000 8000000 tt
      no_displays
    ≡ ok 9
pair_and_open-account_example =
    pair_and_open-account ascii_codes ascii_codes-IsAsciiAware draw secret credential enroll_ninth
      5000000 6000000 7000000 8000000 tt tt 9 no_displays (started_or first_start).1
      (started_or first_start).0 (λ k. refl) starts_well refl refl (omega arith) (omega arith)
      (omega arith)

abbrev approved : List DisplayRequest
approved = starts draw secret 5000000 ∷ approves (codes "kq7m-3xpa") (ok 9) 6000000 6000000 ∷ []

abbrev claim_of : Text → ℕ → Displays → Result (Text × Displays)
claim_of given now db = claim_pairing ascii_codes secret given now db

abbrev claimed_or : Result (Text × Displays) → Displays
claimed_or (ok (given, db)) = db
claimed_or (err e) = no_displays

abbrev first_claim : Result (Text × Displays)
first_claim = claim_of credential 7000000 (serve_displays ascii_codes approved no_displays)

claims_well : first_claim ≡ ok (credential, claimed_or first_claim)
unfolding claim_pairing start_pairing approve_pairing find_by_device_code approvable
    normalize_user_code find_by_user_code is_user_code_in_use delete_expired_before add
    mark_approved replace mark_claimed
claims_well = refl

claim_pairing-once_example :
    claim_of (codes "other") 9000000 (
      serve_displays ascii_codes
        (opens credential 8000000 ∷ removes 8 ∷ [])
        (claimed_or first_claim))
    ≡ err expired_token
claim_pairing-once_example =
    claim_pairing-once ascii_codes approved (opens credential 8000000 ∷ removes 8 ∷ []) secret
      credential credential (codes "other") 7000000 9000000 (claimed_or first_claim) claims_well
      refl

-- A claim that comes before the approval has to wait.
claims_early :
    claim_of credential 7000000
      (serve_displays ascii_codes (starts draw secret 5000000 ∷ []) no_displays)
    ≡ err authorization_pending
unfolding claim_pairing start_pairing find_by_device_code is_user_code_in_use find_by_user_code
    delete_expired_before add
claims_early = refl

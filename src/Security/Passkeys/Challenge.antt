-- ===== src/Security/Passkeys/Challenge.antt =====
-- About issuing and consuming challenges (sql_webauthn_challenge_repository.py).
use rewardpointsweb.Base.{
  ℕ, ◌<◌, ◌≡◌, refl, subst, true, false, not, ltb, leb, none, some, List, [], ◌∷◌, first,
  delete_where, Text, text_eq, text_eq_refl, arith,
}
use rewardpointsweb.Failure.{
  ok, err, or_raise, succeeds-steps, raise_if-passes, challenge_not_found,
}
use rewardpointsweb.Security.Passkeys.{
  Purpose, registration, authentication, same_purpose, WebAuthnChallenge, issue_challenge,
  consume_challenge,
}

-- What is left after a challenge was consumed.
pub consumed-gone :
    (challenge_id : Text) (rows : List WebAuthnChallenge)
    → first
        (λ x. text_eq x.challenge_id challenge_id)
        (delete_where (λ x. text_eq x.challenge_id challenge_id) rows)
      ≡ none
consumed-gone challenge_id [] = refl
consumed-gone challenge_id (x ∷ rows) = ground (arith, consumed-gone challenge_id rows)

same_purpose-eq : (p q : Purpose) → same_purpose p q ≡ true → p ≡ q
same_purpose-eq registration registration h = refl
same_purpose-eq authentication authentication h = refl
same_purpose-eq registration authentication h = cc
same_purpose-eq authentication registration h = cc

-- What a consumed challenge was.
pub record WasOpen (challenge_id : Text) (purpose : Purpose) (now : ℕ)
    (rows : List WebAuthnChallenge) (c : WebAuthnChallenge) : Type 0 where
  pub there : first (λ x. text_eq x.challenge_id challenge_id) rows ≡ some c
  pub fits : c.purpose ≡ purpose
  pub live : now < c.expires_at

pub consume_challenge-takes :
    (challenge_id : Text) (purpose : Purpose) (now : ℕ) (rows rest : List WebAuthnChallenge)
    (c : WebAuthnChallenge)
    → consume_challenge challenge_id purpose now rows ≡ ok (c, rest)
    → (rest ≡ delete_where (λ x. text_eq x.challenge_id challenge_id) rows)
      × WasOpen challenge_id purpose now rows c
unfolding consume_challenge
consume_challenge-takes challenge_id purpose now rows rest c h =
    let (x, h1, found) =
      succeeds-steps _
        (or_raise (first (λ x. text_eq x.challenge_id challenge_id) rows) challenge_not_found) h in
    let (h2, fits) =
      raise_if-passes (not (same_purpose x.purpose purpose)) challenge_not_found _ h1 in
    let (h3, live) = raise_if-passes (leb x.expires_at now) challenge_not_found _ h2 in
    let same : x ≡ c = ground arith in
    (
      ground arith,
      subst (WasOpen challenge_id purpose now rows) same (record {
        there = ground arith;
        fits = same_purpose-eq x.purpose purpose (ground arith);
        live = ground arith;
      }),
    )

-- A challenge that was issued for one purpose is not consumed for the other.
pub issued-unfit :
    (c : WebAuthnChallenge) (purpose : Purpose) (now later : ℕ) (rows rest : List WebAuthnChallenge)
    → issue_challenge c now rows ≡ ok rest
    → same_purpose c.purpose purpose ≡ false
    → consume_challenge c.challenge_id purpose later rest ≡ err challenge_not_found
unfolding issue_challenge consume_challenge
issued-unfit c purpose now later rows rest issued unfit =
    let written : rest ≡ c ∷ delete_where (λ x. ltb x.expires_at now) rows = ground arith in
    rw written (rw (text_eq_refl c.challenge_id) (rw unfit refl))

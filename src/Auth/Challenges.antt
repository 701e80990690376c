-- ===== src/Auth/Challenges.antt =====
-- What an accepted MFA answer shows, and how often an answer is accepted (auth_service.go, VerifyMFA).
use bonipam.Common.{
  String, ◌≡◌, refl, false, true, Bool, none, some, ◌==◌, ◌&&◌, ◌||◌, not, eq_iff, eq_refl, ok,
  Option-cases, Result-cases, Bool-cases, inl, inr, arith, ◌↔◌, ◌≢◌, is_some, is_ok,
}
use bonipam.Go.Map.{get, get-delete}
use bonipam.Go.Text.{to_lower}
use bonipam.Go.Time.{Time, after}
use bonipam.Auth.Types.{
  AuthService, AuthSession, MfaVerifyRequest, Crypto, Draws, MfaChallenge, Claims,
}
use bonipam.Auth.Mfa.{verify_mfa, check_mfa, accept_mfa, refuses, drop_challenge}
use bonipam.Auth.Tokens.{issue_session, store_session, session_claims}

-- The answer gives the secret of its method.
unfoldable pub gives_secret : MfaVerifyRequest → MfaChallenge → Bool
gives_secret req challenge =
    (challenge.method == "totp" && not (req.code == "") && req.code == challenge.code)
    || (challenge.method == "webauthn"
        && not (req.assertion == "")
        && req.assertion == challenge.webauthn_challenge)

refuses-none :
    (req : MfaVerifyRequest) (challenge : MfaChallenge)
    → challenge.method ≡ to_lower req.method
    → (refuses req challenge ≡ none) ↔ (gives_secret req challenge ≡ true)
unfolding refuses gives_secret
refuses-none req challenge same = elim (Bool-cases (to_lower req.method == "totp")) [
  | inl totp ↦
      let other : (to_lower req.method == "webauthn") ≡ false =
        rw ((eq_iff (to_lower req.method) "totp").0 totp) refl in
      (λ h. ground (arith, same, h, totp, other), λ h. ground (arith, same, h, totp, other))
  | inr other ↦ (λ h. ground (arith, same, h, other), λ h. ground (arith, same, h, other))
]

-- VerifyMFA's check accepts an answer exactly if the request names a challenge that is stored, in the
-- challenge's method up to case, the challenge has not expired, and the answer is its secret, which
-- is not empty. It then gives that challenge.
check_mfa-ok_iff :
    (s : AuthService) (req : MfaVerifyRequest) (now : Time) (challenge : MfaChallenge)
    → get s.challenges req.challenge_id ≡ some challenge
    → (check_mfa s req now).0 ≡ ok challenge ↔ (
        (not (req.challenge_id == "")
          && not (req.method == "")
          && challenge.method == to_lower req.method
          && not (after now challenge.expires_at)
          && gives_secret req challenge)
        ≡ true)
unfolding check_mfa
check_mfa-ok_iff s req now challenge at =
    elim (Bool-cases (challenge.method == to_lower req.method)) [
      | inr other ↦ (λ accepted. ground (arith, at, accepted), λ good. ground (arith, at, good))
      | inl same ↦
          let iff =
            refuses-none req challenge ((eq_iff challenge.method (to_lower req.method)).0 same) in
          elim (Option-cases (refuses req challenge)) [
            | inl accepts ↦ (
              λ accepted. ground (arith, at, accepted, iff),
              λ good. ground (arith, at, good, accepts),
            )
            | inr (e, refused) ↦ (
              λ accepted. ground (arith, at, accepted, refused),
              λ good. ground (arith, at, good, iff, refused),
            )
          ]
    ]

-- What issuing a session leaves of the challenges.
challenges-issue_session :
    (crypto : Crypto) (s : AuthService) (user_id : String) (draws : Draws)
    → (issue_session crypto s user_id draws).1.challenges ≡ s.challenges
unfolding issue_session store_session
challenges-issue_session crypto s user_id draws = ground arith

pub user_id-issue_session :
    (crypto : Crypto) (s : AuthService) (user_id : String) (draws : Draws) (session : AuthSession)
    → (issue_session crypto s user_id draws).0 ≡ ok session
    → session.user_id ≡ user_id
unfolding issue_session store_session
user_id-issue_session crypto s user_id draws session h = ground arith

get-accept_mfa :
    (crypto : Crypto) (s : AuthService) (challenge_id : String) (challenge : MfaChallenge)
    (draws : Draws)
    → get (accept_mfa crypto s challenge_id challenge draws).1.challenges challenge_id ≡ none
unfolding accept_mfa drop_challenge
get-accept_mfa crypto s challenge_id challenge draws = ground (
  arith,
  challenges-issue_session crypto (drop_challenge s challenge_id) challenge.user_id draws,
  get-delete s.challenges challenge_id challenge_id,
  eq_refl challenge_id,
)

check_mfa-missing :
    (s : AuthService) (req : MfaVerifyRequest) (now : Time) (challenge_id : String)
    (found : MfaChallenge)
    → get s.challenges challenge_id ≡ none
    → req.challenge_id ≡ challenge_id
    → (check_mfa s req now).0 ≢ ok found
unfolding check_mfa
check_mfa-missing s req now challenge_id found missing same accepted =
    ground (arith, same, missing, accepted)

-- If VerifyMFA gives a session, then its check accepts the answer to a challenge, the session is that
-- of the challenge's user, and no call on the service that is left accepts an answer to a challenge
-- of that id.
pub verify_mfa-once :
    (crypto : Crypto) (s : AuthService) (req : MfaVerifyRequest) (now : Time) (draws : Draws)
    (session : AuthSession)
    → (verify_mfa crypto s req now draws).0 ≡ ok session
    → ((challenge : MfaChallenge) × ((check_mfa s req now).0 ≡ ok challenge)
        × (session.user_id ≡ challenge.user_id))
      × ((again : MfaVerifyRequest) (later : Time) (found : MfaChallenge)
          → again.challenge_id ≡ req.challenge_id
          → (check_mfa (verify_mfa crypto s req now draws).1 again later).0 ≢ ok found)
unfolding verify_mfa accept_mfa
verify_mfa-once crypto s req now draws session h = elim (Result-cases (check_mfa s req now).0) [
  | inr (e, refused) ↦ absurd (cc (rw (refused, verify_mfa) at h))
  | inl (challenge, accepted) ↦ (
    (
      challenge,
      accepted,
      user_id-issue_session crypto (drop_challenge (check_mfa s req now).1 req.challenge_id)
          challenge.user_id draws session (rw (accepted, verify_mfa, accept_mfa) at h),
    ),
    λ again later found same.
        check_mfa-missing (verify_mfa crypto s req now draws).1 again later req.challenge_id found
          (rw (accepted, verify_mfa)
            (get-accept_mfa crypto (check_mfa s req now).1 req.challenge_id challenge draws))
          same,
  )
]

issue_session-is_ok :
    (crypto : Crypto) (s : AuthService) (user_id : String) (draws : Draws) (token : String)
    → ((claims : Claims) (key : String) → is_some (crypto.sign_hs256 claims key) ≡ true)
    → draws.refresh_token ≡ some token
    → is_ok (issue_session crypto s user_id draws).0 ≡ true
unfolding issue_session
issue_session-is_ok crypto s user_id draws token signs drawn =
    ground
      (arith, drawn, signs (session_claims s.token_config user_id draws) s.token_config.signing_key)

check_mfa-keeps :
    (s : AuthService) (req : MfaVerifyRequest) (now : Time) (challenge : MfaChallenge)
    → (check_mfa s req now).0 ≡ ok challenge
    → (check_mfa s req now).1 ≡ s
unfolding check_mfa
check_mfa-keeps s req now challenge accepted =
    elim (Option-cases (get s.challenges req.challenge_id)) [
      | inl missing ↦ ground arith
      | inr (found, at) ↦ ground arith
    ]

-- If VerifyMFA's check accepts an answer, then a second call with the same answer, checked at the same
-- time and before the first call's acceptance, is accepted too, and both calls issue a session, if
-- signing and the random generator succeed.
pub accept_mfa-twice :
    (crypto : Crypto) (s : AuthService) (req : MfaVerifyRequest) (now : Time)
    (challenge : MfaChallenge) (draws draws' : Draws) (token token' : String)
    → ((claims : Claims) (key : String) → is_some (crypto.sign_hs256 claims key) ≡ true)
    → draws.refresh_token ≡ some token
    → draws'.refresh_token ≡ some token'
    → (check_mfa s req now).0 ≡ ok challenge
    → let second = check_mfa (check_mfa s req now).1 req now in
      let first_session = accept_mfa crypto second.1 req.challenge_id challenge draws in
      let second_session = accept_mfa crypto first_session.1 req.challenge_id challenge draws' in
      (second.0 ≡ ok challenge) × (is_ok first_session.0 ≡ true) × (is_ok second_session.0 ≡ true)
unfolding accept_mfa
accept_mfa-twice crypto s req now challenge draws draws' token token' signs drawn drawn' accepted =
    (
      rw (check_mfa-keeps s req now challenge accepted) accepted,
      issue_session-is_ok crypto _ challenge.user_id draws token signs drawn,
      issue_session-is_ok crypto _ challenge.user_id draws' token' signs drawn',
    )

-- ===== src/Auth/Mfa.antt =====
-- MFA challenges (auth_service.go): CreateMFAChallenge and VerifyMFA.
use Prim.Native.String.{◌++◌ as append}
use bonipam.Common.{String, ◌||◌, ◌&&◌, not, Option, none, some, ◌==◌, if◌then◌else◌, ok, err}
use bonipam.Common.Int.{pos, seconds}
use bonipam.Go.Map.{get, put, delete}
use bonipam.Go.Text.{to_lower}
use bonipam.Go.Time.{Time, after, add}
use bonipam.Auth.Types.{
  MfaChallenge, AuthService, AuthSession, MfaChallengeRequest, MfaChallengeResponse,
  MfaVerifyRequest, AuthError, invalid_mfa_challenge_payload, invalid_mfa_payload,
  unsupported_mfa_method, totp_generation_failed, webauthn_generation_failed,
  invalid_or_expired_challenge, mfa_method_mismatch, challenge_expired, invalid_totp_code,
  invalid_webauthn_assertion, Crypto, Draws,
}
use bonipam.Auth.Tokens.{Outcome, issue_session}

-- The challenge and the response before a method adds its secret.
unfoldable pub new_challenge : String → String → String → Time → MfaChallenge
new_challenge challenge_id user_id method expires_at = record {
  challenge_id = challenge_id;
  user_id = user_id;
  method = method;
  code = "";
  webauthn_challenge = "";
  expires_at = expires_at;
}

unfoldable pub new_challenge_response : String → String → Time → MfaChallengeResponse
new_challenge_response challenge_id method expires_at = record {
  challenge_id = challenge_id;
  method = method;
  expires_at = expires_at;
  webauthn_challenge = "";
  test_code = "";
}

unfoldable pub store_challenge : AuthService → MfaChallenge → AuthService
store_challenge s challenge = record s {
  challenges = put s.challenges challenge.challenge_id challenge;
}

-- `digits` is what randomDigits(6) returns, `token` what randomToken(32) returns; `none` is an error.
unfoldable pub create_mfa_challenge :
    AuthService
    → MfaChallengeRequest
    → String
    → Time
    → Option String
    → Option String
    → Outcome MfaChallengeResponse
create_mfa_challenge s req id now digits token =
    if req.user_id == "" || req.method == ""
    then (err invalid_mfa_challenge_payload, s)
    else let method = to_lower req.method in
      if not (method == "totp") && not (method == "webauthn")
      then (err (unsupported_mfa_method req.method), s)
      else let challenge_id = append "mfa-" id in
        let expires_at = add now (seconds (pos 300)) in
        let challenge = new_challenge challenge_id req.user_id method expires_at in
        let response = new_challenge_response challenge_id method expires_at in
        if method == "totp"
        then elim digits [
          | none ↦ (err totp_generation_failed, s)
          | some code ↦ (
            ok (record response { test_code = code }),
            store_challenge s (record challenge { code = code }),
          )
        ]
        else elim token [
          | none ↦ (err webauthn_generation_failed, s)
          | some secret ↦ (
            ok (record response { webauthn_challenge = secret }),
            store_challenge s (record challenge { webauthn_challenge = secret }),
          )
        ]

-- The switch of VerifyMFA: the error, if the answer is refused.
unfoldable pub refuses : MfaVerifyRequest → MfaChallenge → Option AuthError
refuses req challenge =
    let method = to_lower req.method in
    if method == "totp"
    then if req.code == "" || not (req.code == challenge.code) then some invalid_totp_code else none
    else if method == "webauthn"
    then if req.assertion == "" || not (req.assertion == challenge.webauthn_challenge)
      then some invalid_webauthn_assertion
      else none
    else some (unsupported_mfa_method req.method)

unfoldable pub drop_challenge : AuthService → String → AuthService
drop_challenge s challenge_id = record s { challenges = delete s.challenges challenge_id }

-- VerifyMFA up to the point where an answer is accepted: the lookup under the read lock, the checks,
-- and the removal of an expired challenge. The result is the challenge whose answer was accepted.
unfoldable pub check_mfa : AuthService → MfaVerifyRequest → Time → Outcome MfaChallenge
check_mfa s req now =
    if req.challenge_id == "" || req.method == ""
    then (err invalid_mfa_payload, s)
    else elim (get s.challenges req.challenge_id) [
      | none ↦ (err invalid_or_expired_challenge, s)
      | some challenge ↦
          if not (challenge.method == to_lower req.method)
          then (err mfa_method_mismatch, s)
          else if after now challenge.expires_at
          then (err challenge_expired, drop_challenge s req.challenge_id)
          else elim (refuses req challenge) [ some e ↦ (err e, s) | none ↦ (ok challenge, s) ]
    ]

-- The rest of VerifyMFA, which takes the lock again.
unfoldable pub accept_mfa :
    Crypto → AuthService → String → MfaChallenge → Draws → Outcome AuthSession
accept_mfa crypto s challenge_id challenge draws =
    issue_session crypto (drop_challenge s challenge_id) challenge.user_id draws

unfoldable pub verify_mfa :
    Crypto → AuthService → MfaVerifyRequest → Time → Draws → Outcome AuthSession
verify_mfa crypto s req now draws =
    let (checked, s') = check_mfa s req now in
    elim checked [
      | err e ↦ (err e, s')
      | ok challenge ↦ accept_mfa crypto s' req.challenge_id challenge draws
    ]

-- ===== src/Examples/Challenges.antt =====
-- An MFA challenge (backend/internal/service/auth_service.go), and what the theorems say of it.
use bonipam.Common.{
  String, Bool, ◌≡◌, ◌≢◌, ◌↔◌, refl, true, false, ◌&&◌, ◌||◌, not, Option, none, some, List, [],
  ◌∷◌, ok, err, ◌==◌, is_some, is_ok, arith, ap, Bool-cases, inl, inr, eq_iff, if◌then◌else◌,
}
use bonipam.Common.Int.{pos}
use bonipam.Go.Map.{get}
use bonipam.Go.Text.{to_lower}
use bonipam.Go.Time.{Time}
use bonipam.Auth.Types.{MfaChallenge, MfaVerifyRequest}
use bonipam.Auth.Tokens.{refresh_token, revoke_sessions, new_refresh_record}
use bonipam.Auth.Mfa.{check_mfa, verify_mfa, accept_mfa}
use bonipam.Auth.Challenges.{verify_mfa-once, accept_mfa-twice}
use bonipam.Examples.Auth.{crypto, totp_challenge, signed_in, draws, next_draws}

abbrev answer : MfaVerifyRequest
answer = record { challenge_id = "mfa-1"; method = "TOTP"; code = "123456"; assertion = "" }

verify_mfa-once_example :
    ((challenge : MfaChallenge) × ((check_mfa signed_in answer (pos 200)).0 ≡ ok challenge)
      × ("usr-2" ≡ challenge.user_id))
    × ((again : MfaVerifyRequest) (later : Time) (found : MfaChallenge)
        → again.challenge_id ≡ "mfa-1"
        → (check_mfa (verify_mfa crypto signed_in answer (pos 200) draws).1 again later).0
          ≢ ok found)
unfolding verify_mfa check_mfa get to_lower bonipam.Auth.Mfa.refuses accept_mfa
    bonipam.Auth.Tokens.issue_session bonipam.Auth.Tokens.session_claims bonipam.Common.Int.◌+ℤ◌
    bonipam.Auth.Mfa.drop_challenge
verify_mfa-once_example =
    verify_mfa-once crypto signed_in answer (pos 200) draws
      (record {
        user_id = "usr-2";
        access_token = "s2";
        refresh_token = "fresh";
        expires_at = pos 1000;
      })
      refl

accept_mfa-twice_example :
    ((check_mfa (check_mfa signed_in answer (pos 200)).1 answer (pos 200)).0 ≡ ok totp_challenge)
    × (is_ok
          (accept_mfa crypto
            (check_mfa (check_mfa signed_in answer (pos 200)).1 answer (pos 200)).1
            "mfa-1"
            totp_challenge
            draws).0
        ≡ true)
    × (is_ok
          (accept_mfa crypto
            (accept_mfa crypto
              (check_mfa (check_mfa signed_in answer (pos 200)).1 answer (pos 200)).1
              "mfa-1"
              totp_challenge
              draws).1
            "mfa-1"
            totp_challenge
            next_draws).0
        ≡ true)
unfolding check_mfa get to_lower bonipam.Auth.Mfa.refuses
accept_mfa-twice_example =
    accept_mfa-twice crypto signed_in answer (pos 200) totp_challenge draws next_draws "fresh"
      "fresh2" (λ claims key. refl) refl refl refl

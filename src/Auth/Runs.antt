-- ===== src/Auth/Runs.antt =====
-- The runs of the authentication service: every operation that changes it, as a step.
use bonipam.Common.{
  String, ◌≡◌, false, Option, none, ◌==◌, Option-cases, Result-cases, Bool-cases, ◌||◌, ◌&&◌, not,
  inl, inr, arith,
}
use bonipam.Go.Map.{get}
use bonipam.Go.Time.{Time}
use bonipam.Users.Types.{UserService}
use bonipam.Users.Service.{list_users}
use bonipam.Auth.Types.{
  AuthService, LoginRequest, OidcCallbackRequest, MfaChallengeRequest, MfaVerifyRequest,
  RevokeSessionsRequest, Crypto, Draws, MfaChallenge,
}
use bonipam.Auth.Sync.{sync_user_on_login}
use bonipam.Auth.Mfa.{create_mfa_challenge, check_mfa, accept_mfa, store_challenge, drop_challenge}
use bonipam.Auth.Service.{login, find_by_email, exchange_oidc_code, sync_all_users_from_idp}
use bonipam.Auth.Tokens.{refresh_token, revoke_sessions}
use bonipam.Auth.Tracked.{IsTracked}
use bonipam.Auth.Kept.{issue_session-IsTracked, refresh_token-IsTracked}
use bonipam.Auth.Revocation.{revoke_sessions-IsTracked}

-- A new session's uuid is not in use. VerifyMFA takes the lock twice, so that other steps may come
-- between its check and its acceptance.
pub data Step (crypto : Crypto) (s : AuthService) : AuthService → Type 0 where
  sign_in :
      (req : LoginRequest) (user_service : UserService) (draws : Draws)
      → get s.sessions draws.session_id ≡ none
      → Step crypto s (login crypto s req user_service draws).1
  exchange :
      (req : OidcCallbackRequest) (synced : Time) (draws : Draws)
      → get s.sessions draws.session_id ≡ none
      → Step crypto s (exchange_oidc_code crypto s req synced draws).1
  sync : (now : Time) → Step crypto s (sync_all_users_from_idp s now).1
  challenge :
      (req : MfaChallengeRequest) (id : String) (now : Time) (digits token : Option String)
      → Step crypto s (create_mfa_challenge s req id now digits token).1
  check : (req : MfaVerifyRequest) (now : Time) → Step crypto s (check_mfa s req now).1
  accept :
      (challenge_id : String) (accepted : MfaChallenge) (draws : Draws)
      → get s.sessions draws.session_id ≡ none
      → Step crypto s (accept_mfa crypto s challenge_id accepted draws).1
  refresh :
      (token : String) (checked revoked : Time) (draws : Draws)
      → get s.sessions draws.session_id ≡ none
      → Step crypto s (refresh_token crypto s token checked revoked draws).1
  revoke : (req : RevokeSessionsRequest) (now : Time) → Step crypto s (revoke_sessions s req now).1

pub data Reach (crypto : Crypto) (s : AuthService) : AuthService → Type 0 where
  here : Reach crypto s s
  next : {t u : AuthService} → Reach crypto s t → Step crypto t u → Reach crypto s u

-- An operation that leaves the tokens and the sessions alone.
keeps-IsTracked :
    (s t : AuthService)
    → t.refresh_tokens ≡ s.refresh_tokens
    → t.sessions ≡ s.sessions
    → IsTracked s
    → IsTracked t
keeps-IsTracked s t tokens sessions tracked hash entry h =
    let backed = tracked hash entry (ground (arith, tokens, h)) in
    record {
      session = backed.session;
      found = ground (arith, sessions, backed.found);
      same_user = backed.same_user;
      same_hash = backed.same_hash;
      not_revoked = backed.not_revoked;
      not_empty = backed.not_empty;
    }

module _ (crypto : Crypto)
    (digest : (token : String) → (crypto.sha256_hex token == "") ≡ false) where
  login-IsTracked :
      (s : AuthService) (req : LoginRequest) (user_service : UserService) (draws : Draws)
      → get s.sessions draws.session_id ≡ none
      → IsTracked s
      → IsTracked (login crypto s req user_service draws).1
  unfolding login
  login-IsTracked s req user_service draws fresh tracked =
      elim (Bool-cases (req.email == "" || req.password == "")) [
        | inl missing ↦ rw (missing, login) tracked
        | inr given ↦
            elim (Option-cases (find_by_email (list_users user_service false) req.email)) [
              | inl unknown ↦ rw (given, unknown, login) tracked
              | inr (found, at) ↦
                  elim (Bool-cases
                    (found.email == "admin@bonipam.local" && not (req.password == "admin123"))) [
                      | inl wrong ↦ rw (given, at, wrong, login) tracked
                      | inr right ↦
                          rw (given, at, right, login)
                            (issue_session-IsTracked crypto s found.id draws fresh digest tracked)
                    ]
            ]
      ]

  exchange-IsTracked :
      (s : AuthService) (req : OidcCallbackRequest) (synced : Time) (draws : Draws)
      → get s.sessions draws.session_id ≡ none
      → IsTracked s
      → IsTracked (exchange_oidc_code crypto s req synced draws).1
  unfolding exchange_oidc_code
  exchange-IsTracked s req synced draws fresh tracked =
      let run = sync_user_on_login crypto s.user_sync req.code req.state synced in
      elim (Bool-cases (req.code == "" || req.state == "")) [
        | inl missing ↦ rw (missing, exchange_oidc_code) tracked
        | inr given ↦ elim (Result-cases run.0) [
          | inl (user_id, e) ↦
              rw (given, e, exchange_oidc_code)
                (issue_session-IsTracked crypto (record s { user_sync = run.1 }) user_id draws fresh
                  digest tracked)
          | inr (e', e) ↦ rw (given, e, exchange_oidc_code) tracked
        ]
      ]

  check-IsTracked :
      (s : AuthService) (req : MfaVerifyRequest) (now : Time)
      → IsTracked s
      → IsTracked (check_mfa s req now).1
  unfolding check_mfa drop_challenge
  check-IsTracked s req now tracked =
      let t = (check_mfa s req now).1 in
      elim (Option-cases (get s.challenges req.challenge_id)) [
        | inl missing ↦ keeps-IsTracked s t (ground arith) (ground arith) tracked
        | inr (found, at) ↦ keeps-IsTracked s t (ground arith) (ground arith) tracked
      ]

  create-IsTracked :
      (s : AuthService) (req : MfaChallengeRequest) (id : String) (now : Time)
      (digits token : Option String)
      → IsTracked s
      → IsTracked (create_mfa_challenge s req id now digits token).1
  unfolding create_mfa_challenge store_challenge
  create-IsTracked s req id now digits token tracked =
      let t = (create_mfa_challenge s req id now digits token).1 in
      keeps-IsTracked s t (ground arith) (ground arith) tracked

  Step-IsTracked : {s t : AuthService} → Step crypto s t → IsTracked s → IsTracked t
  unfolding sync_all_users_from_idp accept_mfa drop_challenge
  Step-IsTracked {s} (sign_in req user_service draws fresh) tracked =
      login-IsTracked s req user_service draws fresh tracked
  Step-IsTracked {s} (exchange req synced draws fresh) tracked =
      exchange-IsTracked s req synced draws fresh tracked
  Step-IsTracked {s} (sync now) tracked =
      keeps-IsTracked s (sync_all_users_from_idp s now).1 (ground arith) (ground arith) tracked
  Step-IsTracked {s} (challenge req id now digits token) tracked =
      create-IsTracked s req id now digits token tracked
  Step-IsTracked {s} (check req now) tracked = check-IsTracked s req now tracked
  Step-IsTracked {s} (accept challenge_id accepted draws fresh) tracked =
      issue_session-IsTracked crypto (drop_challenge s challenge_id) accepted.user_id draws fresh
        digest tracked
  Step-IsTracked {s} (refresh token checked revoked draws fresh) tracked =
      refresh_token-IsTracked crypto s token checked revoked draws fresh digest tracked
  Step-IsTracked {s} (revoke req now) tracked = revoke_sessions-IsTracked s req now tracked

  -- In every service that a run reaches from one where it holds, each refresh token stands for a
  -- session that exists, belongs to the token's user, is not revoked and records the token's hash,
  -- if no digest is empty.
  pub Reach-IsTracked : {s t : AuthService} → Reach crypto s t → IsTracked s → IsTracked t
  Reach-IsTracked here tracked = tracked
  Reach-IsTracked (next r st) tracked = Step-IsTracked st (Reach-IsTracked r tracked)

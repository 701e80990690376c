-- ===== src/Auth/Types.antt =====
-- The state of the authentication service, requests, responses and errors
-- (auth_service.go, user_sync_service.go, backend/internal/domain/auth.go), and what it takes from
-- crypto/sha256, the JWT library, the clock and the random generator.
use bonipam.Common.{ℕ, String, Bool, Option, List}
use bonipam.Common.Int.{ℤ}
use bonipam.Go.Map.{Map}
use bonipam.Go.Time.{Time}

pub record MfaChallenge : Type 0 where
  pub challenge_id : String
  pub user_id : String
  pub method : String
  pub code : String
  pub webauthn_challenge : String
  pub expires_at : Time

pub record RefreshTokenRecord : Type 0 where
  pub user_id : String
  pub session_id : String
  pub expires_at : Time

pub record SessionRecord : Type 0 where
  pub user_id : String
  pub refresh_token_hash : String
  pub issued_at : Time
  pub revoked_at : Option Time

-- Times to live in nanoseconds.
pub record AuthTokenConfig : Type 0 where
  pub issuer : String
  pub signing_key : String
  pub access_token_ttl : ℤ
  pub refresh_token_ttl : ℤ
  pub require_strong_key : Bool

pub record SyncedUser : Type 0 where
  pub user_id : String
  pub external_id : String
  pub email : String
  pub display_name : String
  pub groups : List String
  pub last_synced_at : Time

pub record UserSyncService : Type 0 where
  pub users : Map SyncedUser

-- The service that `userSync` points to is part of the state.
pub record AuthService : Type 0 where
  pub challenges : Map MfaChallenge
  pub refresh_tokens : Map RefreshTokenRecord
  pub sessions : Map SessionRecord
  pub token_config : AuthTokenConfig
  pub user_sync : UserSyncService

pub record AuthSession : Type 0 where
  pub user_id : String
  pub access_token : String
  pub refresh_token : String
  pub expires_at : Time

pub record LoginRequest : Type 0 where
  pub email : String
  pub password : String

pub record OidcCallbackRequest : Type 0 where
  pub code : String
  pub state : String

pub record MfaChallengeRequest : Type 0 where
  pub user_id : String
  pub method : String

pub record MfaChallengeResponse : Type 0 where
  pub challenge_id : String
  pub method : String
  pub expires_at : Time
  pub webauthn_challenge : String
  pub test_code : String

pub record MfaVerifyRequest : Type 0 where
  pub challenge_id : String
  pub method : String
  pub code : String
  pub assertion : String

pub record RevokeSessionsRequest : Type 0 where
  pub user_id : String
  pub session_id : String

pub record RevokeSessionsResponse : Type 0 where
  pub revoked_count : ℕ
  pub revoked_ids : List String

-- jwt.MapClaims, with the times in seconds.
pub record Claims : Type 0 where
  pub sub : String
  pub iss : String
  pub iat : ℤ
  pub exp : ℤ
  pub jti : String

-- The errors of auth_service.go and user_sync_service.go, one for each message.
pub data AuthError : Type 0 where
  missing_signing_key weak_signing_key : AuthError
  email_and_password_required invalid_credentials invalid_oidc_payload missing_oidc_payload :
      AuthError
  invalid_mfa_challenge_payload invalid_mfa_payload : AuthError
  unsupported_mfa_method : String → AuthError
  totp_generation_failed webauthn_generation_failed : AuthError
  invalid_or_expired_challenge mfa_method_mismatch challenge_expired : AuthError
  invalid_totp_code invalid_webauthn_assertion : AuthError
  missing_refresh_token invalid_refresh_token refresh_token_expired : AuthError
  user_id_required session_not_found session_of_other_user : AuthError
  sign_failed token_generation_failed : AuthError

-- The hexadecimal SHA-256 digest of a text, and the signature of claims under a key, which may fail.
pub record Crypto : Type 0 where
  pub sha256_hex : String → String
  pub sign_hs256 : Claims → String → Option String

-- What one call of issueSession draws: the time, a uuid, and a random token unless the generator fails.
pub record Draws : Type 0 where
  pub now : Time
  pub session_id : String
  pub refresh_token : Option String

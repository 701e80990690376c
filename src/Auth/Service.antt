-- ===== src/Auth/Service.antt =====
-- The service itself and its sign-in operations (auth_service.go): NewAuthService, Login and
-- ExchangeOIDCCode.
use bonipam.Common.{
  ℕ, String, ◌||◌, ◌&&◌, not, Option, none, some, List, [], ◌∷◌, ◌==◌, if◌then◌else◌, ltb, false,
  Result, ok, err,
}
use bonipam.Common.Int.{pos, leb_ℤ, seconds}
use bonipam.Go.Time.{Time}
use bonipam.Users.Types.{User, UserService}
use bonipam.Users.Service.{list_users}
use bonipam.Auth.Types.{
  AuthTokenConfig, AuthService, AuthSession, LoginRequest, OidcCallbackRequest, AuthError,
  missing_signing_key, weak_signing_key, email_and_password_required, invalid_credentials,
  invalid_oidc_payload, Crypto, Draws,
}
use bonipam.Auth.Sync.{sync_user_on_login, sync_all_users}
use bonipam.Auth.Tokens.{Outcome, issue_session}

-- The defaults of NewAuthService; `env_key` is the variable JWT_SIGNING_KEY.
unfoldable pub with_defaults : AuthTokenConfig → String → AuthTokenConfig
with_defaults cfg env_key = record {
  issuer = if cfg.issuer == "" then "boni-pam-auth" else cfg.issuer;
  signing_key = if cfg.signing_key == "" then env_key else cfg.signing_key;
  access_token_ttl =
      if leb_ℤ cfg.access_token_ttl (pos 0) then seconds (pos 900) else cfg.access_token_ttl;
  refresh_token_ttl =
      if leb_ℤ cfg.refresh_token_ttl (pos 0) then seconds (pos 86400) else cfg.refresh_token_ttl;
  require_strong_key = cfg.require_strong_key;
}

-- len(key), in bytes, is an argument.
unfoldable pub new_auth_service :
    (String → ℕ) → AuthTokenConfig → String → Result AuthError AuthService
new_auth_service byte_length config env_key =
    let cfg = with_defaults config env_key in
    if cfg.signing_key == ""
    then err missing_signing_key
    else if cfg.require_strong_key && ltb (byte_length cfg.signing_key) 32
    then err weak_signing_key
    else ok (record {
      challenges = [];
      refresh_tokens = [];
      sessions = [];
      token_config = cfg;
      user_sync = record { users = [] };
    })

-- The loop of Login: the first user with the email.
unfoldable pub find_by_email : List User → String → Option User
find_by_email [] email = none
find_by_email (u ∷ users) email = if u.email == email then some u else find_by_email users email

unfoldable pub login :
    Crypto → AuthService → LoginRequest → UserService → Draws → Outcome AuthSession
login crypto s req user_service draws =
    if req.email == "" || req.password == ""
    then (err email_and_password_required, s)
    else elim (find_by_email (list_users user_service false) req.email) [
      | none ↦ (err invalid_credentials, s)
      | some found ↦
          if found.email == "admin@bonipam.local" && not (req.password == "admin123")
          then (err invalid_credentials, s)
          else issue_session crypto s found.id draws
    ]

-- `synced` is the time that SyncUserOnLogin reads.
unfoldable pub exchange_oidc_code :
    Crypto → AuthService → OidcCallbackRequest → Time → Draws → Outcome AuthSession
exchange_oidc_code crypto s req synced draws =
    if req.code == "" || req.state == ""
    then (err invalid_oidc_payload, s)
    else let (synced_user, user_sync) =
        sync_user_on_login crypto s.user_sync req.code req.state synced in
      elim synced_user [
        | err e ↦ (err e, record s { user_sync = user_sync })
        | ok user_id ↦ issue_session crypto (record s { user_sync = user_sync }) user_id draws
      ]

unfoldable pub sync_all_users_from_idp : AuthService → Time → ℕ × AuthService
sync_all_users_from_idp s now =
    let (count, user_sync) = sync_all_users s.user_sync now in
    (count, record s { user_sync = user_sync })

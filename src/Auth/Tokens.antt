-- ===== src/Auth/Tokens.antt =====
-- Sessions and refresh tokens (auth_service.go): issueSession, RefreshToken and RevokeSessions.
use bonipam.Common.{
  ◌/◌, String, Bool, ◌||◌, not, Option, none, some, List, [], ◌∷◌, ◌==◌, if◌then◌else◌, is_some,
  Result, ok, err,
}
use bonipam.Common.Int.{ℤ, pos, negsuc}
use bonipam.Common.Lists.{length}
use bonipam.Go.Map.{Map, get, put, delete, update_entries}
use bonipam.Go.Time.{Time, after, add}
use bonipam.Auth.Types.{
  RefreshTokenRecord, SessionRecord, AuthTokenConfig, AuthService, AuthSession,
  RevokeSessionsRequest, RevokeSessionsResponse, Claims, AuthError, missing_refresh_token,
  invalid_refresh_token, refresh_token_expired, user_id_required, session_not_found,
  session_of_other_user, sign_failed, token_generation_failed, Crypto, Draws,
}

abbrev pub Outcome : Type 0 → Type 0
Outcome A = Result AuthError A × AuthService

-- t.Unix(): whole seconds, rounded down.
unfoldable pub unix : Time → ℤ
unix (pos n) = pos (n / 1000000000)
unix (negsuc n) = negsuc (n / 1000000000)

unfoldable pub session_claims : AuthTokenConfig → String → Draws → Claims
session_claims cfg user_id draws = record {
  sub = user_id;
  iss = cfg.issuer;
  iat = unix draws.now;
  exp = unix (add draws.now cfg.access_token_ttl);
  jti = draws.session_id;
}

-- The record of a new session, and the record of its refresh token.
unfoldable pub new_session : String → String → Time → SessionRecord
new_session user_id refresh_hash now = record {
  user_id = user_id;
  refresh_token_hash = refresh_hash;
  issued_at = now;
  revoked_at = none;
}

unfoldable pub new_refresh_record : String → String → Time → RefreshTokenRecord
new_refresh_record user_id session_id expires_at = record {
  user_id = user_id;
  session_id = session_id;
  expires_at = expires_at;
}

module _ (crypto : Crypto) where
  unfoldable pub hash_token : String → String
  hash_token token = crypto.sha256_hex token

  -- What issueSession stores for a refresh token.
  unfoldable pub store_session : AuthService → String → Draws → String → AuthService
  store_session s user_id draws refresh_token =
      let refresh_hash = hash_token refresh_token in
      record s {
        refresh_tokens = put s.refresh_tokens refresh_hash (
            new_refresh_record user_id draws.session_id
              (add draws.now s.token_config.refresh_token_ttl));
        sessions = put s.sessions draws.session_id (new_session user_id refresh_hash draws.now);
      }

  unfoldable pub issue_session : AuthService → String → Draws → Outcome AuthSession
  issue_session s user_id draws =
      elim (crypto.sign_hs256 (session_claims s.token_config user_id draws)
        s.token_config.signing_key) [
          | none ↦ (err sign_failed, s)
          | some access_token ↦ elim draws.refresh_token [
            | none ↦ (err token_generation_failed, s)
            | some refresh_token ↦ (
              ok (record {
                user_id = user_id;
                access_token = access_token;
                refresh_token = refresh_token;
                expires_at = add draws.now s.token_config.access_token_ttl;
              }),
              store_session s user_id draws refresh_token,
            )
          ]
        ]

-- `if session, ok := s.sessions[id]; ok { … }`
unfoldable pub update_session :
    Map SessionRecord → String → (SessionRecord → SessionRecord) → Map SessionRecord
update_session sessions id f = elim (get sessions id) [
  | none ↦ sessions
  | some session ↦ put sessions id (f session)
]

-- An expired token is dropped and its session revoked.
unfoldable pub drop_expired : AuthService → String → RefreshTokenRecord → Time → AuthService
drop_expired s hash entry now = record s {
  refresh_tokens = delete s.refresh_tokens hash;
  sessions = update_session s.sessions entry.session_id (λ x. record x { revoked_at = some now });
}

-- A token that is used is dropped, and its session has no token any more.
unfoldable pub take_token : AuthService → String → RefreshTokenRecord → AuthService
take_token s hash entry = record s {
  refresh_tokens = delete s.refresh_tokens hash;
  sessions = update_session s.sessions entry.session_id (λ x. record x { refresh_token_hash = "" });
}

-- `checked` and `revoked` are the calls of time.Now() before the new session is issued.
unfoldable pub refresh_token :
    Crypto → AuthService → String → Time → Time → Draws → Outcome AuthSession
refresh_token crypto s token checked revoked draws =
    if token == ""
    then (err missing_refresh_token, s)
    else let hash = hash_token crypto token in
      elim (get s.refresh_tokens hash) [
        | none ↦ (err invalid_refresh_token, s)
        | some entry ↦
            if after checked entry.expires_at
            then (err refresh_token_expired, drop_expired s hash entry revoked)
            else issue_session crypto (take_token s hash entry) entry.user_id draws
      ]

abbrev pub revoked_session : SessionRecord → Time → SessionRecord
revoked_session session now = record session { refresh_token_hash = ""; revoked_at = some now }

-- delete(s.refreshTokens, hash), unless the hash is empty
unfoldable pub drop_token : Map RefreshTokenRecord → String → Map RefreshTokenRecord
drop_token tokens hash = if hash == "" then tokens else delete tokens hash

-- RevokeSessions for one session that was found.
unfoldable pub revoke_one :
    AuthService → RevokeSessionsRequest → SessionRecord → Time → Outcome RevokeSessionsResponse
revoke_one s req session now =
    if not (session.user_id == req.user_id)
    then (err session_of_other_user, s)
    else if is_some session.revoked_at
    then (ok (record { revoked_count = 0; revoked_ids = [] }), s)
    else (
      ok (record { revoked_count = 1; revoked_ids = req.session_id ∷ [] }),
      record s {
        refresh_tokens = drop_token s.refresh_tokens session.refresh_token_hash;
        sessions = put s.sessions req.session_id (revoked_session session now);
      },
    )

-- The loop of RevokeSessions: what it writes back, the hashes that it drops, the ids that it lists.
unfoldable pub is_revocable : String → SessionRecord → Bool
is_revocable user_id session = not (not (session.user_id == user_id) || is_some session.revoked_at)

unfoldable pub revoke_visit : String → Time → String → SessionRecord → Option SessionRecord
revoke_visit user_id now session_id session =
    if is_revocable user_id session then some (revoked_session session now) else none

unfoldable pub drop_tokens :
    String → Map SessionRecord → Map RefreshTokenRecord → Map RefreshTokenRecord
drop_tokens user_id [] tokens = tokens
drop_tokens user_id ((session_id, session) ∷ rest) tokens =
    drop_tokens user_id rest (
      if is_revocable user_id session then drop_token tokens session.refresh_token_hash else tokens)

unfoldable pub revoked_ids : String → Map SessionRecord → List String
revoked_ids user_id [] = []
revoked_ids user_id ((session_id, session) ∷ rest) =
    let ids = revoked_ids user_id rest in
    if is_revocable user_id session then session_id ∷ ids else ids

unfoldable pub revoke_all : AuthService → String → Time → Outcome RevokeSessionsResponse
revoke_all s user_id now =
    let ids = revoked_ids user_id s.sessions in
    (
      ok (record { revoked_count = length ids; revoked_ids = ids }),
      record s {
        refresh_tokens = drop_tokens user_id s.sessions s.refresh_tokens;
        sessions = update_entries (revoke_visit user_id now) s.sessions;
      },
    )

unfoldable pub revoke_sessions :
    AuthService → RevokeSessionsRequest → Time → Outcome RevokeSessionsResponse
revoke_sessions s req now =
    if req.user_id == ""
    then (err user_id_required, s)
    else if not (req.session_id == "")
    then elim (get s.sessions req.session_id) [
      | none ↦ (err session_not_found, s)
      | some session ↦ revoke_one s req session now
    ]
    else revoke_all s req.user_id now

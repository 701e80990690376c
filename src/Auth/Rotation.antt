-- ===== src/Auth/Rotation.antt =====
-- The rotation of refresh tokens (auth_service.go, RefreshToken).
use bonipam.Common.{
  String, ◌≡◌, ◌≢◌, refl, false, none, some, ◌==◌, if◌then◌else◌, eq_iff, eq_refl, ok, err,
  Option-cases, Bool-cases, inl, inr, arith, sym, ap, ◌∙◌,
}
use bonipam.Go.Map.{get, get-put, get-delete}
use bonipam.Go.Time.{Time, after, add}
use bonipam.Auth.Types.{
  AuthService, AuthTokenConfig, AuthSession, RefreshTokenRecord, invalid_refresh_token, Crypto,
  Draws,
}
use bonipam.Auth.Tokens.{
  refresh_token, session_claims, issue_session, store_session, new_refresh_record, take_token,
  hash_token,
}

-- What is stored for the new session's token.
issue_session-stores :
    (crypto : Crypto) (s : AuthService) (user_id : String) (draws : Draws) (session : AuthSession)
    (hash : String)
    → (issue_session crypto s user_id draws).0 ≡ ok session
    → (session.user_id ≡ user_id)
      × (get (issue_session crypto s user_id draws).1.refresh_tokens hash ≡ (
          if hash_token crypto session.refresh_token == hash
          then some (
              new_refresh_record user_id draws.session_id
                (add draws.now s.token_config.refresh_token_ttl))
          else get s.refresh_tokens hash))
unfolding issue_session store_session hash_token
issue_session-stores crypto s user_id draws session hash h =
    elim (Option-cases draws.refresh_token) [
      | inl failed ↦ absurd (ground arith)
      | inr (token, drawn) ↦ ground (
        arith,
        drawn,
        get-put s.refresh_tokens (crypto.sha256_hex token) hash (
            new_refresh_record user_id draws.session_id
              (add draws.now s.token_config.refresh_token_ttl)),
      )
    ]

-- A session is given for a token only if the token is stored and has not expired.
refreshed :
    (crypto : Crypto) (s : AuthService) (token : String) (checked revoked : Time) (draws : Draws)
    (session : AuthSession)
    → (refresh_token crypto s token checked revoked draws).0 ≡ ok session
    → (entry : RefreshTokenRecord) × (get s.refresh_tokens (crypto.sha256_hex token) ≡ some entry)
      × (after checked entry.expires_at ≡ false)
      × ((token == "") ≡ false)
      × (refresh_token crypto s token checked revoked draws
          ≡ issue_session crypto (take_token s (crypto.sha256_hex token) entry) entry.user_id draws)
unfolding refresh_token hash_token
refreshed crypto s token checked revoked draws session h = elim (Bool-cases (token == "")) [
  | inl empty ↦ absurd (cc (rw (empty, refresh_token) at h))
  | inr filled ↦ elim (Option-cases (get s.refresh_tokens (crypto.sha256_hex token))) [
    | inl missing ↦ absurd (cc (rw (filled, missing, refresh_token) at h))
    | inr (entry, at) ↦ elim (Bool-cases (after checked entry.expires_at)) [
      | inl late ↦ absurd (cc (rw (filled, at, late, refresh_token) at h))
      | inr early ↦ (entry, at, early, filled, rw (filled, at, early, refresh_token) refl)
    ]
  ]
]

-- A text whose digest no token has.
refresh_token-unknown :
    (crypto : Crypto) (s : AuthService) (token : String) (checked revoked : Time) (draws : Draws)
    → (token == "") ≡ false
    → get s.refresh_tokens (crypto.sha256_hex token) ≡ none
    → (refresh_token crypto s token checked revoked draws).0 ≡ err invalid_refresh_token
unfolding refresh_token hash_token
refresh_token-unknown crypto s token checked revoked draws filled missing =
    rw (filled, missing, refresh_token) refl

issue_session-ok :
    (crypto : Crypto) (s : AuthService) (cfg : AuthTokenConfig) (user_id next signed : String)
    (draws : Draws)
    → s.token_config ≡ cfg
    → draws.refresh_token ≡ some next
    → crypto.sign_hs256 (session_claims cfg user_id draws) cfg.signing_key ≡ some signed
    → (issue_session crypto s user_id draws).0
      ≡ ok (record {
        user_id = user_id;
        access_token = signed;
        refresh_token = next;
        expires_at = add draws.now cfg.access_token_ttl;
      })
unfolding issue_session
issue_session-ok crypto s cfg user_id next signed draws configured drawn sign = ground arith

-- A stored token that has not expired is taken, if the draws have a next token and the signature is made.
refresh_token-accepts :
    (crypto : Crypto) (t : AuthService) (cfg : AuthTokenConfig) (token next signed : String)
    (checked revoked : Time) (draws : Draws) (entry : RefreshTokenRecord)
    → t.token_config ≡ cfg
    → (token == "") ≡ false
    → get t.refresh_tokens (crypto.sha256_hex token) ≡ some entry
    → after checked entry.expires_at ≡ false
    → draws.refresh_token ≡ some next
    → crypto.sign_hs256 (session_claims cfg entry.user_id draws) cfg.signing_key ≡ some signed
    → (refresh_token crypto t token checked revoked draws).0
      ≡ ok (record {
        user_id = entry.user_id;
        access_token = signed;
        refresh_token = next;
        expires_at = add draws.now cfg.access_token_ttl;
      })
unfolding refresh_token hash_token take_token
refresh_token-accepts crypto t cfg token next signed checked revoked draws entry configured filled
      at early drawn sign =
    rw (filled, at, early, refresh_token)
      (issue_session-ok crypto (take_token t (crypto.sha256_hex token) entry) cfg entry.user_id next
        signed draws configured drawn sign)

issue_session-token_config :
    (crypto : Crypto) (s : AuthService) (user_id : String) (draws : Draws)
    → (issue_session crypto s user_id draws).1.token_config ≡ s.token_config
unfolding issue_session store_session
issue_session-token_config crypto s user_id draws = ground arith

-- If RefreshToken gives a session for a token, then that token is in use for the session's user and
-- has not expired, and the new token is stored for that user and the new session, with an expiry one
-- lifetime of refresh tokens after the call. If moreover the new token is not empty and its digest is
-- not that of the old one, then in the service that is left, the new token gives a session of the same
-- user at any time up to that expiry at which the next token is drawn and the next signature is made,
-- and the old one is refused as invalid at any time.
pub refresh_token-rotates :
    (crypto : Crypto) (s : AuthService) (token next signed : String) (checked revoked : Time)
    (draws : Draws) (session : AuthSession) (checked' revoked' : Time) (draws' : Draws)
    → (refresh_token crypto s token checked revoked draws).0 ≡ ok session
    → crypto.sha256_hex session.refresh_token ≢ crypto.sha256_hex token
    → (session.refresh_token == "") ≡ false
    → after checked' (add draws.now s.token_config.refresh_token_ttl) ≡ false
    → draws'.refresh_token ≡ some next
    → crypto.sign_hs256
        (session_claims s.token_config session.user_id draws')
        s.token_config.signing_key
      ≡ some signed
    → let t = (refresh_token crypto s token checked revoked draws).1 in
      ((entry : RefreshTokenRecord) × (get s.refresh_tokens (crypto.sha256_hex token) ≡ some entry)
        × (entry.user_id ≡ session.user_id)
        × (after checked entry.expires_at ≡ false))
      × (get t.refresh_tokens (crypto.sha256_hex session.refresh_token)
          ≡ some (record {
            user_id = session.user_id;
            session_id = draws.session_id;
            expires_at = add draws.now s.token_config.refresh_token_ttl;
          }))
      × ((refresh_token crypto t session.refresh_token checked' revoked' draws').0
          ≡ ok (record {
            user_id = session.user_id;
            access_token = signed;
            refresh_token = next;
            expires_at = add draws'.now s.token_config.access_token_ttl;
          }))
      × ((refresh_token crypto t token checked' revoked' draws').0 ≡ err invalid_refresh_token)
unfolding hash_token take_token new_refresh_record
refresh_token-rotates crypto s token next signed checked revoked draws session checked' revoked'
      draws' h fresh given in_time drawn sign =
    let (entry, at, early, filled, run) =
      refreshed crypto s token checked revoked draws session h in
    let hash = crypto.sha256_hex token in
    let new_hash = crypto.sha256_hex session.refresh_token in
    let left = take_token s hash entry in
    let stores = λ (other : String).
      issue_session-stores crypto left entry.user_id draws session other
        (ap (λ r. r.0) (sym run) ∙ h) in
    let t = (refresh_token crypto s token checked revoked draws).1 in
    let (owner, new) = stores new_hash in
    let config : t.token_config ≡ s.token_config =
      rw run (issue_session-token_config crypto left entry.user_id draws) in
    let stored : get t.refresh_tokens new_hash
        ≡ some (
            new_refresh_record session.user_id draws.session_id
              (add draws.now s.token_config.refresh_token_ttl)) =
      rw run (ground (arith, owner, new, eq_refl new_hash)) in
    let accepted : (refresh_token crypto t session.refresh_token checked' revoked' draws').0
        ≡ ok (record {
          user_id = session.user_id;
          access_token = signed;
          refresh_token = next;
          expires_at = add draws'.now s.token_config.access_token_ttl;
        }) =
      refresh_token-accepts crypto t s.token_config session.refresh_token next signed checked'
        revoked' draws'
        (new_refresh_record session.user_id draws.session_id
          (add draws.now s.token_config.refresh_token_ttl))
        config given stored in_time drawn sign in
    (
      (entry, at, sym owner, early),
      stored,
      accepted,
      refresh_token-unknown crypto t token checked' revoked' draws' filled (
          rw run (
            ground (
              arith,
              (stores hash).1,
              eq_iff new_hash hash,
              get-delete s.refresh_tokens hash hash,
              eq_refl hash,
            ))),
    )

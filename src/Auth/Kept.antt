-- ===== src/Auth/Kept.antt =====
-- The operations on sessions and tokens keep every token backed by its session (auth_service.go:
-- issueSession, RefreshToken, and RevokeSessions for one session).
use bonipam.Common.{
  String, false, ◌≡◌, refl, ◌==◌, eq_iff, none, some, Option-cases, Bool-cases, inl, inr, arith,
}
use bonipam.Go.Map.{get, get-put}
use bonipam.Go.Time.{Time, after}
use bonipam.Auth.Types.{
  RefreshTokenRecord, SessionRecord, AuthService, RevokeSessionsRequest, Crypto, Draws,
}
use bonipam.Auth.Tokens.{
  issue_session, session_claims, hash_token, take_token, update_session, refresh_token, revoke_one,
  revoked_session, drop_token,
}
use bonipam.Auth.Tracked.{
  IsTracked, store_session-IsTracked, change-IsTracked, unused-IsTracked, take_token-IsTracked,
  drop_expired-IsTracked,
}

pub issue_session-IsTracked :
    (crypto : Crypto) (s : AuthService) (user_id : String) (draws : Draws)
    → get s.sessions draws.session_id ≡ none
    → ((token : String) → (crypto.sha256_hex token == "") ≡ false)
    → IsTracked s
    → IsTracked (issue_session crypto s user_id draws).1
unfolding issue_session
issue_session-IsTracked crypto s user_id draws fresh digest tracked =
    elim (Option-cases (
      crypto.sign_hs256 (session_claims s.token_config user_id draws) s.token_config.signing_key)) [
        | inl failed ↦ rw (failed, issue_session) tracked
        | inr (access, signed) ↦ elim (Option-cases draws.refresh_token) [
          | inl failed ↦ rw (signed, failed, issue_session) tracked
          | inr (token, drawn) ↦
              rw (signed, drawn, issue_session)
                (store_session-IsTracked crypto s user_id draws token fresh (digest token) tracked)
        ]
      ]

sessions-take_token :
    (s : AuthService) (hash : String) (entry : RefreshTokenRecord) (id : String)
    → get s.sessions id ≡ none
    → get (take_token s hash entry).sessions id ≡ none
unfolding take_token update_session
sessions-take_token s hash entry id fresh = elim (Option-cases (get s.sessions entry.session_id)) [
  | inl missing ↦ ground arith
  | inr (session, at) ↦ ground (
    arith,
    get-put s.sessions entry.session_id id (record session { refresh_token_hash = "" }),
    eq_iff entry.session_id id,
  )
]

pub refresh_token-IsTracked :
    (crypto : Crypto) (s : AuthService) (token : String) (checked revoked : Time) (draws : Draws)
    → get s.sessions draws.session_id ≡ none
    → ((token : String) → (crypto.sha256_hex token == "") ≡ false)
    → IsTracked s
    → IsTracked (refresh_token crypto s token checked revoked draws).1
unfolding refresh_token hash_token
refresh_token-IsTracked crypto s token checked revoked draws fresh digest tracked =
    let hash = crypto.sha256_hex token in
    elim (Bool-cases (token == "")) [
      | inl empty ↦ rw empty tracked
      | inr filled ↦ elim (Option-cases (get s.refresh_tokens hash)) [
        | inl missing ↦ rw (filled, missing) tracked
        | inr (entry, at) ↦ elim (Bool-cases (after checked entry.expires_at)) [
          | inl late ↦
              rw (filled, at, late) (drop_expired-IsTracked s hash entry revoked at tracked)
          | inr early ↦
              rw (filled, at, early)
                (issue_session-IsTracked crypto (take_token s hash entry) entry.user_id draws
                  (sessions-take_token s hash entry draws.session_id fresh) digest
                  (take_token-IsTracked s hash entry at tracked))
        ]
      ]
    ]

pub revoke_one-IsTracked :
    (s : AuthService) (req : RevokeSessionsRequest) (session : SessionRecord) (now : Time)
    → get s.sessions req.session_id ≡ some session
    → IsTracked s
    → IsTracked (revoke_one s req session now).1
unfolding revoke_one drop_token
revoke_one-IsTracked s req session now at tracked =
    elim (Bool-cases (session.user_id == req.user_id)) [
      | inr other ↦ rw other tracked
      | inl own ↦ elim (Option-cases session.revoked_at) [
        | inr (since, revoked) ↦ rw (own, revoked) tracked
        | inl active ↦ elim (Bool-cases (session.refresh_token_hash == "")) [
          | inr filled ↦
              rw (own, active, filled)
                (change-IsTracked s session.refresh_token_hash req.session_id session
                  (revoked_session session now) at refl tracked)
          | inl empty ↦
              rw (own, active, empty)
                (unused-IsTracked s req.session_id session (revoked_session session now) at empty
                  tracked)
        ]
      ]
    ]

-- ===== src/Auth/Revocation.antt =====
-- Revoking every session of a user (auth_service.go, RevokeSessions without a session id).
use bonipam.Common.{
  String, true, false, ◌≡◌, ◌≢◌, ◌==◌, eq_iff, if◌then◌else◌, some, [], ◌∷◌, Option-cases,
  Bool-cases, inl, inr, arith,
}
use bonipam.Go.Map.{Map, get, get-delete, get-update_entries}
use bonipam.Go.Time.{Time}
use bonipam.Auth.Types.{RefreshTokenRecord, SessionRecord, AuthService, RevokeSessionsRequest}
use bonipam.Auth.Tokens.{
  revoke_sessions, revoke_all, drop_token, drop_tokens, is_revocable, revoke_visit,
}
use bonipam.Auth.Tracked.{IsTracked}
use bonipam.Auth.Kept.{revoke_one-IsTracked}

-- The loop only deletes tokens.
get-drop_tokens :
    (user_id : String) (sessions : Map SessionRecord) (tokens : Map RefreshTokenRecord)
    (hash : String) (entry : RefreshTokenRecord)
    → get (drop_tokens user_id sessions tokens) hash ≡ some entry
    → get tokens hash ≡ some entry
unfolding drop_tokens drop_token
get-drop_tokens user_id [] tokens hash entry h = h
get-drop_tokens user_id ((id, session) ∷ rest) tokens hash entry h = ground (
  arith,
  get-delete tokens session.refresh_token_hash hash,
  get-drop_tokens user_id rest
      (if is_revocable user_id session
        then drop_token tokens session.refresh_token_hash
        else tokens)
      hash entry h,
)

-- It deletes the token of every session that it revokes.
dropped :
    (user_id : String) (sessions : Map SessionRecord) (tokens : Map RefreshTokenRecord)
    (hash id : String) (entry : RefreshTokenRecord) (session : SessionRecord)
    → get (drop_tokens user_id sessions tokens) hash ≡ some entry
    → get sessions id ≡ some session
    → session.refresh_token_hash ≡ hash
    → (hash == "") ≡ false
    → is_revocable user_id session ≡ false
unfolding drop_tokens drop_token get
dropped user_id [] tokens hash id entry session h at same filled = ground arith
dropped user_id ((j, first) ∷ rest) tokens hash id entry session h at same filled =
    let tokens' =
      if is_revocable user_id first then drop_token tokens first.refresh_token_hash else tokens in
    elim (Bool-cases (j == id)) [
      | inr other ↦ dropped user_id rest tokens' hash id entry session h (ground arith) same filled
      | inl this ↦ ground (
        arith,
        eq_iff session.refresh_token_hash hash,
        get-delete tokens first.refresh_token_hash hash,
        get-drop_tokens user_id rest tokens' hash entry h,
      )
    ]

revoke_all-IsTracked :
    (s : AuthService) (user_id : String) (now : Time)
    → IsTracked s
    → IsTracked (revoke_all s user_id now).1
unfolding revoke_all revoke_visit
revoke_all-IsTracked s user_id now tracked hash entry h =
    let backed =
      tracked hash entry (get-drop_tokens user_id s.sessions s.refresh_tokens hash entry h) in
    record {
      session = backed.session;
      found = ground (
        arith,
        backed.found,
        get-update_entries (revoke_visit user_id now) s.sessions entry.session_id,
        dropped user_id s.sessions s.refresh_tokens hash entry.session_id entry backed.session h
            backed.found backed.same_hash backed.not_empty,
      );
      same_user = backed.same_user;
      same_hash = backed.same_hash;
      not_revoked = backed.not_revoked;
      not_empty = backed.not_empty;
    }

pub revoke_sessions-IsTracked :
    (s : AuthService) (req : RevokeSessionsRequest) (now : Time)
    → IsTracked s
    → IsTracked (revoke_sessions s req now).1
unfolding revoke_sessions
revoke_sessions-IsTracked s req now tracked = elim (Bool-cases (req.user_id == "")) [
  | inl empty ↦ rw (empty, revoke_sessions) tracked
  | inr user ↦ elim (Bool-cases (req.session_id == "")) [
    | inl every ↦ rw (user, every, revoke_sessions) (revoke_all-IsTracked s req.user_id now tracked)
    | inr one ↦ elim (Option-cases (get s.sessions req.session_id)) [
      | inl missing ↦ rw (user, one, missing, revoke_sessions) tracked
      | inr (session, at) ↦
          rw (user, one, at, revoke_sessions) (revoke_one-IsTracked s req session now at tracked)
    ]
  ]
]

-- Once a user's sessions are revoked without naming one, no refresh token is left that stands for
-- that user, if every token was backed by a session of its user before.
pub revoke_sessions-cuts_off :
    (s : AuthService) (req : RevokeSessionsRequest) (now : Time) (hash : String)
    (entry : RefreshTokenRecord)
    → IsTracked s
    → (req.user_id == "") ≡ false
    → (req.session_id == "") ≡ true
    → get (revoke_sessions s req now).1.refresh_tokens hash ≡ some entry
    → entry.user_id ≢ req.user_id
unfolding revoke_sessions revoke_all is_revocable
revoke_sessions-cuts_off s req now hash entry tracked user every h same =
    let h' : get (drop_tokens req.user_id s.sessions s.refresh_tokens) hash ≡ some entry =
      ground (arith, h) in
    let backed =
      tracked hash entry (get-drop_tokens req.user_id s.sessions s.refresh_tokens hash entry h') in
    ground (
      arith,
      backed.same_user,
      backed.not_revoked,
      eq_iff (backed.session).user_id req.user_id,
      dropped req.user_id s.sessions s.refresh_tokens hash entry.session_id entry backed.session h'
          backed.found backed.same_hash backed.not_empty,
    )

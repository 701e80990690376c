-- ===== src/Auth/Tracked.antt =====
-- Every refresh token stands for a session of its user that is not revoked and knows the token's hash,
-- and the operations of auth_service.go keep this.
use bonipam.Common.{
  String, true, false, ◌≡◌, refl, ◌==◌, eq_iff, none, some, Bool-cases, inl, inr, arith,
}
use bonipam.Go.Map.{Map, get, get-put, get-delete, put, delete}
use bonipam.Go.Time.{Time, add}
use bonipam.Auth.Types.{RefreshTokenRecord, SessionRecord, AuthService, Crypto, Draws}
use bonipam.Auth.Tokens.{
  store_session, new_session, new_refresh_record, hash_token, take_token, drop_expired,
  update_session,
}

-- The session of a refresh token.
pub record IsBacked (sessions : Map SessionRecord) (hash : String) (entry : RefreshTokenRecord)
    : Type 0 where
  pub session : SessionRecord
  pub found : get sessions entry.session_id ≡ some session
  pub same_user : session.user_id ≡ entry.user_id
  pub same_hash : session.refresh_token_hash ≡ hash
  pub not_revoked : session.revoked_at ≡ none
  pub not_empty : (hash == "") ≡ false

abbrev pub IsTracked : AuthService → Type 0
IsTracked s =
    (hash : String) (entry : RefreshTokenRecord)
    → get s.refresh_tokens hash ≡ some entry
    → IsBacked s.sessions hash entry

pub store_session-IsTracked :
    (crypto : Crypto) (s : AuthService) (user_id : String) (draws : Draws) (token : String)
    → get s.sessions draws.session_id ≡ none
    → (crypto.sha256_hex token == "") ≡ false
    → IsTracked s
    → IsTracked (store_session crypto s user_id draws token)
unfolding store_session new_session new_refresh_record hash_token
store_session-IsTracked crypto s user_id draws token fresh digest tracked hash entry h =
    let now = draws.now in
    let stored = new_session user_id (crypto.sha256_hex token) now in
    elim (Bool-cases (crypto.sha256_hex token == hash)) [
      | inl same ↦ record {
        session = stored;
        found = ground (
          arith,
          get-put s.refresh_tokens (crypto.sha256_hex token) hash (
              new_refresh_record user_id draws.session_id
                (add now s.token_config.refresh_token_ttl)),
          get-put s.sessions draws.session_id entry.session_id stored,
          eq_iff draws.session_id entry.session_id,
        );
        same_user = ground (
          arith,
          get-put s.refresh_tokens (crypto.sha256_hex token) hash (
              new_refresh_record user_id draws.session_id
                (add now s.token_config.refresh_token_ttl)),
        );
        same_hash = ground (arith, eq_iff (crypto.sha256_hex token) hash);
        not_revoked = refl;
        not_empty = ground (arith, digest, eq_iff (crypto.sha256_hex token) hash);
      }
      | inr other ↦
          let backed = tracked hash entry (
            ground (
              arith,
              get-put s.refresh_tokens (crypto.sha256_hex token) hash (
                  new_refresh_record user_id draws.session_id
                    (add now s.token_config.refresh_token_ttl)),
            )) in
          record {
            session = backed.session;
            found = ground (
              arith,
              backed.found,
              get-put s.sessions draws.session_id entry.session_id stored,
              eq_iff draws.session_id entry.session_id,
            );
            same_user = backed.same_user;
            same_hash = backed.same_hash;
            not_revoked = backed.not_revoked;
            not_empty = backed.not_empty;
          }
    ]

-- A token other than `hash` does not stand for the session that `hash` belongs to: the session may
-- change.
pub change-IsTracked :
    (s : AuthService) (hash id : String) (session session' : SessionRecord)
    → get s.sessions id ≡ some session
    → session.refresh_token_hash ≡ hash
    → IsTracked s
    → IsTracked (record s {
      refresh_tokens = delete s.refresh_tokens hash;
      sessions = put s.sessions id session';
    })
change-IsTracked s hash id session session' at same tracked other entry h =
    let backed = tracked other entry (ground (arith, get-delete s.refresh_tokens hash other)) in
    record {
      session = backed.session;
      found = ground (
        arith,
        backed.found,
        backed.same_hash,
        get-delete s.refresh_tokens hash other,
        get-put s.sessions id entry.session_id session',
        eq_iff id entry.session_id,
        eq_iff hash other,
      );
      same_user = backed.same_user;
      same_hash = backed.same_hash;
      not_revoked = backed.not_revoked;
      not_empty = backed.not_empty;
    }

-- No token stands for a session without a hash: it may change too.
pub unused-IsTracked :
    (s : AuthService) (id : String) (session session' : SessionRecord)
    → get s.sessions id ≡ some session
    → (session.refresh_token_hash == "") ≡ true
    → IsTracked s
    → IsTracked (record s { sessions = put s.sessions id session' })
unused-IsTracked s id session session' at empty tracked hash entry h =
    let backed = tracked hash entry h in
    record {
      session = backed.session;
      found = ground (
        arith,
        backed.found,
        backed.same_hash,
        backed.not_empty,
        get-put s.sessions id entry.session_id session',
        eq_iff id entry.session_id,
        eq_iff hash "",
      );
      same_user = backed.same_user;
      same_hash = backed.same_hash;
      not_revoked = backed.not_revoked;
      not_empty = backed.not_empty;
    }

pub take_token-IsTracked :
    (s : AuthService) (hash : String) (entry : RefreshTokenRecord)
    → get s.refresh_tokens hash ≡ some entry
    → IsTracked s
    → IsTracked (take_token s hash entry)
unfolding take_token update_session
take_token-IsTracked s hash entry at tracked =
    let backed = tracked hash entry at in
    rw (backed.found, update_session)
      (change-IsTracked s hash entry.session_id backed.session
        (record (backed.session) { refresh_token_hash = "" }) backed.found backed.same_hash tracked)

pub drop_expired-IsTracked :
    (s : AuthService) (hash : String) (entry : RefreshTokenRecord) (now : Time)
    → get s.refresh_tokens hash ≡ some entry
    → IsTracked s
    → IsTracked (drop_expired s hash entry now)
unfolding drop_expired update_session
drop_expired-IsTracked s hash entry now at tracked =
    let backed = tracked hash entry at in
    rw (backed.found, update_session)
      (change-IsTracked s hash entry.session_id backed.session
        (record (backed.session) { revoked_at = some now }) backed.found backed.same_hash tracked)

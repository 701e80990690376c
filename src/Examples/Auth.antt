-- ===== src/Examples/Auth.antt =====
-- Sessions and challenges (backend/internal/service/auth_service.go), and what the theorems say of
-- them.
use Prim.Native.String.{char_at}
use Prim.Native.String as Text
use bonipam.Common.{
  String, Bool, ◌≡◌, ◌≢◌, ◌↔◌, refl, true, false, ◌&&◌, ◌||◌, not, Option, none, some, List, [],
  ◌∷◌, ok, err, ◌==◌, is_some, is_ok, arith, ap, Bool-cases, inl, inr, eq_iff, if◌then◌else◌,
}
use bonipam.Common.Int.{pos}
use bonipam.Go.Map.{get, put}
use bonipam.Go.Time.{after, add}
use bonipam.Examples.{differ}
use bonipam.Auth.Types.{
  MfaChallenge, RefreshTokenRecord, SessionRecord, AuthTokenConfig, AuthService, AuthSession,
  RevokeSessionsRequest, Crypto, Draws, invalid_refresh_token, LoginRequest,
}
use bonipam.Auth.Tokens.{refresh_token, revoke_sessions, new_refresh_record}
use bonipam.Auth.Tracked.{IsBacked, IsTracked}
use bonipam.Auth.Revocation.{revoke_sessions-cuts_off}
use bonipam.Auth.Runs.{here, next, refresh, Reach-IsTracked}
use bonipam.Auth.Service.{login, find_by_email}
use bonipam.Auth.SignIn.{login-finds_user}
use bonipam.Examples.Users.{staff}
use bonipam.Users.Types.{User}
use bonipam.Users.Service.{list_users, is_deleted}
use bonipam.Auth.Rotation.{refresh_token-rotates}

-- A digest that puts a character in front, and a signature that is the id of the session.
abbrev pub crypto : Crypto
crypto = record {
  sha256_hex = λ token. Text.◌∷◌ (char_at "h" 0) token;
  sign_hs256 = λ claims key. some claims.jti;
}

is_empty : String → Bool
is_empty Text.[] = true
is_empty (Text.◌∷◌ c s) = false

digest-nonempty : (token : String) → (crypto.sha256_hex token == "") ≡ false
unfolding is_empty
digest-nonempty token = elim (Bool-cases (crypto.sha256_hex token == "")) [
  | inr filled ↦ filled
  | inl empty ↦ absurd (cc (ap is_empty ((eq_iff (crypto.sha256_hex token) "").0 empty)))
]

abbrev config : AuthTokenConfig
config = record {
  issuer = "boni-pam-auth";
  signing_key = "key";
  access_token_ttl = pos 900;
  refresh_token_ttl = pos 86400;
  require_strong_key = false;
}

abbrev pub totp_challenge : MfaChallenge
totp_challenge = record {
  challenge_id = "mfa-1";
  user_id = "usr-2";
  method = "totp";
  code = "123456";
  webauthn_challenge = "";
  expires_at = pos 300;
}

abbrev pub signed_in : AuthService
signed_in = record {
  challenges = ("mfa-1", totp_challenge) ∷ [];
  refresh_tokens =
      ("htoken", record { user_id = "usr-1"; session_id = "s1"; expires_at = pos 500 }) ∷ [];
  sessions =
      (
        "s1",
        record {
          user_id = "usr-1";
          refresh_token_hash = "htoken";
          issued_at = pos 1;
          revoked_at = none;
        },
      )
      ∷ [];
  token_config = config;
  user_sync = record { users = [] };
}

-- A session that is not revoked, and its refresh token.
abbrev session_of : String → String → SessionRecord
session_of user_id hash = record {
  user_id = user_id;
  refresh_token_hash = hash;
  issued_at = pos 1;
  revoked_at = none;
}

abbrev token_of : String → String → RefreshTokenRecord
token_of user_id session_id = record {
  user_id = user_id;
  session_id = session_id;
  expires_at = pos 500;
}

signed_in-IsTracked : IsTracked signed_in
unfolding get
signed_in-IsTracked hash entry h =
    let key : hash ≡ "htoken" = ground (arith, eq_iff "htoken" hash) in
    let same : entry ≡ token_of "usr-1" "s1" = ground (arith, eq_iff "htoken" hash) in
    let backed : IsBacked signed_in.sessions "htoken" (token_of "usr-1" "s1") = record {
      session = session_of "usr-1" "htoken";
      found = refl;
      same_user = refl;
      same_hash = refl;
      not_revoked = refl;
      not_empty = refl;
    } in
    rw (key, same) backed

abbrev pub draws : Draws
draws = record { now = pos 100; session_id = "s2"; refresh_token = some "fresh" }

abbrev pub next_draws : Draws
next_draws = record { now = pos 101; session_id = "s3"; refresh_token = some "fresh2" }

Reach-IsTracked_example :
    IsTracked (refresh_token crypto signed_in "token" (pos 99) (pos 99) draws).1
unfolding get
Reach-IsTracked_example =
    Reach-IsTracked crypto digest-nonempty {s = signed_in}
      (next here (refresh "token" (pos 99) (pos 99) draws refl)) signed_in-IsTracked

-- Of two users' tokens the one of the user whose sessions are revoked is gone.
abbrev both_signed_in : AuthService
both_signed_in = record signed_in {
  refresh_tokens = ("htoken", token_of "usr-1" "s1") ∷ ("hother", token_of "usr-2" "s2") ∷ [];
  sessions = ("s1", session_of "usr-1" "htoken") ∷ ("s2", session_of "usr-2" "hother") ∷ [];
}

both_signed_in-IsTracked : IsTracked both_signed_in
unfolding get
both_signed_in-IsTracked hash entry h = elim (Bool-cases ("htoken" == hash)) [
  | inl first ↦
      let key : hash ≡ "htoken" = ground (arith, eq_iff "htoken" hash) in
      let same : entry ≡ token_of "usr-1" "s1" = ground arith in
      let backed : IsBacked both_signed_in.sessions "htoken" (token_of "usr-1" "s1") = record {
        session = session_of "usr-1" "htoken";
        found = refl;
        same_user = refl;
        same_hash = refl;
        not_revoked = refl;
        not_empty = refl;
      } in
      rw (key, same) backed
  | inr other ↦
      let key : hash ≡ "hother" = ground (arith, eq_iff "hother" hash) in
      let same : entry ≡ token_of "usr-2" "s2" = ground (arith, eq_iff "hother" hash) in
      let backed : IsBacked both_signed_in.sessions "hother" (token_of "usr-2" "s2") = record {
        session = session_of "usr-2" "hother";
        found = refl;
        same_user = refl;
        same_hash = refl;
        not_revoked = refl;
        not_empty = refl;
      } in
      rw (key, same) backed
]

abbrev revoke_usr_1 : RevokeSessionsRequest
revoke_usr_1 = record { user_id = "usr-1"; session_id = "" }

revoke_sessions-cuts_off_example : ◌≢◌ {A = String} "usr-2" "usr-1"
unfolding get revoke_sessions bonipam.Auth.Tokens.revoke_all bonipam.Auth.Tokens.drop_tokens
    bonipam.Auth.Tokens.is_revocable bonipam.Auth.Tokens.drop_token bonipam.Go.Map.delete
revoke_sessions-cuts_off_example =
    revoke_sessions-cuts_off both_signed_in revoke_usr_1 (pos 50) "hother"
      (record { user_id = "usr-2"; session_id = "s2"; expires_at = pos 500 })
      both_signed_in-IsTracked refl refl refl

abbrev refreshed_session : AuthSession
refreshed_session = record {
  user_id = "usr-1";
  access_token = "s2";
  refresh_token = "fresh";
  expires_at = pos 1000;
}

refresh_token-rotates_example :
    ((entry : RefreshTokenRecord) × (get signed_in.refresh_tokens "htoken" ≡ some entry)
      × (entry.user_id ≡ "usr-1")
      × (after (pos 99) entry.expires_at ≡ false))
    × (get
          (refresh_token crypto signed_in "token" (pos 99) (pos 99) draws).1.refresh_tokens
          "hfresh"
        ≡ some (record {
          user_id = "usr-1";
          session_id = "s2";
          expires_at = add (pos 100) (pos 86400);
        }))
    × ((refresh_token crypto
          (refresh_token crypto signed_in "token" (pos 99) (pos 99) draws).1
          "fresh"
          (pos 110)
          (pos 110)
          next_draws).0
        ≡ ok (record {
          user_id = "usr-1";
          access_token = "s3";
          refresh_token = "fresh2";
          expires_at = add (pos 101) (pos 900);
        }))
    × ((refresh_token crypto
          (refresh_token crypto signed_in "token" (pos 99) (pos 99) draws).1
          "token"
          (pos 110)
          (pos 110)
          next_draws).0
        ≡ err invalid_refresh_token)
unfolding refresh_token get bonipam.Auth.Tokens.hash_token bonipam.Auth.Tokens.issue_session
    bonipam.Auth.Tokens.session_claims bonipam.Common.Int.◌+ℤ◌ bonipam.Auth.Tokens.take_token
refresh_token-rotates_example =
    refresh_token-rotates crypto signed_in "token" "fresh2" "s3" (pos 99) (pos 99) draws
      refreshed_session (pos 110) (pos 110) next_draws refl (differ "hfresh" "htoken" refl) refl
      refl refl refl

abbrev ann_signs_in : LoginRequest
ann_signs_in = record { email = "ann@example.com"; password = "secret" }

login-finds_user_example :
    (u : User) × (find_by_email (list_users staff false) "ann@example.com" ≡ some u)
    × (u.email ≡ "ann@example.com")
    × (is_deleted u ≡ false)
    × ("usr-1" ≡ u.id)
    × (("secret" == "") ≡ false)
    × ((not (u.email == "admin@bonipam.local") || "secret" == "admin123") ≡ true)
unfolding login find_by_email list_users bonipam.Go.Sort.sort_slice bonipam.Go.Map.values
    bonipam.Users.Service.created_before bonipam.Auth.Tokens.issue_session
    bonipam.Auth.Tokens.session_claims bonipam.Common.Int.◌+ℤ◌
login-finds_user_example =
    login-finds_user crypto signed_in ann_signs_in staff draws refreshed_session refl

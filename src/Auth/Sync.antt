-- ===== src/Auth/Sync.antt =====
-- The scaffold of the identity provider (backend/internal/service/user_sync_service.go).
use Prim.Native.String.{◌++◌ as append, slice}
use bonipam.Common.{
  ℕ, String, ◌||◌, some, List, [], ◌∷◌, ◌==◌, if◌then◌else◌, nat_eq, Result, ok, err,
}
use bonipam.Common.Lists.{length}
use bonipam.Go.Map.{put, update_entries, count_updates}
use bonipam.Go.Time.{Time}
use bonipam.Auth.Types.{SyncedUser, UserSyncService, AuthError, missing_oidc_payload, Crypto}

module _ (crypto : Crypto) where
  unfoldable pub stable_id : String → String
  stable_id value = append "idp-" (slice (crypto.sha256_hex value) 0 20)

  -- The profile that SyncUserOnLogin stores.
  unfoldable pub login_profile : String → Time → SyncedUser
  login_profile external_id now = record {
    user_id = append "user-" external_id;
    external_id = external_id;
    email = append external_id "@idp.example.com";
    display_name = append "User " (slice external_id 0 8);
    groups = "pam-users" ∷ "engineering" ∷ [];
    last_synced_at = now;
  }

  unfoldable pub sync_user_on_login :
      UserSyncService → String → String → Time → Result AuthError String × UserSyncService
  sync_user_on_login s code state now =
      if code == "" || state == ""
      then (err missing_oidc_payload, s)
      else let external_id = stable_id (append code (append ":" state)) in
        (
          ok (append "user-" external_id),
          record s { users = put s.users external_id (login_profile external_id now) },
        )

unfoldable pub seed_user : String → String → String → List String → Time → SyncedUser
seed_user external_id email name groups now = record {
  user_id = append "user-" external_id;
  external_id = external_id;
  email = email;
  display_name = name;
  groups = groups;
  last_synced_at = now;
}

-- An empty directory gets two users; else every user gets the time of the synchronization.
unfoldable pub sync_all_users : UserSyncService → Time → ℕ × UserSyncService
sync_all_users s now =
    if nat_eq (length s.users) 0
    then (
      2,
      record s {
        users =
            put
              (put s.users "idp-seed001" (
                seed_user "idp-seed001" "seed001@idp.example.com" "Seed User 001" ("pam-users" ∷ [])
                  now))
              "idp-seed002"
              (seed_user "idp-seed002" "seed002@idp.example.com" "Seed User 002"
                ("pam-users" ∷ "security" ∷ []) now);
      },
    )
    else let visit = λ (_ : String) (u : SyncedUser). some (record u { last_synced_at = now }) in
      (count_updates visit s.users, record s { users = update_entries visit s.users })

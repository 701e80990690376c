-- ===== src/Examples/Vault.antt =====
-- A vault with a secret, a lease and two rotation policies (backend/internal/service/vault_service.go), and
-- what the theorems say of them.
use bonipam.Common.{
  ◌≡◌, ◌≢◌, refl, true, false, ◌&&◌, none, some, [], ◌∷◌, ok, ◌==◌, if◌then◌else◌, arith,
}
use bonipam.Common.Int.{pos}
use bonipam.Go.Map.{get, put}
use bonipam.Go.Text.{trim_space, equal_fold}
use bonipam.Examples.{differ}
use bonipam.Examples.Ciphers.{ciphers, ciphers-IsSound, digest, provider, kms}
use bonipam.Vault.Types.{
  CreateSecretRequest, CreateSecretResponse, CredentialLeaseRecord, VaultService, active,
}
use bonipam.Vault.Wrapping.{local_kms-Unwraps}
use bonipam.Vault.Secrets.{SecretDraws, store_secret, get_secret}
use bonipam.Vault.Envelope.{get_secret-store_secret}
use bonipam.Vault.Leases.{lease_status, revoke_lease, revoke_leases_by_target}
use bonipam.Vault.Kept.{LeaseFollows}
use bonipam.Vault.Runs.{Step, Reach, Reach-stays_inactive}
use bonipam.Vault.Revoked.{revoke_leases_by_target-exact}

abbrev empty_vault : VaultService
empty_vault = record { secrets = []; leases = []; rotation_policies = []; kek_version = "v1" }

abbrev password_request : CreateSecretRequest
password_request = record { name = " db-root "; value = " s3cret "; metadata = [] }

abbrev secret_draws : SecretDraws
secret_draws = record { dek = some (1 ∷ 2 ∷ []); nonce = some (9 ∷ []); id = "1"; now = pos 5 }

abbrev password_response : CreateSecretResponse
password_response = record {
  id = "sec-1";
  name = "db-root";
  metadata = [];
  kek_version = "v1";
  created_at = pos 5;
}

get_secret-store_secret_example :
    get_secret ciphers kms
      (store_secret ciphers kms empty_vault password_request secret_draws).1
      "sec-1"
    ≡ (if "sec-1" == "sec-1"
        then ok (record {
          id = "sec-1";
          name = trim_space " db-root ";
          value = trim_space " s3cret ";
          metadata = [];
          kek_version = "v1";
          created_at = pos 5;
          updated_at = pos 5;
        })
        else get_secret ciphers kms empty_vault "sec-1")
unfolding store_secret trim_space bonipam.Vault.Secrets.encrypt_with_envelope
    bonipam.Vault.Secrets.seal_envelope bonipam.Vault.Kms.local_wrap_key
    bonipam.Vault.Secrets.insert_secret bonipam.Go.Map.any_entry bonipam.Vault.Secrets.new_secret
get_secret-store_secret_example =
    get_secret-store_secret ciphers kms ciphers-IsSound (local_kms-Unwraps digest provider)
      empty_vault password_request secret_draws password_response "sec-1" refl

abbrev db_lease : CredentialLeaseRecord
db_lease = record {
  lease_id = "lease-1";
  target_type = "database";
  target_id = "Orders";
  username = "jit-database-abc";
  password = "pw";
  role = "reader";
  metadata = [];
  issued_at = pos 0;
  expires_at = pos 900;
  revoked = false;
  revoked_at = none;
  revoke_reason = "";
  lease_seconds = pos 900;
}

abbrev leased : VaultService
leased = record {
  secrets = [];
  leases = ("lease-1", db_lease) ∷ [];
  rotation_policies = [];
  kek_version = "v1";
}

Reach-stays_inactive_example :
    (l' : CredentialLeaseRecord) × (get
        (revoke_lease leased "lease-1" "done" (pos 1000)).1.leases
        "lease-1"
      ≡ some l')
    × LeaseFollows db_lease l'
    × (lease_status l' (pos 2000) ≢ active)
unfolding get lease_status
Reach-stays_inactive_example =
    Reach-stays_inactive ciphers kms "lease-1" db_lease (pos 950) (pos 2000)
      (Reach.next Reach.here (Step.revoke "lease-1" "done" (pos 1000))) refl (ground arith)
      (λ live. ground arith)

revoke_leases_by_target-exact_example :
    (get (revoke_leases_by_target leased " orders" "left" (pos 7)).1.leases "lease-1"
      ≡ some (
          if equal_fold "Orders" (trim_space " orders") && true
          then record db_lease {
            revoked = true;
            revoked_at = some (pos 7);
            revoke_reason = trim_space "left";
          }
          else db_lease))
    × ((revoke_leases_by_target
          (revoke_leases_by_target leased " orders" "left" (pos 7)).1
          " orders"
          "again"
          (pos 8)).0
        ≡ ok (record { revoked = 0; target_id = trim_space " orders" }))
unfolding trim_space get
revoke_leases_by_target-exact_example =
    revoke_leases_by_target-exact leased " orders" "left" "again" (pos 7) (pos 8) "lease-1" db_lease
      (differ (trim_space " orders") "" refl) refl

-- ===== src/Vault/Types.antt =====
-- The state of the vault, its requests, responses and errors (vault_service.go,
-- backend/internal/domain/vault.go), and what it takes from crypto/aes, crypto/cipher and
-- encoding/base64.
use bonipam.Common.{ℕ, String, Bool, Option, List}
use bonipam.Common.Int.{ℤ}
use bonipam.Go.Map.{Map}
use bonipam.Go.Time.{Time}

-- A []byte.
abbrev pub Bytes : Type 0
Bytes = List ℕ

pub record SecretRecord : Type 0 where
  pub id : String
  pub name : String
  pub metadata : Map String
  pub ciphertext : String
  pub wrapped_dek : String
  pub nonce : String
  pub kek_version : String
  pub created_at : Time
  pub updated_at : Time

pub record CreateSecretRequest : Type 0 where
  pub name : String
  pub value : String
  pub metadata : Map String

pub record CreateSecretResponse : Type 0 where
  pub id : String
  pub name : String
  pub metadata : Map String
  pub kek_version : String
  pub created_at : Time

pub record GetSecretResponse : Type 0 where
  pub id : String
  pub name : String
  pub value : String
  pub metadata : Map String
  pub kek_version : String
  pub created_at : Time
  pub updated_at : Time

pub record IssueCredentialRequest : Type 0 where
  pub target_type : String
  pub target_id : String
  pub role : String
  pub ttl_seconds : ℤ
  pub metadata : Map String

pub record IssueCredentialResponse : Type 0 where
  pub lease_id : String
  pub target_type : String
  pub target_id : String
  pub username : String
  pub password : String
  pub role : String
  pub metadata : Map String
  pub issued_at : Time
  pub expires_at : Time
  pub revoked : Bool
  pub lease_seconds : ℤ

pub record CredentialLeaseRecord : Type 0 where
  pub lease_id : String
  pub target_type : String
  pub target_id : String
  pub username : String
  pub password : String
  pub role : String
  pub metadata : Map String
  pub issued_at : Time
  pub expires_at : Time
  pub revoked : Bool
  pub revoked_at : Option Time
  pub revoke_reason : String
  pub lease_seconds : ℤ

pub data LeaseStatus : Type 0 where
  active expired revoked_status : LeaseStatus

pub record LeaseStatusResponse : Type 0 where
  pub lease_id : String
  pub target_type : String
  pub target_id : String
  pub username : String
  pub role : String
  pub metadata : Map String
  pub issued_at : Time
  pub expires_at : Time
  pub status : LeaseStatus
  pub revoked : Bool
  pub revoked_at : Option Time
  pub revoke_reason : String
  pub lease_seconds : ℤ

pub record BulkRevokeResult : Type 0 where
  pub revoked : ℕ
  pub target_id : String

pub record RotationPolicy : Type 0 where
  pub policy_id : String
  pub target_type : String
  pub target_id : String
  pub role : String
  pub interval_seconds : ℤ
  pub ttl_seconds : ℤ
  pub metadata : Map String
  pub enabled : Bool
  pub created_at : Time
  pub updated_at : Time
  pub last_rotated_at : Option Time
  pub next_rotation_at : Time

pub record CreateRotationPolicyRequest : Type 0 where
  pub target_type : String
  pub target_id : String
  pub role : String
  pub interval_seconds : ℤ
  pub ttl_seconds : ℤ
  pub metadata : Map String

pub record RotationPolicyResponse : Type 0 where
  pub policy_id : String
  pub target_type : String
  pub target_id : String
  pub role : String
  pub interval_seconds : ℤ
  pub ttl_seconds : ℤ
  pub metadata : Map String
  pub enabled : Bool
  pub created_at : Time
  pub updated_at : Time
  pub last_rotated_at : Option Time
  pub next_rotation_at : Time

pub record RotationResult : Type 0 where
  pub policy_id : String
  pub lease_id : String
  pub username : String
  pub rotated_at : Time
  pub expires_at : Time

pub record KmsAdapterInfo : Type 0 where
  pub provider : String
  pub key_id : String
  pub kek_version : String
  pub endpoint : String

-- The errors of kms_provider.go.
pub data KmsError : Type 0 where
  master_key_required master_key_short dek_empty wrapped_key_empty : KmsError
  not_implemented : String → KmsError

-- The errors of vault_service.go, one for each message.
pub data VaultError : Type 0 where
  vault_key_required vault_key_short : VaultError
  kms_not_initialized : KmsError → VaultError
  target_fields_required unsupported_target_type ttl_out_of_range : VaultError
  credential_generation_failed lease_not_found lease_already_revoked target_id_required : VaultError
  interval_too_short rotation_policy_exists rotation_policy_not_found : VaultError
  rotation_policy_disabled : VaultError
  rotation_failed : VaultError → VaultError
  name_and_value_required secret_name_exists secret_not_found : VaultError
  data_key_failed cipher_failed gcm_failed nonce_failed : VaultError
  wrap_failed unwrap_failed : KmsError → VaultError
  ciphertext_encoding dek_encoding nonce_encoding decryption_failed : VaultError

-- The key provider that `kmsProvider` holds is an argument of the operations that use it.
pub record VaultService : Type 0 where
  pub secrets : Map SecretRecord
  pub leases : Map CredentialLeaseRecord
  pub rotation_policies : Map RotationPolicy
  pub kek_version : String

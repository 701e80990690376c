-- ===== src/Http/Vault.antt =====
-- The handlers of the vault (backend/internal/transport/http/vault_handler.go). What ShouldBindJSON makes of
-- a body is an argument, `none` where it returns an error; `cause` is the text of an error of another library
-- that a message ends with.
use bonipam.Common.{ℕ, String, Option, none, some, ◌==◌, if◌then◌else◌, Result, ok, err}
use bonipam.Go.Time.{Time}
use bonipam.Vault.Types.{
  KmsError, master_key_required, master_key_short, dek_empty, wrapped_key_empty, not_implemented,
  CreateSecretRequest, CreateSecretResponse, GetSecretResponse, IssueCredentialRequest,
  IssueCredentialResponse, LeaseStatusResponse, BulkRevokeResult, CreateRotationPolicyRequest,
  RotationPolicyResponse, RotationResult, KmsAdapterInfo, VaultService, VaultError,
  vault_key_required, vault_key_short, kms_not_initialized, target_fields_required,
  unsupported_target_type, ttl_out_of_range, credential_generation_failed, lease_not_found,
  lease_already_revoked, target_id_required, interval_too_short, rotation_policy_exists,
  rotation_policy_not_found, rotation_policy_disabled, rotation_failed, name_and_value_required,
  secret_name_exists, secret_not_found, data_key_failed, cipher_failed, gcm_failed, nonce_failed,
  wrap_failed, unwrap_failed, ciphertext_encoding, dek_encoding, nonce_encoding, decryption_failed,
}
use bonipam.Vault.Kms.{KmsProvider}
use bonipam.Vault.Secrets.{Ciphers, SecretDraws, kms_info, store_secret, get_secret}
use bonipam.Vault.Leases.{
  IssueDraws, issue_credential, get_lease_status, revoke_lease, revoke_leases_by_target,
}
use bonipam.Vault.Rotation.{create_rotation_policy, get_rotation_policy, trigger_rotation}
use bonipam.Http.Response.{Reply, respond_ok, respond_error}
use bonipam.Http.Gateway.{followed_by}

unfoldable pub kms_message : KmsError → String
kms_message master_key_required = "master key is required"
kms_message master_key_short = "master key must be at least 16 characters"
kms_message dek_empty = "dek must not be empty"
kms_message wrapped_key_empty = "wrapped key must not be empty"
kms_message (not_implemented provider) =
    followed_by "remote KMS adapter not yet configured: provider=" provider

-- err.Error()
unfoldable pub vault_message : String → VaultError → String
vault_message cause vault_key_required = "vault master key is required"
vault_message cause vault_key_short = "vault master key must be at least 16 characters"
vault_message cause (kms_not_initialized e) =
    followed_by "failed to initialize KMS provider: " (kms_message e)
vault_message cause target_fields_required = "target_type, target_id, and role are required"
vault_message cause unsupported_target_type = "unsupported target type"
vault_message cause ttl_out_of_range = "ttl_seconds must be between 60 and 86400"
vault_message cause credential_generation_failed = "failed to generate credential secret"
vault_message cause lease_not_found = "lease not found"
vault_message cause lease_already_revoked = "lease already revoked"
vault_message cause target_id_required = "target_id is required"
vault_message cause interval_too_short = "interval_seconds must be at least 60"
vault_message cause rotation_policy_exists =
    "rotation policy already exists for this target and role"
vault_message cause rotation_policy_not_found = "rotation policy not found"
vault_message cause rotation_policy_disabled = "rotation policy is disabled"
vault_message cause (rotation_failed e) =
    followed_by "failed to rotate credential: " (vault_message cause e)
vault_message cause name_and_value_required = "name and value are required"
vault_message cause secret_name_exists = "secret name already exists"
vault_message cause secret_not_found = "secret not found"
vault_message cause data_key_failed = followed_by "failed to generate data key: " cause
vault_message cause cipher_failed = followed_by "failed to create cipher: " cause
vault_message cause gcm_failed = followed_by "failed to create gcm: " cause
vault_message cause nonce_failed = followed_by "failed to generate nonce: " cause
vault_message cause (wrap_failed e) = followed_by "failed to wrap data key: " (kms_message e)
vault_message cause (unwrap_failed e) = followed_by "failed to unwrap data key: " (kms_message e)
vault_message cause ciphertext_encoding = followed_by "failed to decode ciphertext: " cause
vault_message cause dek_encoding = followed_by "failed to decode wrapped dek: " cause
vault_message cause nonce_encoding = followed_by "failed to decode nonce: " cause
vault_message cause decryption_failed = "failed to decrypt secret"

-- The reply to a result of which every error has one status and code.
unfoldable pub reply_to :
    {A : Type 0} → String → String → ℕ → ℕ → String → Result VaultError A → Reply A
reply_to cause request_id good bad code (ok result) = respond_ok request_id good result
reply_to cause request_id good bad code (err e) =
    respond_error request_id bad code (vault_message cause e)

-- The reply to a result of which one error, known by its message, has a code of its own.
unfoldable pub reply_unless :
    {A : Type 0}
    → String
    → String
    → ℕ
    → String
    → ℕ
    → String
    → String
    → Result VaultError A
    → Reply A
reply_unless cause request_id good special status special_code code (ok result) =
    respond_ok request_id good result
reply_unless cause request_id good special status special_code code (err e) =
    if vault_message cause e == special
    then respond_error request_id status special_code (vault_message cause e)
    else respond_error request_id 400 code (vault_message cause e)

module _ (c : Ciphers) (kms : KmsProvider) (s : VaultService) (cause request_id : String) where
  unfoldable pub handle_kms_info : Reply KmsAdapterInfo
  handle_kms_info = respond_ok request_id 200 (kms_info c kms)

  unfoldable pub handle_store_secret :
      Option CreateSecretRequest → SecretDraws → Reply CreateSecretResponse × VaultService
  handle_store_secret none draws =
      (respond_error request_id 400 "BAD_REQUEST" "invalid create secret request", s)
  handle_store_secret (some req) draws =
      let (result, s') = store_secret c kms s req draws in
      (reply_to cause request_id 201 400 "SECRET_STORE_FAILED" result, s')

  unfoldable pub handle_get_secret : String → Reply GetSecretResponse
  handle_get_secret secret_id =
      reply_to cause request_id 200 404 "SECRET_NOT_FOUND" (get_secret c kms s secret_id)

  unfoldable pub handle_issue_credential :
      Option IssueCredentialRequest → IssueDraws → Reply IssueCredentialResponse × VaultService
  handle_issue_credential none draws =
      (respond_error request_id 400 "BAD_REQUEST" "invalid issue credential request", s)
  handle_issue_credential (some req) draws =
      let (result, s') = issue_credential s req draws in
      (
        reply_unless cause request_id 201 "unsupported target type" 400 "UNSUPPORTED_TARGET_TYPE"
            "CREDENTIAL_ISSUE_FAILED" result,
        s',
      )

  unfoldable pub handle_get_lease_status : String → Time → Reply LeaseStatusResponse
  handle_get_lease_status lease_id now =
      reply_to cause request_id 200 404 "LEASE_NOT_FOUND" (get_lease_status s lease_id now)

  -- The payload {"revoked": true} is the unit value. A body that does not parse leaves no reason.
  unfoldable pub handle_revoke_lease : String → Option String → Time → Reply Unit × VaultService
  handle_revoke_lease lease_id body now =
      let reason : String = elim body [ none ↦ "" | some reason ↦ reason ] in
      let (result, s') = revoke_lease s lease_id reason now in
      (
        reply_unless cause request_id 200 "lease not found" 404 "LEASE_NOT_FOUND"
            "LEASE_REVOKE_FAILED" result,
        s',
      )

  -- The body holds a target and a reason.
  unfoldable pub handle_revoke_leases_by_target :
      Option (String × String) → Time → Reply BulkRevokeResult × VaultService
  handle_revoke_leases_by_target none now =
      (respond_error request_id 400 "BAD_REQUEST" "invalid revoke-by-target request", s)
  handle_revoke_leases_by_target (some (target_id, reason)) now =
      let (result, s') = revoke_leases_by_target s target_id reason now in
      (reply_to cause request_id 200 400 "BULK_REVOKE_FAILED" result, s')

  unfoldable pub handle_create_rotation_policy :
      Option CreateRotationPolicyRequest
      → String
      → Time
      → Reply RotationPolicyResponse × VaultService
  handle_create_rotation_policy none id now =
      (respond_error request_id 400 "BAD_REQUEST" "invalid create rotation policy request", s)
  handle_create_rotation_policy (some req) id now =
      let (result, s') = create_rotation_policy s req id now in
      (
        reply_unless cause request_id 201 "unsupported target type" 400 "UNSUPPORTED_TARGET_TYPE"
            "ROTATION_POLICY_CREATE_FAILED" result,
        s',
      )

  unfoldable pub handle_get_rotation_policy : String → Reply RotationPolicyResponse
  handle_get_rotation_policy policy_id =
      reply_to cause request_id 200 404 "ROTATION_POLICY_NOT_FOUND"
        (get_rotation_policy s policy_id)

  unfoldable pub handle_trigger_rotation :
      String → IssueDraws → Time → Reply RotationResult × VaultService
  handle_trigger_rotation policy_id draws now =
      let (result, s') = trigger_rotation s policy_id draws now in
      (
        reply_unless cause request_id 200 "rotation policy not found" 404
            "ROTATION_POLICY_NOT_FOUND" "ROTATION_TRIGGER_FAILED" result,
        s',
      )

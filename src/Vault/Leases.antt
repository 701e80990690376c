-- ===== src/Vault/Leases.antt =====
-- Leases of credentials (vault_service.go: IssueCredential, GetLeaseStatus, RevokeLease and
-- RevokeLeasesByTarget).
use Prim.Native.String.{◌++◌ as append}
use bonipam.Common.{
  String, Bool, true, false, ◌||◌, ◌&&◌, not, Option, none, some, ◌==◌, if◌then◌else◌, Result, ok,
  err,
}
use bonipam.Common.Int.{ℤ, pos, ltb_ℤ, eq_ℤ, seconds}
use bonipam.Go.Map.{Map, get, put, update_entries, count_updates}
use bonipam.Go.Text.{trim_space, to_lower, equal_fold}
use bonipam.Go.Time.{Time, after, add}
use bonipam.Vault.Types.{
  IssueCredentialRequest, IssueCredentialResponse, CredentialLeaseRecord, LeaseStatus, active,
  expired, revoked_status, LeaseStatusResponse, BulkRevokeResult, VaultError,
  target_fields_required, unsupported_target_type, ttl_out_of_range, credential_generation_failed,
  lease_not_found, lease_already_revoked, target_id_required, VaultService,
}
use bonipam.Vault.Random.{Rolls, random_password, short_token, normalize_for_credential}

abbrev pub Outcome : Type 0 → Type 0
Outcome A = Result VaultError A × VaultService

-- What IssueCredential draws: the rolls of the username's token and of the password, the uuid that
-- stands in for the token, the time, and the uuid of the lease.
pub record IssueDraws : Type 0 where
  pub token_rolls : Rolls
  pub token_uuid : String
  pub password_rolls : Rolls
  pub now : Time
  pub lease_uuid : String

unfoldable pub is_supported_target_type : String → Bool
is_supported_target_type target_type =
    target_type == "database" || target_type == "ssh" || target_type == "api"

abbrev pub out_of_range : ℤ → Bool
out_of_range ttl = ltb_ℤ ttl (pos 60) || ltb_ℤ (pos 86400) ttl

unfoldable pub new_username : String → IssueDraws → String
new_username target_type draws = append "jit-" (
    append (normalize_for_credential target_type)
      (append "-" (short_token 8 draws.token_rolls draws.token_uuid)))

-- The lease that IssueCredential stores.
unfoldable pub new_lease :
    String → String → String → ℤ → Map String → String → IssueDraws → CredentialLeaseRecord
new_lease target_type target_id role ttl metadata password draws = record {
  lease_id = append "lease-" draws.lease_uuid;
  target_type = target_type;
  target_id = target_id;
  username = new_username target_type draws;
  password = password;
  role = role;
  metadata = metadata;
  issued_at = draws.now;
  expires_at = add draws.now (seconds ttl);
  revoked = false;
  revoked_at = none;
  revoke_reason = "";
  lease_seconds = ttl;
}

unfoldable pub credential_response : CredentialLeaseRecord → IssueCredentialResponse
credential_response lease = record {
  lease_id = lease.lease_id;
  target_type = lease.target_type;
  target_id = lease.target_id;
  username = lease.username;
  password = lease.password;
  role = lease.role;
  metadata = lease.metadata;
  issued_at = lease.issued_at;
  expires_at = lease.expires_at;
  revoked = lease.revoked;
  lease_seconds = lease.lease_seconds;
}

unfoldable pub insert_lease : VaultService → CredentialLeaseRecord → Outcome IssueCredentialResponse
insert_lease s lease =
    (ok (credential_response lease), record s { leases = put s.leases lease.lease_id lease })

unfoldable pub issue_credential :
    VaultService → IssueCredentialRequest → IssueDraws → Outcome IssueCredentialResponse
issue_credential s req draws =
    let target_type = to_lower (trim_space req.target_type) in
    let target_id = trim_space req.target_id in
    let role = trim_space req.role in
    if target_type == "" || target_id == "" || role == ""
    then (err target_fields_required, s)
    else if not (is_supported_target_type target_type)
    then (err unsupported_target_type, s)
    else let ttl = if eq_ℤ req.ttl_seconds (pos 0) then pos 900 else req.ttl_seconds in
      if out_of_range ttl
      then (err ttl_out_of_range, s)
      else elim (random_password 24 draws.password_rolls) [
        | none ↦ (err credential_generation_failed, s)
        | some password ↦
            insert_lease s (new_lease target_type target_id role ttl req.metadata password draws)
      ]

-- The status of a lease at the time `now`.
unfoldable pub lease_status : CredentialLeaseRecord → Time → LeaseStatus
lease_status lease now =
    if lease.revoked then revoked_status else if after now lease.expires_at then expired else active

unfoldable pub to_lease_status_response : CredentialLeaseRecord → Time → LeaseStatusResponse
to_lease_status_response lease now = record {
  lease_id = lease.lease_id;
  target_type = lease.target_type;
  target_id = lease.target_id;
  username = lease.username;
  role = lease.role;
  metadata = lease.metadata;
  issued_at = lease.issued_at;
  expires_at = lease.expires_at;
  status = lease_status lease now;
  revoked = lease.revoked;
  revoked_at = lease.revoked_at;
  revoke_reason = lease.revoke_reason;
  lease_seconds = lease.lease_seconds;
}

unfoldable pub get_lease_status :
    VaultService → String → Time → Result VaultError LeaseStatusResponse
get_lease_status s lease_id now = elim (get s.leases lease_id) [
  | none ↦ err lease_not_found
  | some lease ↦ ok (to_lease_status_response lease now)
]

unfoldable pub revoked_lease : CredentialLeaseRecord → String → Time → CredentialLeaseRecord
revoked_lease lease reason now = record lease {
  revoked = true;
  revoked_at = some now;
  revoke_reason = reason;
}

unfoldable pub revoke_lease : VaultService → String → String → Time → Outcome Unit
revoke_lease s lease_id reason now = elim (get s.leases lease_id) [
  | none ↦ (err lease_not_found, s)
  | some lease ↦ if lease.revoked then (err lease_already_revoked, s) else (
    ok tt,
    record s { leases = put s.leases lease_id (revoked_lease lease (trim_space reason) now) },
  )
]

-- What the loop of RevokeLeasesByTarget writes back for one lease, if anything.
unfoldable pub revoke_for_target :
    String → String → Time → String → CredentialLeaseRecord → Option CredentialLeaseRecord
revoke_for_target target_id reason now lease_id lease =
    if equal_fold lease.target_id target_id && not lease.revoked
    then some (revoked_lease lease reason now)
    else none

unfoldable pub revoke_leases_by_target :
    VaultService → String → String → Time → Outcome BulkRevokeResult
revoke_leases_by_target s target_id reason now =
    let target = trim_space target_id in
    if target == ""
    then (err target_id_required, s)
    else let visit = revoke_for_target target (trim_space reason) now in
      (
        ok (record { revoked = count_updates visit s.leases; target_id = target }),
        record s { leases = update_entries visit s.leases },
      )

-- ===== src/Vault/Rotation.antt =====
-- Rotation policies (vault_service.go: CreateRotationPolicy, GetRotationPolicy, TriggerRotation and
-- RunDueRotations).
use Prim.Native.String.{◌++◌ as append}
use bonipam.Common.{
  String, Bool, true, ◌||◌, ◌&&◌, not, none, some, List, [], ◌∷◌, ◌==◌, if◌then◌else◌, Result, ok,
  err,
}
use bonipam.Common.Int.{ℤ, pos, ltb_ℤ, eq_ℤ, seconds}
use bonipam.Go.Map.{Map, get, put, any_entry}
use bonipam.Go.Text.{trim_space, to_lower, equal_fold}
use bonipam.Go.Time.{Time, after, add}
use bonipam.Vault.Types.{
  IssueCredentialRequest, IssueCredentialResponse, RotationPolicy, CreateRotationPolicyRequest,
  RotationPolicyResponse, RotationResult, VaultError, target_fields_required,
  unsupported_target_type, ttl_out_of_range, interval_too_short, rotation_policy_exists,
  rotation_policy_not_found, rotation_policy_disabled, rotation_failed, VaultService,
}
use bonipam.Vault.Leases.{
  Outcome, IssueDraws, is_supported_target_type, out_of_range, issue_credential,
}

unfoldable pub to_rotation_policy_response : RotationPolicy → RotationPolicyResponse
to_rotation_policy_response p = record {
  policy_id = p.policy_id;
  target_type = p.target_type;
  target_id = p.target_id;
  role = p.role;
  interval_seconds = p.interval_seconds;
  ttl_seconds = p.ttl_seconds;
  metadata = p.metadata;
  enabled = p.enabled;
  created_at = p.created_at;
  updated_at = p.updated_at;
  last_rotated_at = p.last_rotated_at;
  next_rotation_at = p.next_rotation_at;
}

-- The policy that CreateRotationPolicy stores.
unfoldable pub new_rotation_policy :
    CreateRotationPolicyRequest → ℤ → String → Time → RotationPolicy
new_rotation_policy req ttl id now = record {
  policy_id = append "rp-" id;
  target_type = to_lower (trim_space req.target_type);
  target_id = trim_space req.target_id;
  role = trim_space req.role;
  interval_seconds = req.interval_seconds;
  ttl_seconds = ttl;
  metadata = req.metadata;
  enabled = true;
  created_at = now;
  updated_at = now;
  last_rotated_at = none;
  next_rotation_at = add now (seconds req.interval_seconds);
}

unfoldable pub same_target : RotationPolicy → RotationPolicy → Bool
same_target existing policy =
    equal_fold existing.target_id policy.target_id
    && equal_fold existing.target_type policy.target_type
    && equal_fold existing.role policy.role

unfoldable pub insert_rotation_policy :
    VaultService → RotationPolicy → Outcome RotationPolicyResponse
insert_rotation_policy s policy =
    if any_entry (λ _ existing. same_target existing policy) s.rotation_policies
    then (err rotation_policy_exists, s)
    else (
      ok (to_rotation_policy_response policy),
      record s { rotation_policies = put s.rotation_policies policy.policy_id policy },
    )

unfoldable pub create_rotation_policy :
    VaultService → CreateRotationPolicyRequest → String → Time → Outcome RotationPolicyResponse
create_rotation_policy s req id now =
    let target_type = to_lower (trim_space req.target_type) in
    if target_type == "" || trim_space req.target_id == "" || trim_space req.role == ""
    then (err target_fields_required, s)
    else if not (is_supported_target_type target_type)
    then (err unsupported_target_type, s)
    else if ltb_ℤ req.interval_seconds (pos 60)
    then (err interval_too_short, s)
    else let ttl = if eq_ℤ req.ttl_seconds (pos 0) then req.interval_seconds else req.ttl_seconds in
      if out_of_range ttl
      then (err ttl_out_of_range, s)
      else insert_rotation_policy s (new_rotation_policy req ttl id now)

unfoldable pub get_rotation_policy :
    VaultService → String → Result VaultError RotationPolicyResponse
get_rotation_policy s policy_id = elim (get s.rotation_policies policy_id) [
  | none ↦ err rotation_policy_not_found
  | some policy ↦ ok (to_rotation_policy_response policy)
]

-- TriggerRotation takes the lock three times. First it looks the policy up.
unfoldable pub find_enabled : VaultService → String → Result VaultError RotationPolicy
find_enabled s policy_id = elim (get s.rotation_policies policy_id) [
  | none ↦ err rotation_policy_not_found
  | some policy ↦ if not policy.enabled then err rotation_policy_disabled else ok policy
]

-- Then it issues a credential.
unfoldable pub rotation_request : RotationPolicy → IssueCredentialRequest
rotation_request policy = record {
  target_type = policy.target_type;
  target_id = policy.target_id;
  role = policy.role;
  ttl_seconds = policy.ttl_seconds;
  metadata = policy.metadata;
}

-- At last it writes the policy back, as it was looked up.
unfoldable pub rotated_policy : RotationPolicy → Time → RotationPolicy
rotated_policy policy now = record policy {
  last_rotated_at = some now;
  next_rotation_at = add now (seconds policy.interval_seconds);
  updated_at = now;
}

unfoldable pub finish_rotation :
    VaultService → String → RotationPolicy → IssueCredentialResponse → Time → Outcome RotationResult
finish_rotation s policy_id policy issued now = (
  ok (record {
    policy_id = policy_id;
    lease_id = issued.lease_id;
    username = issued.username;
    rotated_at = now;
    expires_at = issued.expires_at;
  }),
  record s { rotation_policies = put s.rotation_policies policy_id (rotated_policy policy now) },
)

unfoldable pub rotate :
    VaultService → String → RotationPolicy → IssueDraws → Time → Outcome RotationResult
rotate s policy_id policy draws now =
    let (issued, s') = issue_credential s (rotation_request policy) draws in
    elim issued [
      | err e ↦ (err (rotation_failed e), s')
      | ok response ↦ finish_rotation s' policy_id policy response now
    ]

unfoldable pub trigger_rotation : VaultService → String → IssueDraws → Time → Outcome RotationResult
trigger_rotation s policy_id draws now = elim (find_enabled s policy_id) [
  | err e ↦ (err e, s)
  | ok policy ↦ rotate s policy_id policy draws now
]

-- The first loop of RunDueRotations; `clock` is what time.Now() returns at each policy.
unfoldable pub is_due : (String → Time) → String → RotationPolicy → Bool
is_due clock id policy = policy.enabled && after (clock id) policy.next_rotation_at

unfoldable pub due_ids : (String → Time) → Map RotationPolicy → List String
due_ids clock [] = []
due_ids clock ((id, policy) ∷ rest) =
    let ids = due_ids clock rest in if is_due clock id policy then id ∷ ids else ids

-- The second loop; a rotation that fails is passed over.
unfoldable pub add_result :
    Result VaultError RotationResult → List RotationResult → List RotationResult
add_result (ok r) results = r ∷ results
add_result (err e) results = results

unfoldable pub rotate_all :
    VaultService
    → List String
    → (String → IssueDraws)
    → (String → Time)
    → List RotationResult × VaultService
rotate_all s [] draws rotated = ([], s)
rotate_all s (id ∷ ids) draws rotated =
    let (result, s') = trigger_rotation s id (draws id) (rotated id) in
    let (results, t) = rotate_all s' ids draws rotated in (add_result result results, t)

unfoldable pub run_due_rotations :
    VaultService
    → (String → Time)
    → (String → IssueDraws)
    → (String → Time)
    → List RotationResult × VaultService
run_due_rotations s clock draws rotated =
    rotate_all s (due_ids clock s.rotation_policies) draws rotated

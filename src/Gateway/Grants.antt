-- ===== src/Gateway/Grants.antt =====
-- The grant operations of gateway_service.go. `id` is what uuid.NewString() returns; `checked` and
-- `now` are the results of the calls of time.Now(), in their order.
use Prim.Native.String.{◌++◌ as append}
use bonipam.Common.{String, ◌||◌, not, Option, none, some, ◌==◌, if◌then◌else◌, Result, ok, err}
use bonipam.Common.Int.{ℤ, pos, ltb_ℤ, eq_ℤ, seconds}
use bonipam.Go.Map.{get, put}
use bonipam.Go.Text.{trim_space, to_lower, equal_fold}
use bonipam.Go.Time.{Time, after, add}
use bonipam.Gateway.Types.{
  supported_gateway_protocols, pending, approved, denied, is_pending, is_approved, JitGrant,
  RequestJitGrantRequest, JitGrantResponse, GatewayError, grant_fields_required,
  unsupported_protocol, jit_grant_not_found, grant_has_expired, jit_grant_has_expired,
  grant_not_approved, user_mismatch, asset_mismatch, protocol_mismatch, ttl_out_of_range,
  approver_required, grant_not_pending, GatewayService, to_jit_grant_response,
}

abbrev pub Outcome : Type 0 → Type 0
Outcome A = Result GatewayError A × GatewayService

abbrev pub default_ttl : ℤ → ℤ → ℤ
default_ttl fallback ttl = if eq_ℤ ttl (pos 0) then fallback else ttl

-- The grants that RequestJITGrant, ApproveJITGrant and DenyJITGrant write.
unfoldable pub new_grant : String → String → String → String → ℤ → String → Time → JitGrant
new_grant user_id asset_id protocol reason ttl id now = record {
  grant_id = append "jit-" id;
  user_id = user_id;
  asset_id = asset_id;
  protocol = protocol;
  reason = reason;
  status = pending;
  ttl_seconds = ttl;
  created_at = now;
  expires_at = add now (seconds ttl);
  approved_at = none;
  approver_id = "";
  deny_reason = "";
}

unfoldable pub approved_grant : JitGrant → String → Time → JitGrant
approved_grant grant approver now = record grant {
  status = approved;
  approved_at = some now;
  approver_id = approver;
}

unfoldable pub denied_grant : JitGrant → String → String → JitGrant
denied_grant grant approver reason = record grant {
  status = denied;
  approver_id = approver;
  deny_reason = reason;
}

unfoldable pub request_jit_grant :
    GatewayService → RequestJitGrantRequest → String → Time → Outcome JitGrantResponse
request_jit_grant s req id now =
    let user_id = trim_space req.user_id in
    let asset_id = trim_space req.asset_id in
    let protocol = to_lower (trim_space req.protocol) in
    let reason = trim_space req.reason in
    if user_id == "" || asset_id == "" || protocol == "" || reason == ""
    then (err grant_fields_required, s)
    else if not (supported_gateway_protocols protocol)
    then (err (unsupported_protocol protocol), s)
    else let ttl = default_ttl (pos 3600) req.ttl_seconds in
      if ltb_ℤ ttl (pos 60) || ltb_ℤ (pos 86400) ttl
      then (err ttl_out_of_range, s)
      else let grant = new_grant user_id asset_id protocol reason ttl id now in
        (
          ok (to_jit_grant_response grant),
          record s { jit_grants = put s.jit_grants (append "jit-" id) grant },
        )

unfoldable pub get_jit_grant : GatewayService → String → Result GatewayError JitGrantResponse
get_jit_grant s grant_id = elim (get s.jit_grants grant_id) [
  | none ↦ err jit_grant_not_found
  | some grant ↦ ok (to_jit_grant_response grant)
]

unfoldable pub approve_jit_grant :
    GatewayService → String → String → Time → Time → Outcome JitGrantResponse
approve_jit_grant s grant_id approver_id checked now =
    let approver = trim_space approver_id in
    if approver == "" then (err approver_required, s) else elim (get s.jit_grants grant_id) [
      | none ↦ (err jit_grant_not_found, s)
      | some grant ↦
          if not (is_pending grant.status)
          then (err grant_not_pending, s)
          else if after checked grant.expires_at
          then (err grant_has_expired, s)
          else let grant' = approved_grant grant approver now in
            (
              ok (to_jit_grant_response grant'),
              record s { jit_grants = put s.jit_grants grant_id grant' },
            )
    ]

unfoldable pub deny_jit_grant : GatewayService → String → String → String → Outcome JitGrantResponse
deny_jit_grant s grant_id approver_id reason =
    let approver = trim_space approver_id in
    if approver == "" then (err approver_required, s) else elim (get s.jit_grants grant_id) [
      | none ↦ (err jit_grant_not_found, s)
      | some grant ↦
          if not (is_pending grant.status)
          then (err grant_not_pending, s)
          else let grant' = denied_grant grant approver (trim_space reason) in
            (
              ok (to_jit_grant_response grant'),
              record s { jit_grants = put s.jit_grants grant_id grant' },
            )
    ]

-- The tests of validateJITGrant on a grant that was found; `none` is Go's nil error.
unfoldable pub check_grant : JitGrant → String → String → String → Time → Option GatewayError
check_grant grant user_id asset_id protocol checked =
    if not (is_approved grant.status)
    then some (grant_not_approved grant.status)
    else if after checked grant.expires_at
    then some jit_grant_has_expired
    else if not (equal_fold grant.user_id user_id)
    then some user_mismatch
    else if not (equal_fold grant.asset_id asset_id)
    then some asset_mismatch
    else if not (equal_fold grant.protocol protocol)
    then some protocol_mismatch
    else none

unfoldable pub validate_jit_grant :
    GatewayService → String → String → String → String → Time → Option GatewayError
validate_jit_grant s grant_id user_id asset_id protocol checked = elim (get s.jit_grants grant_id) [
  | none ↦ some jit_grant_not_found
  | some grant ↦ check_grant grant user_id asset_id protocol checked
]

-- ===== src/Gateway/Types.antt =====
-- The gateway's records, requests, responses and errors (backend/internal/domain/gateway.go).
use bonipam.Common.{String, Bool, true, false, ◌||◌, Option, ◌==◌}
use bonipam.Common.Int.{ℤ}
use bonipam.Go.Map.{Map}
use bonipam.Go.Time.{Time}

-- SupportedGatewayProtocols[protocol]
unfoldable pub supported_gateway_protocols : String → Bool
supported_gateway_protocols protocol = protocol == "ssh" || protocol == "rdp" || protocol == "http"

-- The values of GatewaySession.Status.
pub data SessionStatus : Type 0 where
  active terminated : SessionStatus

abbrev pub is_terminated : SessionStatus → Bool
is_terminated active = false
is_terminated terminated = true

pub record GatewaySession : Type 0 where
  pub session_id : String
  pub user_id : String
  pub target_asset_id : String
  pub protocol : String
  pub status : SessionStatus
  pub metadata : Map String
  pub created_at : Time
  pub activated_at : Option Time
  pub terminated_at : Option Time
  pub terminate_reason : String

pub record InitiateSessionRequest : Type 0 where
  pub user_id : String
  pub target_asset_id : String
  pub protocol : String
  pub jit_grant_id : String
  pub metadata : Map String

pub record GatewaySessionResponse : Type 0 where
  pub session_id : String
  pub user_id : String
  pub target_asset_id : String
  pub protocol : String
  pub status : SessionStatus
  pub metadata : Map String
  pub created_at : Time
  pub activated_at : Option Time
  pub terminated_at : Option Time
  pub terminate_reason : String

pub record StartSessionRequest : Type 0 where
  pub user_id : String
  pub asset_id : String
  pub jit_grant_id : String
  pub protocol : String

-- The values of JITGrant.Status that the service writes.
pub data GrantStatus : Type 0 where
  pending approved denied : GrantStatus

abbrev pub is_pending : GrantStatus → Bool
is_pending pending = true
is_pending _ = false

abbrev pub is_approved : GrantStatus → Bool
is_approved approved = true
is_approved _ = false

pub record JitGrant : Type 0 where
  pub grant_id : String
  pub user_id : String
  pub asset_id : String
  pub protocol : String
  pub reason : String
  pub status : GrantStatus
  pub ttl_seconds : ℤ
  pub created_at : Time
  pub expires_at : Time
  pub approved_at : Option Time
  pub approver_id : String
  pub deny_reason : String

pub record RequestJitGrantRequest : Type 0 where
  pub user_id : String
  pub asset_id : String
  pub protocol : String
  pub reason : String
  pub ttl_seconds : ℤ

pub record JitGrantResponse : Type 0 where
  pub grant_id : String
  pub user_id : String
  pub asset_id : String
  pub protocol : String
  pub reason : String
  pub status : GrantStatus
  pub ttl_seconds : ℤ
  pub created_at : Time
  pub expires_at : Time
  pub approved_at : Option Time
  pub approver_id : String
  pub deny_reason : String

-- The errors of gateway_service.go, one for each message.
pub data GatewayError : Type 0 where
  session_fields_required grant_fields_required : GatewayError
  unsupported_protocol : String → GatewayError
  jit_grant_not_found grant_has_expired jit_grant_has_expired : GatewayError
  grant_not_approved : GrantStatus → GatewayError
  user_mismatch asset_mismatch protocol_mismatch : GatewayError
  session_not_found session_already_terminated : GatewayError
  ttl_out_of_range approver_required grant_not_pending : GatewayError

pub record GatewayService : Type 0 where
  pub sessions : Map GatewaySession
  pub jit_grants : Map JitGrant

unfoldable pub to_gateway_session_response : GatewaySession → GatewaySessionResponse
to_gateway_session_response gs = record {
  session_id = gs.session_id;
  user_id = gs.user_id;
  target_asset_id = gs.target_asset_id;
  protocol = gs.protocol;
  status = gs.status;
  metadata = gs.metadata;
  created_at = gs.created_at;
  activated_at = gs.activated_at;
  terminated_at = gs.terminated_at;
  terminate_reason = gs.terminate_reason;
}

unfoldable pub to_jit_grant_response : JitGrant → JitGrantResponse
to_jit_grant_response g = record {
  grant_id = g.grant_id;
  user_id = g.user_id;
  asset_id = g.asset_id;
  protocol = g.protocol;
  reason = g.reason;
  status = g.status;
  ttl_seconds = g.ttl_seconds;
  created_at = g.created_at;
  expires_at = g.expires_at;
  approved_at = g.approved_at;
  approver_id = g.approver_id;
  deny_reason = g.deny_reason;
}

-- ===== src/Examples/GatewayRuns.antt =====
-- A gateway with one grant (backend/internal/service/gateway_service.go), and what the theorems say
-- of its calls.
use Prim.Native.String.{◌++◌ as append}
use bonipam.Gateway.Types.{
  active, SessionStatus, pending, approved, JitGrant, JitGrantResponse, RequestJitGrantRequest,
  InitiateSessionRequest, GatewayService, GatewaySessionResponse, supported_gateway_protocols,
  to_gateway_session_response, grant_not_pending,
}
use bonipam.Common.{◌≡◌, ◌≢◌, ◌↔◌, refl, none, some, [], ◌∷◌, ok, arith}
use bonipam.Common.Int.{pos}
use bonipam.Go.Map.{get}
use bonipam.Go.Text.{trim_space, to_lower, equal_fold}
use bonipam.Examples.{differ}
use bonipam.Gateway.Grants.{request_jit_grant, approve_jit_grant, check_grant, validate_jit_grant}
use bonipam.Gateway.Sessions.{
  initiate_session, start_session, new_session, terminated_session, grant_error,
}
use bonipam.Gateway.Access.{Permits, initiate_session-Permits, start_session-blank_grant}
use bonipam.Gateway.Reach.{
  Reach, here, next, request, approve, HasValidGrants, Reach-HasValidGrants,
}
use bonipam.Gateway.Final.{Follows, Reach-Follows}
use bonipam.Gateway.Outcomes.{CanApprove, approve_jit_grant-ok_iff, Call, perform, perform-error}

abbrev empty_gateway : GatewayService
empty_gateway = record { sessions = []; jit_grants = [] }

abbrev ask : RequestJitGrantRequest
ask = record {
  user_id = " usr-1";
  asset_id = "db-1";
  protocol = "SSH";
  reason = "patch";
  ttl_seconds = pos 0;
}

abbrev pending_grant : JitGrant
pending_grant = record {
  grant_id = "jit-1";
  user_id = "usr-1";
  asset_id = "db-1";
  protocol = "ssh";
  reason = "patch";
  status = pending;
  ttl_seconds = pos 3600;
  created_at = pos 0;
  expires_at = pos 3600000000000;
  approved_at = none;
  approver_id = "";
  deny_reason = "";
}

abbrev approved_by_usr_2 : JitGrant
approved_by_usr_2 = record pending_grant {
  status = approved;
  approved_at = some (pos 6);
  approver_id = "usr-2";
}

abbrev asked : GatewayService
asked = record { sessions = []; jit_grants = ("jit-1", pending_grant) ∷ [] }

abbrev granted : GatewayService
granted = record { sessions = []; jit_grants = ("jit-1", approved_by_usr_2) ∷ [] }

abbrev open_request : InitiateSessionRequest
open_request = record {
  user_id = "USR-1";
  target_asset_id = "db-1 ";
  protocol = "ssh";
  jit_grant_id = "jit-1";
  metadata = [];
}

abbrev opened : GatewaySessionResponse
opened = record {
  session_id = "gw-9";
  user_id = "USR-1";
  target_asset_id = "db-1";
  protocol = "ssh";
  status = SessionStatus.active;
  metadata = [];
  created_at = pos 11;
  activated_at = some (pos 11);
  terminated_at = none;
  terminate_reason = "";
}

abbrev after_ask : GatewayService
after_ask = (request_jit_grant empty_gateway ask "1" (pos 0)).1

abbrev after_approval : GatewayService
after_approval = (approve_jit_grant after_ask "jit-1" "usr-2" (pos 5) (pos 6)).1

-- The run that asks for a grant and approves it.
abbrev to_approval : Reach empty_gateway after_approval
unfolding get
to_approval =
    next (next here (request ask "1" (pos 0) refl)) (approve "jit-1" "usr-2" (pos 5) (pos 6))

initiate_session-Permits_example :
    (g : JitGrant) × (get granted.jit_grants "jit-1" ≡ some g)
    × Permits g "USR-1" "db-1" "ssh" (pos 10)
unfolding trim_space initiate_session to_lower supported_gateway_protocols grant_error
    validate_jit_grant get check_grant equal_fold to_gateway_session_response new_session
initiate_session-Permits_example =
    initiate_session-Permits granted open_request "9" (pos 10) (pos 11) opened
      (differ (trim_space "jit-1") "" refl) refl

approve_jit_grant-ok_iff_example :
    ((r : JitGrantResponse) × ((approve_jit_grant asked "jit-1" "usr-2" (pos 5) (pos 6)).0 ≡ ok r))
    ↔ ((trim_space "usr-2" ≢ "") × CanApprove asked "jit-1" (pos 5))
approve_jit_grant-ok_iff_example = approve_jit_grant-ok_iff asked "jit-1" "usr-2" (pos 5) (pos 6)

Reach-HasValidGrants_example : HasValidGrants after_approval
unfolding get
Reach-HasValidGrants_example = Reach-HasValidGrants to_approval (λ k g h. absurd (ground arith))

Reach-Follows_example :
    (g' : JitGrant) × (get
        (approve_jit_grant asked "jit-1" "usr-2" (pos 5) (pos 6)).1.jit_grants
        "jit-1"
      ≡ some g')
    × Follows pending_grant g'
unfolding get
Reach-Follows_example =
    Reach-Follows {s = asked} (next here (approve "jit-1" "usr-2" (pos 5) (pos 6))) "jit-1"
      pending_grant refl

abbrev closed : GatewayService
closed = record {
  sessions =
      (
        "gw-9",
        terminated_session (new_session [] "usr-1" "db-1" "ssh" "9" (pos 11)) "done" (pos 20),
      )
      ∷ [];
  jit_grants = [];
}

perform-error_example : (perform granted (Call.approve "jit-1" "usr-3" (pos 7) (pos 8))).1 ≡ granted
unfolding perform approve_jit_grant trim_space get
perform-error_example =
    perform-error granted (Call.approve "jit-1" "usr-3" (pos 7) (pos 8)) grant_not_pending refl

-- No grant is there, and the grant id is a space.
start_session-blank_grant_example :
    ((start_session empty_gateway
        (record { user_id = "usr-1"; asset_id = "db-1"; jit_grant_id = " "; protocol = "rdp" })
        "4"
        (pos 1)
        (pos 2)).0
      ≡ ok (record {
        session_id = append "gw-" "4";
        user_id = "usr-1";
        target_asset_id = "db-1";
        protocol = "rdp";
        status = active;
        metadata = [];
        created_at = pos 2;
        activated_at = some (pos 2);
        terminated_at = none;
        terminate_reason = "";
      }))
    × (get
          (start_session empty_gateway
            (record { user_id = "usr-1"; asset_id = "db-1"; jit_grant_id = " "; protocol = "rdp" })
            "4"
            (pos 1)
            (pos 2)).1.sessions
          "gw-4"
        ≡ some (record {
          session_id = append "gw-" "4";
          user_id = "usr-1";
          target_asset_id = "db-1";
          protocol = "rdp";
          status = active;
          metadata = [];
          created_at = pos 2;
          activated_at = some (pos 2);
          terminated_at = none;
          terminate_reason = "";
        }))
    × ((start_session empty_gateway
          (record { user_id = "usr-1"; asset_id = "db-1"; jit_grant_id = " "; protocol = "rdp" })
          "4"
          (pos 1)
          (pos 2)).1.jit_grants
        ≡ [])
unfolding trim_space supported_gateway_protocols to_lower
start_session-blank_grant_example =
    start_session-blank_grant empty_gateway
      (record { user_id = "usr-1"; asset_id = "db-1"; jit_grant_id = " "; protocol = "rdp" }) "4"
      "gw-4" (pos 1) (pos 2) refl (differ (trim_space "usr-1") "" refl)
      (differ (trim_space "db-1") "" refl) refl

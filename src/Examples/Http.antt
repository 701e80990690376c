-- ===== src/Examples/Http.antt =====
-- The handlers (backend/internal/transport/http) at a concrete gateway and vault.
use bonipam.Common.{◌≡◌, not, none, some, [], nat_eq, is_ok, is_some, if◌then◌else◌}
use bonipam.Common.Int.{pos}
use bonipam.Go.Map.{get}
use bonipam.Gateway.Types.{InitiateSessionRequest, GatewaySessionResponse, GatewayService}
use bonipam.Gateway.Sessions.{initiate_session}
use bonipam.Http.Response.{Reply}
use bonipam.Http.Gateway.{handle_initiate_session}
use bonipam.Http.Statuses.{code_of, handle_initiate_session-answers}
use bonipam.Http.Vault.{handle_revoke_lease, handle_trigger_rotation}
use bonipam.Http.Missing.{handlers-missing}
use bonipam.Examples.Ciphers.{ciphers, kms}
use bonipam.Examples.Rotations.{rotating, rolling_draws}

abbrev telnet_request : InitiateSessionRequest
telnet_request = record {
  user_id = "usr-1";
  target_asset_id = "db-1";
  protocol = "telnet";
  jit_grant_id = "";
  metadata = [];
}

abbrev quiet_gateway : GatewayService
quiet_gateway = record { sessions = []; jit_grants = [] }

handle_initiate_session-answers_example :
    (reply : Reply GatewaySessionResponse) × (handle_initiate_session quiet_gateway "r-1"
        (some telnet_request)
        "9"
        (pos 1)
        (pos 2)
      ≡ (some reply, (initiate_session quiet_gateway telnet_request "9" (pos 1) (pos 2)).1))
    × (reply.status ≡ (
        if is_ok (initiate_session quiet_gateway telnet_request "9" (pos 1) (pos 2)).0
        then 201
        else 400))
    × (code_of reply ≡ (
        if is_ok (initiate_session quiet_gateway telnet_request "9" (pos 1) (pos 2)).0
        then none
        else some "SESSION_INITIATE_FAILED"))
handle_initiate_session-answers_example =
    handle_initiate_session-answers quiet_gateway "r-1" telnet_request "9" (pos 1) (pos 2)

handlers-missing_example :
    (nat_eq (handle_revoke_lease ciphers kms rotating "" "r-2" "rp-1" none (pos 5)).0.status 404
      ≡ not (is_some (get (rotating).leases "rp-1")))
    × (nat_eq
          (handle_trigger_rotation ciphers kms rotating "" "r-2" "rp-1"
            (rolling_draws "l")
            (pos 5)).0.status
          404
        ≡ not (is_some (get (rotating).rotation_policies "rp-1")))
handlers-missing_example =
    handlers-missing ciphers kms rotating "" "r-2" "rp-1" none (rolling_draws "l") (pos 5)

-- ===== src/Gateway/Sessions.antt =====
-- The session operations of gateway_service.go. `id` is what uuid.NewString() returns; `checked` and
-- `now` are the results of the calls of time.Now(), in their order.
use Prim.Native.String.{◌++◌ as append}
use bonipam.Common.{String, ◌||◌, not, Option, none, some, [], ◌==◌, if◌then◌else◌, Result, ok, err}
use bonipam.Go.Map.{Map, get, put}
use bonipam.Go.Text.{trim_space, to_lower}
use bonipam.Go.Time.{Time}
use bonipam.Gateway.Types.{
  supported_gateway_protocols, active, terminated, is_terminated, GatewaySession,
  InitiateSessionRequest, GatewaySessionResponse, StartSessionRequest, GatewayError,
  session_fields_required, unsupported_protocol, session_not_found, session_already_terminated,
  GatewayService, to_gateway_session_response,
}
use bonipam.Gateway.Grants.{Outcome, validate_jit_grant}

-- The grant is looked at only if its id is not blank.
unfoldable pub grant_error :
    GatewayService → String → String → String → String → Time → Option GatewayError
grant_error s grant_id user_id asset_id protocol checked =
    if grant_id == "" then none else validate_jit_grant s grant_id user_id asset_id protocol checked

-- The session that InitiateSession stores.
unfoldable pub new_session : Map String → String → String → String → String → Time → GatewaySession
new_session metadata user_id asset_id protocol id now = record {
  session_id = append "gw-" id;
  user_id = user_id;
  target_asset_id = asset_id;
  protocol = protocol;
  status = active;
  metadata = metadata;
  created_at = now;
  activated_at = some now;
  terminated_at = none;
  terminate_reason = "";
}

unfoldable pub initiate_session :
    GatewayService → InitiateSessionRequest → String → Time → Time → Outcome GatewaySessionResponse
initiate_session s req id checked now =
    let user_id = trim_space req.user_id in
    let asset_id = trim_space req.target_asset_id in
    let protocol = to_lower (trim_space req.protocol) in
    if user_id == "" || asset_id == "" || protocol == ""
    then (err session_fields_required, s)
    else if not (supported_gateway_protocols protocol)
    then (err (unsupported_protocol protocol), s)
    else elim (grant_error s (trim_space req.jit_grant_id) user_id asset_id protocol checked) [
      | some e ↦ (err e, s)
      | none ↦
          let session = new_session req.metadata user_id asset_id protocol id now in
          (
            ok (to_gateway_session_response session),
            record s { sessions = put s.sessions (append "gw-" id) session },
          )
    ]

unfoldable pub get_session : GatewayService → String → Result GatewayError GatewaySessionResponse
get_session s session_id = elim (get s.sessions session_id) [
  | none ↦ err session_not_found
  | some session ↦ ok (to_gateway_session_response session)
]

-- The session that TerminateSession writes back.
unfoldable pub terminated_session : GatewaySession → String → Time → GatewaySession
terminated_session session reason now = record session {
  status = terminated;
  terminated_at = some now;
  terminate_reason = reason;
}

unfoldable pub terminate_session : GatewayService → String → String → Time → Outcome Unit
terminate_session s session_id reason now = elim (get s.sessions session_id) [
  | none ↦ (err session_not_found, s)
  | some session ↦
      if is_terminated session.status
      then (err session_already_terminated, s)
      else let session' = terminated_session session (trim_space reason) now in
        (ok tt, record s { sessions = put s.sessions session_id session' })
]

-- Kept for older clients: the request without metadata.
unfoldable pub start_session :
    GatewayService → StartSessionRequest → String → Time → Time → Outcome GatewaySessionResponse
start_session s req id checked now =
    initiate_session s
      (record {
        user_id = req.user_id;
        target_asset_id = req.asset_id;
        protocol = req.protocol;
        jit_grant_id = req.jit_grant_id;
        metadata = [];
      })
      id checked now

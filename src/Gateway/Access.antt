-- ===== src/Gateway/Access.antt =====
-- What a session that was opened says about the grants of the gateway.
use Prim.Native.String.{◌++◌ as append}
use bonipam.Common.{
  String, ◌≡◌, ◌≢◌, refl, true, false, ◌==◌, if◌then◌else◌, none, some, arith, eq_iff, ok,
  Option-cases, [], inl, inr,
}
use bonipam.Common.Int.{◌≤ℤ◌}
use bonipam.Go.Map.{get, put, get-put}
use bonipam.Go.Text.{trim_space, to_lower, equal_fold}
use bonipam.Go.Time.{Time}
use bonipam.Gateway.Types.{
  active, approved, JitGrant, InitiateSessionRequest, GatewaySessionResponse, StartSessionRequest,
  GatewayService, supported_gateway_protocols, to_gateway_session_response,
}
use bonipam.Gateway.Grants.{check_grant, validate_jit_grant}
use bonipam.Gateway.Sessions.{new_session, grant_error, initiate_session, start_session}

-- The grant is approved, is not past its end at `checked`, and names the user, asset and protocol.
pub record Permits (g : JitGrant) (user_id asset_id protocol : String) (checked : Time)
    : Type 0 where
  pub status : g.status ≡ approved
  pub in_time : checked ≤ℤ g.expires_at
  pub user : equal_fold g.user_id user_id ≡ true
  pub asset : equal_fold g.asset_id asset_id ≡ true
  pub protocol_same : equal_fold g.protocol protocol ≡ true

check_grant-Permits :
    (g : JitGrant) (user_id asset_id protocol : String) (checked : Time)
    → check_grant g user_id asset_id protocol checked ≡ none
    → Permits g user_id asset_id protocol checked
unfolding check_grant
check_grant-Permits g user_id asset_id protocol checked h = ground arith

validate_jit_grant-Permits :
    (s : GatewayService) (grant_id user_id asset_id protocol : String) (checked : Time)
    → validate_jit_grant s grant_id user_id asset_id protocol checked ≡ none
    → (g : JitGrant) × (get s.jit_grants grant_id ≡ some g)
      × Permits g user_id asset_id protocol checked
unfolding validate_jit_grant
validate_jit_grant-Permits s grant_id user_id asset_id protocol checked h =
    elim (Option-cases (get s.jit_grants grant_id)) [
      | inl missing ↦ absurd (cc (rw (missing, validate_jit_grant) at h))
      | inr (g, found) ↦
          (g, found, check_grant-Permits g user_id asset_id protocol checked (ground arith))
    ]

grant_error-Permits :
    (s : GatewayService) (grant_id user_id asset_id protocol : String) (checked : Time)
    → grant_id ≢ ""
    → grant_error s grant_id user_id asset_id protocol checked ≡ none
    → (g : JitGrant) × (get s.jit_grants grant_id ≡ some g)
      × Permits g user_id asset_id protocol checked
unfolding grant_error
grant_error-Permits s grant_id user_id asset_id protocol checked given h =
    validate_jit_grant-Permits s grant_id user_id asset_id protocol checked
      (ground (arith, eq_iff grant_id ""))

-- What a session that was opened had behind it.
initiate_session-inversion :
    (s : GatewayService) (req : InitiateSessionRequest) (id : String) (checked now : Time)
    (r : GatewaySessionResponse)
    → (initiate_session s req id checked now).0 ≡ ok r
    → (grant_error s (trim_space req.jit_grant_id) r.user_id r.target_asset_id r.protocol checked
        ≡ none)
      × (supported_gateway_protocols r.protocol ≡ true)
      × (r.user_id ≢ "")
      × (r.target_asset_id ≢ "")
unfolding initiate_session new_session to_gateway_session_response
initiate_session-inversion s req id checked now r h =
    ground (arith, eq_iff (trim_space req.user_id) "", eq_iff (trim_space req.target_asset_id) "")

-- A session that is opened under a grant id that is not blank has a grant under that id in the
-- gateway, approved, at most at its end when it is checked, and for the user, the asset and the
-- protocol of the session, up to case.
pub initiate_session-Permits :
    (s : GatewayService) (req : InitiateSessionRequest) (id : String) (checked now : Time)
    (r : GatewaySessionResponse)
    → trim_space req.jit_grant_id ≢ ""
    → (initiate_session s req id checked now).0 ≡ ok r
    → (g : JitGrant) × (get s.jit_grants (trim_space req.jit_grant_id) ≡ some g)
      × Permits g r.user_id r.target_asset_id r.protocol checked
initiate_session-Permits s req id checked now r given h =
    grant_error-Permits s (trim_space req.jit_grant_id) r.user_id r.target_asset_id r.protocol
      checked given (initiate_session-inversion s req id checked now r h).0

supported-ne-empty :
    (protocol : String) → supported_gateway_protocols protocol ≡ true → protocol ≢ ""
unfolding supported_gateway_protocols
supported-ne-empty protocol h e = absurd (cc (rw e at h))

-- A start request whose grant id is blank, such as one space, opens a session in any gateway, also
-- in one that holds no grant, if its user and asset are not blank and its protocol is supported: the
-- response has the trimmed user and asset and the trimmed protocol in lower case, is active from the
-- time of the call and has no metadata and no end; a session with those values is stored under the
-- new id, every other session is as it was, and so are all grants.
pub start_session-blank_grant :
    (s : GatewayService) (req : StartSessionRequest) (id k : String) (checked now : Time)
    → trim_space req.jit_grant_id ≡ ""
    → trim_space req.user_id ≢ ""
    → trim_space req.asset_id ≢ ""
    → supported_gateway_protocols (to_lower (trim_space req.protocol)) ≡ true
    → ((start_session s req id checked now).0
        ≡ ok (record {
          session_id = append "gw-" id;
          user_id = trim_space req.user_id;
          target_asset_id = trim_space req.asset_id;
          protocol = to_lower (trim_space req.protocol);
          status = active;
          metadata = [];
          created_at = now;
          activated_at = some now;
          terminated_at = none;
          terminate_reason = "";
        }))
      × (get (start_session s req id checked now).1.sessions k ≡ (
          if append "gw-" id == k
          then some (record {
            session_id = append "gw-" id;
            user_id = trim_space req.user_id;
            target_asset_id = trim_space req.asset_id;
            protocol = to_lower (trim_space req.protocol);
            status = active;
            metadata = [];
            created_at = now;
            activated_at = some now;
            terminated_at = none;
            terminate_reason = "";
          })
          else get s.sessions k))
      × ((start_session s req id checked now).1.jit_grants ≡ s.jit_grants)
unfolding start_session initiate_session grant_error new_session to_gateway_session_response
start_session-blank_grant s req id k checked now blank user asset protocol =
    let user_given : (trim_space req.user_id == "") ≡ false =
      ground (arith, eq_iff (trim_space req.user_id) "") in
    let asset_given : (trim_space req.asset_id == "") ≡ false =
      ground (arith, eq_iff (trim_space req.asset_id) "") in
    let protocol_given : (to_lower (trim_space req.protocol) == "") ≡ false = ground (
      arith,
      eq_iff (to_lower (trim_space req.protocol)) "",
      supported-ne-empty (to_lower (trim_space req.protocol)) protocol,
    ) in
    let no_grant : (trim_space req.jit_grant_id == "") ≡ true =
      ground (arith, eq_iff (trim_space req.jit_grant_id) "") in
    let session =
      new_session [] (trim_space req.user_id) (trim_space req.asset_id)
        (to_lower (trim_space req.protocol)) id now in
    let opened : start_session s req id checked now ≡ (
      ok (to_gateway_session_response session),
      record s { sessions = put s.sessions (append "gw-" id) session },
    ) =
      rw (user_given, asset_given, protocol_given, protocol, no_grant) refl in
    (rw opened refl, rw opened (get-put s.sessions (append "gw-" id) k session), rw opened refl)

-- ===== src/Gateway/Outcomes.antt =====
-- When the gateway's operations succeed, and what a failure leaves.
use Prim.Native.String.{◌++◌ as append}
use bonipam.Common.{
  String, ◌≡◌, ◌≢◌, ◌↔◌, true, Option, none, some, arith, eq_iff, ok, err, Option-cases, inl, inr,
  eq_refl,
}
use bonipam.Common.Int.{pos, ◌≤ℤ◌, seconds}
use bonipam.Go.Map.{get, get-put}
use bonipam.Go.Text.{trim_space, to_lower}
use bonipam.Go.Time.{Time, add}
use bonipam.Gateway.Types.{
  pending, is_pending, JitGrant, JitGrantResponse, RequestJitGrantRequest, InitiateSessionRequest,
  StartSessionRequest, GatewayService, GatewayError, to_jit_grant_response,
}
use bonipam.Gateway.Grants.{
  Outcome, default_ttl, new_grant, request_jit_grant, get_jit_grant, approve_jit_grant,
  deny_jit_grant, approved_grant,
}
use bonipam.Gateway.Sessions.{initiate_session, start_session, terminate_session}

-- A grant can be approved: it is there, pending, and not past its end.
abbrev pub CanApprove : GatewayService → String → Time → Type 0
CanApprove s grant_id checked =
    (g : JitGrant) × (get s.jit_grants grant_id ≡ some g)
    × (is_pending g.status ≡ true)
    × (checked ≤ℤ g.expires_at)

-- ApproveJITGrant succeeds exactly if the approver is not blank and the grant is in the gateway,
-- pending, and at most at its end.
pub approve_jit_grant-ok_iff :
    (s : GatewayService) (grant_id approver_id : String) (checked now : Time)
    → ((r : JitGrantResponse) × ((approve_jit_grant s grant_id approver_id checked now).0 ≡ ok r))
      ↔ ((trim_space approver_id ≢ "") × CanApprove s grant_id checked)
unfolding approve_jit_grant
approve_jit_grant-ok_iff s grant_id approver_id checked now =
    elim (Option-cases (get s.jit_grants grant_id)) [
      | inl missing ↦ (
        λ (r, e). absurd (ground arith),
        λ (given, can). absurd (let (g, at, p, in_time) = can in cc),
      )
      | inr (g, at) ↦ (
        λ (r, e). (
          ground (arith, eq_iff (trim_space approver_id) ""),
          (g, at, ground arith, ground arith),
        ),
        λ (given, can).
            let (g', at', p, in_time) = can in
            (
              to_jit_grant_response (approved_grant g (trim_space approver_id) now),
              ground (arith, eq_iff (trim_space approver_id) ""),
            ),
      )
    ]

-- The calls that can change a gateway, with the values that the clock and the uuid library return.
pub data Call : Type 0 where
  request : RequestJitGrantRequest → String → Time → Call
  approve : String → String → Time → Time → Call
  deny : String → String → String → Call
  initiate : InitiateSessionRequest → String → Time → Time → Call
  start : StartSessionRequest → String → Time → Time → Call
  terminate : String → String → Time → Call

-- The error of an outcome, if any, and its state.
abbrev pub error_of : {A : Type 0} → Outcome A → Option GatewayError × GatewayService
error_of (ok r, t) = (none, t)
error_of (err e, t) = (some e, t)

unfoldable pub perform : GatewayService → Call → Option GatewayError × GatewayService
perform s (request req id now) = error_of (request_jit_grant s req id now)
perform s (approve grant_id approver_id checked now) =
    error_of (approve_jit_grant s grant_id approver_id checked now)
perform s (deny grant_id approver_id reason) =
    error_of (deny_jit_grant s grant_id approver_id reason)
perform s (initiate req id checked now) = error_of (initiate_session s req id checked now)
perform s (start req id checked now) = error_of (start_session s req id checked now)
perform s (terminate session_id reason now) = error_of (terminate_session s session_id reason now)

-- A call that returns an error has changed neither the sessions nor the grants.
pub perform-error :
    (s : GatewayService) (c : Call) (e : GatewayError)
    → (perform s c).0 ≡ some e
    → (perform s c).1 ≡ s
unfolding perform request_jit_grant approve_jit_grant deny_jit_grant initiate_session start_session
    terminate_session
perform-error s (request req id now) e h = ground arith
perform-error s _ e h = ground arith

-- A request that is accepted stores a pending grant, which a lookup under its new id returns, with
-- a time to live of 3600 seconds where the request gives 0 and of what it gives otherwise.
get-request_jit_grant :
    (s : GatewayService) (req : RequestJitGrantRequest) (id : String) (now : Time)
    (r : JitGrantResponse)
    → (request_jit_grant s req id now).0 ≡ ok r
    → (get_jit_grant (request_jit_grant s req id now).1 (append "jit-" id) ≡ ok r)
      × (r.status ≡ pending)
      × (r.ttl_seconds ≡ default_ttl (pos 3600) req.ttl_seconds)
      × (r.expires_at ≡ add now (seconds r.ttl_seconds))
unfolding request_jit_grant get_jit_grant new_grant to_jit_grant_response
get-request_jit_grant s req id now r h =
    let g =
      new_grant (trim_space req.user_id) (trim_space req.asset_id)
        (to_lower (trim_space req.protocol)) (trim_space req.reason)
        (default_ttl (pos 3600) req.ttl_seconds) id now in
    (
      ground (
        arith,
        get-put s.jit_grants (append "jit-" id) (append "jit-" id) g,
        eq_refl (append "jit-" id),
      ),
      ground arith,
      ground arith,
      ground arith,
    )

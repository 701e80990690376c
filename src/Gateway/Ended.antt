-- ===== src/Gateway/Ended.antt =====
-- A session that has been terminated stays as it is.
use Prim.Native.String.{◌++◌ as append}
use bonipam.Common.{String, ◌≡◌, true, none, some, arith, eq_iff, Option-cases, inl, inr}
use bonipam.Go.Map.{get, get-put}
use bonipam.Go.Text.{trim_space, to_lower}
use bonipam.Go.Time.{Time}
use bonipam.Gateway.Types.{
  is_terminated, GatewaySession, RequestJitGrantRequest, InitiateSessionRequest, GatewayService,
}
use bonipam.Gateway.Grants.{request_jit_grant, approve_jit_grant, deny_jit_grant}
use bonipam.Gateway.Sessions.{new_session, terminated_session, initiate_session, terminate_session}
use bonipam.Gateway.Reach.{Step, request, approve, deny, initiate, terminate, Reach, here, next}

sessions-request_jit_grant :
    (s : GatewayService) (req : RequestJitGrantRequest) (id : String) (now : Time)
    → (request_jit_grant s req id now).1.sessions ≡ s.sessions
unfolding request_jit_grant
sessions-request_jit_grant s req id now = ground arith

sessions-approve_jit_grant :
    (s : GatewayService) (grant_id approver_id : String) (checked now : Time)
    → (approve_jit_grant s grant_id approver_id checked now).1.sessions ≡ s.sessions
unfolding approve_jit_grant
sessions-approve_jit_grant s grant_id approver_id checked now = ground arith

sessions-deny_jit_grant :
    (s : GatewayService) (grant_id approver_id reason : String)
    → (deny_jit_grant s grant_id approver_id reason).1.sessions ≡ s.sessions
unfolding deny_jit_grant
sessions-deny_jit_grant s grant_id approver_id reason = ground arith

module _ (s : GatewayService) (k : String) (x : GatewaySession)
    (found : get s.sessions k ≡ some x) where
  initiate_session-keeps :
      (req : InitiateSessionRequest) (id : String) (checked now : Time)
      → get s.sessions (append "gw-" id) ≡ none
      → get (initiate_session s req id checked now).1.sessions k ≡ some x
  unfolding initiate_session
  initiate_session-keeps req id checked now unused = ground (
    arith,
    eq_iff (append "gw-" id) k,
    get-put s.sessions (append "gw-" id) k (
        new_session req.metadata (trim_space req.user_id) (trim_space req.target_asset_id)
          (to_lower (trim_space req.protocol)) id now),
  )

  terminate_session-keeps_ended :
      (session_id reason : String) (now : Time)
      → is_terminated x.status ≡ true
      → get (terminate_session s session_id reason now).1.sessions k ≡ some x
  unfolding terminate_session
  terminate_session-keeps_ended session_id reason now ended =
      elim (Option-cases (get s.sessions session_id)) [
        | inl missing ↦ ground arith
        | inr (y, at) ↦ ground (
          arith,
          eq_iff session_id k,
          get-put s.sessions session_id k (terminated_session y (trim_space reason) now),
        )
      ]

Step-keeps_ended :
    {s t : GatewayService}
    → Step s t
    → (k : String) (x : GatewaySession) → get s.sessions k ≡ some x
    → is_terminated x.status ≡ true
    → get t.sessions k ≡ some x
Step-keeps_ended {s} (request req id now unused) k x h ended = rw sessions-request_jit_grant h
Step-keeps_ended {s} (approve grant_id approver_id checked now) k x h ended =
    rw sessions-approve_jit_grant h
Step-keeps_ended {s} (deny grant_id approver_id reason) k x h ended = rw sessions-deny_jit_grant h
Step-keeps_ended {s} (initiate req id checked now unused) k x h ended =
    initiate_session-keeps s k x h req id checked now unused
Step-keeps_ended {s} (terminate session_id reason now) k x h ended =
    terminate_session-keeps_ended s k x h session_id reason now ended

-- Over any run of the gateway a terminated session stays under its id with all its fields: it is
-- not opened again, and its time and reason of termination do not change.
Reach-keeps_ended :
    {s t : GatewayService}
    → Reach s t
    → (k : String) (x : GatewaySession) → get s.sessions k ≡ some x
    → is_terminated x.status ≡ true
    → get t.sessions k ≡ some x
Reach-keeps_ended here k x h ended = h
Reach-keeps_ended (next r st) k x h ended =
    Step-keeps_ended st k x (Reach-keeps_ended r k x h ended) ended

-- ===== src/Gateway/Reach.antt =====
-- The runs of a gateway: its operations as steps, what every step keeps, and what is final.
use Prim.Native.String.{◌++◌ as append}
use bonipam.Common.{
  String, ◌≡◌, ◌≢◌, true, none, some, arith, eq_iff, is_some, Option-cases, inl, inr,
}
use bonipam.Common.Int.{pos, ◌≤ℤ◌, seconds}
use bonipam.Go.Map.{get, get-put}
use bonipam.Go.Text.{trim_space, to_lower}
use bonipam.Go.Time.{Time, add}
use bonipam.Gateway.Types.{
  GrantStatus, pending, approved, denied, JitGrant, RequestJitGrantRequest, InitiateSessionRequest,
  GatewayService, supported_gateway_protocols,
}
use bonipam.Gateway.Grants.{
  default_ttl, request_jit_grant, approve_jit_grant, deny_jit_grant, new_grant, approved_grant,
  denied_grant,
}
use bonipam.Gateway.Sessions.{initiate_session, terminate_session}

-- One call of an operation that changes the gateway. The uuid of a new record is not in use.
pub data Step (s : GatewayService) : GatewayService → Type 0 where
  request :
      (req : RequestJitGrantRequest) (id : String) (now : Time)
      → get s.jit_grants (append "jit-" id) ≡ none
      → Step s (request_jit_grant s req id now).1
  approve :
      (grant_id approver_id : String) (checked now : Time)
      → Step s (approve_jit_grant s grant_id approver_id checked now).1
  deny :
      (grant_id approver_id reason : String)
      → Step s (deny_jit_grant s grant_id approver_id reason).1
  initiate :
      (req : InitiateSessionRequest) (id : String) (checked now : Time)
      → get s.sessions (append "gw-" id) ≡ none
      → Step s (initiate_session s req id checked now).1
  terminate :
      (session_id reason : String) (now : Time)
      → Step s (terminate_session s session_id reason now).1

pub data Reach (s : GatewayService) : GatewayService → Type 0 where
  here : Reach s s
  next : {t u : GatewayService} → Reach s t → Step t u → Reach s u

-- What the status of a grant says of its approver.
abbrev pub IsDecided : GrantStatus → JitGrant → Type 0
IsDecided pending g = (g.approver_id ≡ "") × (g.approved_at ≡ none)
IsDecided approved g = (g.approver_id ≢ "") × (is_some g.approved_at ≡ true)
IsDecided denied g = (g.approver_id ≢ "") × (g.approved_at ≡ none)

pub record IsValidGrant (g : JitGrant) : Type 0 where
  pub ttl_low : pos 60 ≤ℤ g.ttl_seconds
  pub ttl_high : g.ttl_seconds ≤ℤ pos 86400
  pub expiry : g.expires_at ≡ add g.created_at (seconds g.ttl_seconds)
  pub supported : supported_gateway_protocols g.protocol ≡ true
  pub decided : IsDecided g.status g

abbrev pub HasValidGrants : GatewayService → Type 0
HasValidGrants s = (k : String) (g : JitGrant) → get s.jit_grants k ≡ some g → IsValidGrant g

request-HasValidGrants :
    (s : GatewayService) (req : RequestJitGrantRequest) (id : String) (now : Time)
    → HasValidGrants s
    → HasValidGrants (request_jit_grant s req id now).1
unfolding request_jit_grant new_grant
request-HasValidGrants s req id now v k g h = ground (
  arith,
  v k g,
  get-put s.jit_grants (append "jit-" id) k (
      new_grant (trim_space req.user_id) (trim_space req.asset_id)
        (to_lower (trim_space req.protocol)) (trim_space req.reason)
        (default_ttl (pos 3600) req.ttl_seconds) id now),
)

approve-HasValidGrants :
    (s : GatewayService) (grant_id approver_id : String) (checked now : Time)
    → HasValidGrants s
    → HasValidGrants (approve_jit_grant s grant_id approver_id checked now).1
unfolding approve_jit_grant approved_grant
approve-HasValidGrants s grant_id approver_id checked now v k g h =
    elim (Option-cases (get s.jit_grants grant_id)) [
      | inl missing ↦ ground (arith, v k g)
      | inr (found, e) ↦ ground (
        arith,
        v k g,
        v grant_id found e,
        eq_iff (trim_space approver_id) "",
        get-put s.jit_grants grant_id k (approved_grant found (trim_space approver_id) now),
      )
    ]

deny-HasValidGrants :
    (s : GatewayService) (grant_id approver_id reason : String)
    → HasValidGrants s
    → HasValidGrants (deny_jit_grant s grant_id approver_id reason).1
unfolding deny_jit_grant denied_grant
deny-HasValidGrants s grant_id approver_id reason v k g h =
    elim (Option-cases (get s.jit_grants grant_id)) [
      | inl missing ↦ ground (arith, v k g)
      | inr (found, e) ↦ ground (
        arith,
        v k g,
        v grant_id found e,
        eq_iff (trim_space approver_id) "",
        get-put s.jit_grants grant_id k
            (denied_grant found (trim_space approver_id) (trim_space reason)),
      )
    ]

-- The session operations leave the grants alone.
pub jit_grants-initiate_session :
    (s : GatewayService) (req : InitiateSessionRequest) (id : String) (checked now : Time)
    → (initiate_session s req id checked now).1.jit_grants ≡ s.jit_grants
unfolding initiate_session
jit_grants-initiate_session s req id checked now = ground arith

pub jit_grants-terminate_session :
    (s : GatewayService) (session_id reason : String) (now : Time)
    → (terminate_session s session_id reason now).1.jit_grants ≡ s.jit_grants
unfolding terminate_session
jit_grants-terminate_session s session_id reason now = ground arith

Step-HasValidGrants : {s t : GatewayService} → Step s t → HasValidGrants s → HasValidGrants t
Step-HasValidGrants {s} (request req id now fresh) v = request-HasValidGrants s req id now v
Step-HasValidGrants {s} (approve grant_id approver_id checked now) v =
    approve-HasValidGrants s grant_id approver_id checked now v
Step-HasValidGrants {s} (deny grant_id approver_id reason) v =
    deny-HasValidGrants s grant_id approver_id reason v
Step-HasValidGrants {s} (initiate req id checked now fresh) v =
    λ k g h. v k g (rw jit_grants-initiate_session at h)
Step-HasValidGrants {s} (terminate session_id reason now) v =
    λ k g h. v k g (rw jit_grants-terminate_session at h)

-- In every gateway that a run reaches from one with only valid grants, each grant has a time to
-- live of 60 to 86400 seconds, ends that long after it was created, has a supported protocol, and
-- names an approver exactly if it is approved or denied, with a time of approval exactly if it is
-- approved.
pub Reach-HasValidGrants : {s t : GatewayService} → Reach s t → HasValidGrants s → HasValidGrants t
Reach-HasValidGrants here v = v
Reach-HasValidGrants (next r st) v = Step-HasValidGrants st (Reach-HasValidGrants r v)

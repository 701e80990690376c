-- ===== src/Gateway/Final.antt =====
-- What is final in a gateway: a decided grant, and a terminated session.
use Prim.Native.String.{◌++◌ as append}
use bonipam.Common.{
  String, ◌≡◌, refl, true, false, none, some, arith, eq_iff, ◌==◌, ◌∙◌, Option-cases, inl, inr, ◌⊎◌,
  Bool-cases,
}
use bonipam.Common.Int.{pos}
use bonipam.Go.Map.{get, put, get-put}
use bonipam.Go.Text.{trim_space, to_lower}
use bonipam.Go.Time.{Time}
use bonipam.Gateway.Types.{is_pending, JitGrant, RequestJitGrantRequest, GatewayService}
use bonipam.Gateway.Grants.{
  default_ttl, request_jit_grant, approve_jit_grant, deny_jit_grant, new_grant, approved_grant,
  denied_grant,
}
use bonipam.Gateway.Reach.{
  Step, request, approve, deny, initiate, terminate, Reach, here, next, jit_grants-initiate_session,
  jit_grants-terminate_session,
}

-- `g` became `g'`: the request part is the same, and nothing is different once it is decided.
pub record Follows (g g' : JitGrant) : Type 0 where
  pub user : g'.user_id ≡ g.user_id
  pub asset : g'.asset_id ≡ g.asset_id
  pub protocol_same : g'.protocol ≡ g.protocol
  pub expiry : g'.expires_at ≡ g.expires_at
  pub final : is_pending g.status ≡ false → g' ≡ g

Follows-refl : (g : JitGrant) → Follows g g
Follows-refl g = record {
  user = refl;
  asset = refl;
  protocol_same = refl;
  expiry = refl;
  final = λ _. refl;
}

Follows-trans : {a b c : JitGrant} → Follows a b → Follows b c → Follows a c
Follows-trans p q = record {
  user = q.user ∙ p.user;
  asset = q.asset ∙ p.asset;
  protocol_same = q.protocol_same ∙ p.protocol_same;
  expiry = q.expiry ∙ p.expiry;
  final = λ d. ground (arith, p.final d, q.final);
}

-- Where a grant is at `k` before, its follower is there after.
abbrev Keeps : GatewayService → GatewayService → Type 0
Keeps s t =
    (k : String) (g : JitGrant)
    → get s.jit_grants k ≡ some g
    → (g' : JitGrant) × (get t.jit_grants k ≡ some g') × Follows g g'

-- What a step does to the grants: nothing, a write at an id that is not in use, or a write of a
-- follower over the grant that was there.
data Effect (s t : GatewayService) : Type 0 where
  same : t.jit_grants ≡ s.jit_grants → Effect s t
  create :
      (key : String) (new : JitGrant)
      → get s.jit_grants key ≡ none
      → t.jit_grants ≡ put s.jit_grants key new
      → Effect s t
  update :
      (key : String) (found new : JitGrant)
      → get s.jit_grants key ≡ some found
      → Follows found new
      → t.jit_grants ≡ put s.jit_grants key new
      → Effect s t

Effect-Keeps : {s t : GatewayService} → Effect s t → Keeps s t
Effect-Keeps (same e) k g h = (g, rw e h, Follows-refl g)
Effect-Keeps {s} (create key new unused e) k g h =
    (g, rw e (ground (arith, get-put s.jit_grants key k new, eq_iff key k)), Follows-refl g)
Effect-Keeps {s} (update key found new at follows e) k g h = elim (Bool-cases (key == k)) [
  | inl hit ↦ (
    new,
    rw (e, get-put, hit),
    (let same_grant : found ≡ g = ground (arith, eq_iff key k) in rw same_grant at follows),
  )
  | inr miss ↦ (g, rw (e, get-put, miss) h, Follows-refl g)
]

request-Effect :
    (s : GatewayService) (req : RequestJitGrantRequest) (id : String) (now : Time)
    → get s.jit_grants (append "jit-" id) ≡ none
    → Effect s (request_jit_grant s req id now).1
unfolding request_jit_grant
request-Effect s req id now unused =
    let new =
      new_grant (trim_space req.user_id) (trim_space req.asset_id)
        (to_lower (trim_space req.protocol)) (trim_space req.reason)
        (default_ttl (pos 3600) req.ttl_seconds) id now in
    let t = (request_jit_grant s req id now).1 in
    let cases : (t.jit_grants ≡ s.jit_grants)
        ⊎ (t.jit_grants ≡ put s.jit_grants (append "jit-" id) new) =
      ground arith in
    elim cases [ inl e ↦ same e | inr e ↦ create (append "jit-" id) new unused e ]

-- A pending grant is followed by each grant that keeps its request part.
approved_grant-Follows :
    (g : JitGrant) (approver : String) (now : Time)
    → is_pending g.status ≡ true
    → Follows g (approved_grant g approver now)
unfolding approved_grant
approved_grant-Follows g approver now p = ground arith

denied_grant-Follows :
    (g : JitGrant) (approver reason : String)
    → is_pending g.status ≡ true
    → Follows g (denied_grant g approver reason)
unfolding denied_grant
denied_grant-Follows g approver reason p = ground arith

-- One write over a pending grant, or none.
abbrev Decides : (s t : GatewayService) → String → JitGrant → JitGrant → Type 0
Decides s t key found new =
    (t.jit_grants ≡ s.jit_grants)
    ⊎ ((is_pending found.status ≡ true) × (t.jit_grants ≡ put s.jit_grants key new))

module _ (s : GatewayService) (grant_id approver_id : String) where
  approve-Effect :
      (checked now : Time) → Effect s (approve_jit_grant s grant_id approver_id checked now).1
  unfolding approve_jit_grant
  approve-Effect checked now = elim (Option-cases (get s.jit_grants grant_id)) [
    | inl missing ↦ same (ground arith)
    | inr (g, at) ↦
        let new = approved_grant g (trim_space approver_id) now in
        let cases : Decides s (approve_jit_grant s grant_id approver_id checked now).1 grant_id g
            new =
          ground arith in
        elim cases [
          | inl e ↦ same e
          | inr (p, e) ↦
              update grant_id g new at (approved_grant-Follows g (trim_space approver_id) now p) e
        ]
  ]

  deny-Effect : (reason : String) → Effect s (deny_jit_grant s grant_id approver_id reason).1
  unfolding deny_jit_grant
  deny-Effect reason = elim (Option-cases (get s.jit_grants grant_id)) [
    | inl missing ↦ same (ground arith)
    | inr (g, at) ↦
        let new = denied_grant g (trim_space approver_id) (trim_space reason) in
        let cases : Decides s (deny_jit_grant s grant_id approver_id reason).1 grant_id g new =
          ground arith in
        elim cases [
          | inl e ↦ same e
          | inr (p, e) ↦
              update grant_id g new at
                (denied_grant-Follows g (trim_space approver_id) (trim_space reason) p) e
        ]
  ]

Step-Effect : {s t : GatewayService} → Step s t → Effect s t
Step-Effect {s} (request req id now unused) = request-Effect s req id now unused
Step-Effect {s} (approve grant_id approver_id checked now) =
    approve-Effect s grant_id approver_id checked now
Step-Effect {s} (deny grant_id approver_id reason) = deny-Effect s grant_id approver_id reason
Step-Effect {s} (initiate req id checked now unused) =
    same (jit_grants-initiate_session s req id checked now)
Step-Effect {s} (terminate session_id reason now) =
    same (jit_grants-terminate_session s session_id reason now)

-- Over any run of the gateway a grant stays under its id, with the user, the asset, the protocol
-- and the end of the request, and once it is approved or denied it never changes again.
pub Reach-Follows :
    {s t : GatewayService}
    → Reach s t
    → (k : String) (g : JitGrant) → get s.jit_grants k ≡ some g
    → (g' : JitGrant) × (get t.jit_grants k ≡ some g') × Follows g g'
Reach-Follows here k g h = (g, h, Follows-refl g)
Reach-Follows (next r st) k g h =
    let (g1, at1, f1) = Reach-Follows r k g h in
    let (g2, at2, f2) = Effect-Keeps (Step-Effect st) k g1 at1 in (g2, at2, Follows-trans f1 f2)

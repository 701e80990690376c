-- ===== src/Policy/Runs.antt =====
-- The runs of the policy service: its operations as steps, and what every step keeps.
use bonipam.Common.{String, ◌≡◌, none}
use bonipam.Common.Int.{ℤ}
use bonipam.Go.Map.{get}
use bonipam.Go.Time.{Time}
use bonipam.Policy.Types.{CreatePolicyRequest, UpdatePolicyRequest, Outside}
use bonipam.Policy.Store.{PolicyService, create_policy}
use bonipam.Policy.Change.{update_policy, publish_policy, rollback_policy}
use bonipam.Policy.Versions.{IsVersioned}
use bonipam.Policy.Effects.{
  Effect, Effect-IsVersioned, create_policy-Effect, update_policy-Effect, publish_policy-Effect,
  rollback_policy-Effect,
}

-- One call of an operation that changes the policies. The uuid of a new policy is not in use.
pub data Step (out : Outside) (s : PolicyService) : PolicyService → Type 0 where
  create :
      (req : CreatePolicyRequest) (id : String) (now : Time)
      → get s.policies id ≡ none
      → Step out s (create_policy out s req id now).1
  update :
      (policy_id : String) (req : UpdatePolicyRequest)
      → Step out s (update_policy out s policy_id req).1
  publish : (policy_id : String) (now : Time) → Step out s (publish_policy out s policy_id now).1
  rollback :
      (policy_id : String) (target : ℤ) (now : Time)
      → Step out s (rollback_policy out s policy_id target now).1

pub data Reach (out : Outside) (s : PolicyService) : PolicyService → Type 0 where
  here : Reach out s s
  next : {t u : PolicyService} → Reach out s t → Step out t u → Reach out s u

pub Step-Effect : (out : Outside) {s t : PolicyService} → Step out s t → Effect s t
Step-Effect out {s} (create req id now unused) = create_policy-Effect out s req id now unused
Step-Effect out {s} (update policy_id req) = update_policy-Effect out s policy_id req
Step-Effect out {s} (publish policy_id now) = publish_policy-Effect out s policy_id now
Step-Effect out {s} (rollback policy_id target now) =
    rollback_policy-Effect out s policy_id target now

-- In every state that a run reaches from a valid one, the table of each policy holds exactly the
-- versions from 1 to the policy's own, with the policy's definition under the last, and the policy
-- stands under its own id.
pub Reach-IsVersioned :
    (out : Outside) {s t : PolicyService} → Reach out s t → IsVersioned s → IsVersioned t
Reach-IsVersioned out here v = v
Reach-IsVersioned out (next r st) v =
    Effect-IsVersioned (Step-Effect out st) (Reach-IsVersioned out r v)

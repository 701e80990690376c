-- ===== src/Policy/Evaluation.antt =====
-- The response of an evaluation (policy_service.go, EvaluatePolicy), read off the stored policy.
use bonipam.Common.{
  ◌≡◌, String, ◌&&◌, ◌||◌, not, arith, ◌==◌, if◌then◌else◌, Result-cases, inl, inr, ok,
}
use bonipam.Go.Once.{Distinct}
use bonipam.Go.Text.{to_lower}
use bonipam.Go.Time.{Time}
use bonipam.Policy.Types.{Policy, PolicyEvaluationRequest, PolicyEvaluationResponse, Outside}
use bonipam.Policy.Store.{PolicyService, get_policy}
use bonipam.Policy.Change.{evaluation_of, query_of, evaluate_policy}
use bonipam.Policy.Decision.{some_rule, decide-exact, obligations-exact}

-- An evaluation that gives a response gives it for the policy that is stored under the id: it allows
-- exactly if no rule that applies denies, and a rule that applies allows or the default effect is
-- "allow" up to case; and no obligation stands twice.
evaluate_policy-exact :
    (out : Outside) (s : PolicyService) (policy_id : String) (req : PolicyEvaluationRequest)
    (now : Time) (r : PolicyEvaluationResponse)
    → evaluate_policy out s policy_id req now ≡ ok r
    → (p : Policy) × (get_policy out s policy_id ≡ ok p)
      × (r.policy_id ≡ p.id)
      × (r.decision ≡ (
          if not (some_rule (query_of out req now) "deny" p.definition.rules)
            && (some_rule (query_of out req now) "allow" p.definition.rules
                || to_lower p.definition.default_effect == "allow")
          then "allow"
          else "deny"))
      × Distinct r.obligations
unfolding evaluate_policy evaluation_of
evaluate_policy-exact out s policy_id req now r given =
    elim (Result-cases (get_policy out s policy_id)) [
      | inr (e, missing) ↦ absurd (ground arith)
      | inl (p, found) ↦
          let q = query_of out req now in
          (
            p,
            found,
            ground arith,
            ground (arith, decide-exact p.definition q),
            ground (arith, (obligations-exact p.definition q).0),
          )
    ]

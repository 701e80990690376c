-- ===== src/Policy/Change.antt =====
-- UpdatePolicy, PublishPolicy, RollbackPolicy and EvaluatePolicy (policy_service.go). `now` is what
-- time.Now() returns.
use bonipam.Common.{
  ℕ, ◌+◌, String, ◌&&◌, ◌||◌, not, Option, none, some, ◌==◌, if◌then◌else◌, nat_eq, Result, ok, err,
}
use bonipam.Common.Int.{ℤ, pos, negsuc}
use bonipam.Common.Lists.{length}
use bonipam.Go.Map.{get, put, any_entry}
use bonipam.Go.Text.{trim_space, equal_fold}
use bonipam.Go.Time.{Time}
use bonipam.Policy.Context.{resolve}
use bonipam.Policy.Evaluate.{Query, tally_definition, decide}
use bonipam.Policy.Store.{
  PolicyService, Outcome, get_version, put_version, versions_of, previous_version, validate_policy,
  get_policy,
}
use bonipam.Policy.Types.{
  draft, published, PolicyStatus, PolicyDefinition, Policy, UpdatePolicyRequest,
  PolicyEvaluationRequest, PolicyEvaluationResponse, PublishPolicyResponse, PolicyError, name_empty,
  policy_name_exists, invalid_policy_id, policy_not_found, request_fields_required, no_versions,
  no_previous_version, target_version_not_found, Outside,
}

-- The first part of UpdatePolicy: the policy with its new name.
unfoldable pub rename_policy : PolicyService → String → Policy → String → Result PolicyError Policy
rename_policy s id policy raw_name =
    if raw_name == ""
    then ok policy
    else let name = trim_space raw_name in
      if name == ""
      then err name_empty
      else if any_entry (λ other existing. not (other == id) && equal_fold existing.name name)
          s.policies
      then err policy_name_exists
      else ok (record policy { name = name })

-- The policy with a definition and the version after its own.
unfoldable pub next_version : Policy → PolicyDefinition → PolicyStatus → Option Time → Policy
next_version policy definition status published_at = record policy {
  version = policy.version + 1;
  status = status;
  definition = definition;
  published_at = published_at;
}

-- s.policies[id] = policy, and s.versions[id][policy.Version] = policy.Definition
unfoldable pub store_version : PolicyService → String → Policy → PolicyService
store_version s id policy = record s {
  policies = put s.policies id policy;
  versions = put s.versions id (put_version (versions_of s id) policy.version policy.definition);
}

-- The version to go back to: a target of 0 or less asks for the one before the current one, and
-- 0 says that there is none.
unfoldable pub rollback_target : PolicyService → Policy → ℤ → ℕ
rollback_target s policy (pos n) =
    if nat_eq n 0 then previous_version s policy.id policy.version else n
rollback_target s policy (negsuc n) = previous_version s policy.id policy.version

-- The last part of RollbackPolicy.
unfoldable pub roll_back_to :
    PolicyService → String → Policy → PolicyDefinition → Time → Outcome Policy
roll_back_to s id policy definition now =
    let policy' = next_version policy definition published (some now) in
    (
      ok policy',
      record (store_version s id policy') {
        published_versions = put s.published_versions id policy'.version;
      },
    )

-- RollbackPolicy on the policy that was found.
unfoldable pub rollback_found : PolicyService → String → Policy → ℤ → Time → Outcome Policy
rollback_found s id policy target_version now =
    if nat_eq (length (versions_of s id)) 0
    then (err no_versions, s)
    else let target = rollback_target s policy target_version in
      if nat_eq target 0
      then (err no_previous_version, s)
      else elim (get_version (versions_of s id) target) [
        | none ↦ (err target_version_not_found, s)
        | some definition ↦ roll_back_to s id policy definition now
      ]

-- The response for a policy that was found.
unfoldable pub evaluation_of : Policy → Query → PolicyEvaluationResponse
evaluation_of policy q =
    let t = tally_definition policy.definition q in
    record {
      policy_id = policy.id;
      decision = decide policy.definition q;
      obligations = t.obligations;
      matched_rule_ids = t.matched_rule_ids;
    }

module _ (out : Outside) where
  -- The second part of UpdatePolicy, on the policy that was renamed.
  unfoldable pub redefine_policy :
      PolicyService → String → Policy → Option PolicyDefinition → Outcome Policy
  redefine_policy s id policy none = (ok policy, record s { policies = put s.policies id policy })
  redefine_policy s id policy (some definition) = elim (validate_policy out definition) [
    | some e ↦ (err e, s)
    | none ↦
        let policy' = next_version policy definition draft none in
        (ok policy', store_version s id policy')
  ]

  unfoldable pub update_policy : PolicyService → String → UpdatePolicyRequest → Outcome Policy
  update_policy s policy_id req = elim (out.parse_uuid (trim_space policy_id)) [
    | none ↦ (err invalid_policy_id, s)
    | some id ↦ elim (get s.policies id) [
      | none ↦ (err policy_not_found, s)
      | some policy ↦ elim (rename_policy s id policy req.name) [
        | err e ↦ (err e, s)
        | ok renamed ↦ redefine_policy s id renamed req.definition
      ]
    ]
  ]

  unfoldable pub publish_policy : PolicyService → String → Time → Outcome PublishPolicyResponse
  publish_policy s policy_id now = elim (out.parse_uuid (trim_space policy_id)) [
    | none ↦ (err invalid_policy_id, s)
    | some id ↦ elim (get s.policies id) [
      | none ↦ (err policy_not_found, s)
      | some policy ↦ (
        ok (record {
          policy_id = policy.id;
          version = policy.version;
          status = published;
          published_at = now;
        }),
        record s {
          policies =
              put s.policies id (record policy { status = published; published_at = some now });
          published_versions = put s.published_versions id policy.version;
        },
      )
    ]
  ]

  unfoldable pub rollback_policy : PolicyService → String → ℤ → Time → Outcome Policy
  rollback_policy s policy_id target_version now = elim (out.parse_uuid (trim_space policy_id)) [
    | none ↦ (err invalid_policy_id, s)
    | some id ↦ elim (get s.policies id) [
      | none ↦ (err policy_not_found, s)
      | some policy ↦ rollback_found s id policy target_version now
    ]
  ]

  unfoldable pub query_of : PolicyEvaluationRequest → Time → Query
  query_of req now = record {
    subject = trim_space req.subject;
    resource = trim_space req.resource;
    action = trim_space req.action;
    attributes = resolve out req now;
  }

  unfoldable pub evaluate_policy :
      PolicyService
      → String
      → PolicyEvaluationRequest
      → Time
      → Result PolicyError PolicyEvaluationResponse
  evaluate_policy s policy_id req now = elim (get_policy out s policy_id) [
    | err e ↦ err e
    | ok policy ↦
        let q = query_of req now in
        if q.subject == "" || q.resource == "" || q.action == ""
        then err request_fields_required
        else ok (evaluation_of policy q)
  ]

-- ===== src/Policy/Types.antt =====
-- Policies, requests, responses and errors (backend/internal/domain/policy.go), and what the policy
-- engine takes from packages outside the repository. A version is a native number; it starts at 1 and
-- grows by one, so it does not reach the end of Go's int.
use bonipam.Common.{ℕ, String, Option, List}
use bonipam.Common.Int.{ℤ}
use bonipam.Go.Map.{Map}
use bonipam.Go.Time.{Time}
use bonipam.Policy.Value.{Value}

pub data PolicyStatus : Type 0 where
  draft published archived : PolicyStatus

pub record PolicyCondition : Type 0 where
  pub attribute : String
  pub operator : String
  pub value : Value

pub record PolicyRule : Type 0 where
  pub id : String
  pub effect : String
  pub subjects : List String
  pub resources : List String
  pub actions : List String
  pub conditions : List PolicyCondition
  pub obligations : List String

pub record PolicyDefinition : Type 0 where
  pub schema_version : String
  pub description : String
  pub rules : List PolicyRule
  pub default_effect : String

pub record Policy : Type 0 where
  pub id : String
  pub name : String
  pub version : ℕ
  pub status : PolicyStatus
  pub definition : PolicyDefinition
  pub created_by : String
  pub created_at : Time
  pub published_at : Option Time

pub record CreatePolicyRequest : Type 0 where
  pub name : String
  pub definition : PolicyDefinition
  pub created_by : String

pub record UpdatePolicyRequest : Type 0 where
  pub name : String
  pub definition : Option PolicyDefinition

pub record PolicyEvaluationRequest : Type 0 where
  pub subject : String
  pub resource : String
  pub action : String
  pub source_ip : String
  pub device_id : String
  pub device_trust : String
  pub risk_score : Option ℤ
  pub request_time : String
  pub attributes : Map Value

pub record PolicyEvaluationResponse : Type 0 where
  pub policy_id : String
  pub decision : String
  pub obligations : List String
  pub matched_rule_ids : List String

pub record PublishPolicyResponse : Type 0 where
  pub policy_id : String
  pub version : ℕ
  pub status : PolicyStatus
  pub published_at : Time

-- What gojsonschema.Validate and Result.Valid answer: a valid document, a report on an invalid one,
-- or an error of the validator.
pub data SchemaAnswer : Type 0 where
  valid : SchemaAnswer
  invalid failed : String → SchemaAnswer

-- The errors of policy_service.go, one for each message.
pub data PolicyError : Type 0 where
  name_required name_empty created_by_invalid policy_name_exists : PolicyError
  invalid_policy_id policy_not_found request_fields_required : PolicyError
  no_versions no_previous_version target_version_not_found : PolicyError
  unsupported_schema_version definition_invalid validation_failed : String → PolicyError

-- What the engine takes from outside: uuid.Parse, the JSON schema validator on the embedded schema of
-- version 1.0, and time.Parse and Time.Format of the three layouts that the context resolver uses.
pub record Outside : Type 0 where
  pub parse_uuid : String → Option String
  pub validate_schema : PolicyDefinition → SchemaAnswer
  pub parse_rfc3339 : String → Option Time
  pub format_clock : Time → String
  pub format_rfc3339 : Time → String
  pub weekday : Time → String

-- ===== src/Policy/Store.antt =====
-- The policies, their versions and the published versions (policy_service.go). `id` is what uuid.New()
-- returns, `now` what time.Now() returns.
use bonipam.Common.{
  ℕ, String, Bool, ◌&&◌, Option, none, some, List, [], ◌∷◌, ◌==◌, if◌then◌else◌, nat_eq, ltb,
  Result, ok, err,
}
use bonipam.Go.Map.{Map, get, put, any_entry, values, or_else}
use bonipam.Go.Sort.{sort_slice}
use bonipam.Go.Text.{trim_space, equal_fold}
use bonipam.Go.Time.{Time, before}
use bonipam.Policy.Types.{
  draft, PolicyDefinition, Policy, CreatePolicyRequest, valid, invalid, failed, SchemaAnswer,
  PolicyError, name_required, created_by_invalid, policy_name_exists, invalid_policy_id,
  policy_not_found, unsupported_schema_version, definition_invalid, validation_failed, Outside,
}

-- map[int]PolicyDefinition
abbrev pub Versions : Type 0
Versions = List (ℕ × PolicyDefinition)

unfoldable pub get_version : Versions → ℕ → Option PolicyDefinition
get_version [] n = none
get_version ((m, d) ∷ vs) n = if nat_eq m n then some d else get_version vs n

unfoldable pub put_version : Versions → ℕ → PolicyDefinition → Versions
put_version [] n d = (n, d) ∷ []
put_version ((m, e) ∷ vs) n d =
    let rest = put_version vs n d in if nat_eq m n then (n, d) ∷ vs else (m, e) ∷ rest

pub record PolicyService : Type 0 where
  pub policies : Map Policy
  pub versions : Map Versions
  pub published_versions : Map ℕ

abbrev pub Outcome : Type 0 → Type 0
Outcome A = Result PolicyError A × PolicyService

abbrev pub versions_of : PolicyService → String → Versions
versions_of s id = or_else (get s.versions id) []

-- previousVersion: the greatest version below the current one, or 0.
unfoldable pub best_below : ℕ → ℕ → Versions → ℕ
best_below current best [] = best
best_below current best ((version, d) ∷ vs) =
    best_below current (if ltb version current && ltb best version then version else best) vs

unfoldable pub previous_version : PolicyService → String → ℕ → ℕ
previous_version s id current = best_below current 0 (versions_of s id)

unfoldable pub schema_error : SchemaAnswer → Option PolicyError
schema_error valid = none
schema_error (invalid report) = some (definition_invalid report)
schema_error (failed report) = some (validation_failed report)

-- The policy that CreatePolicy stores.
unfoldable pub new_policy : String → PolicyDefinition → String → String → Time → Policy
new_policy name definition created_by id now = record {
  id = id;
  name = name;
  version = 1;
  status = draft;
  definition = definition;
  created_by = created_by;
  created_at = now;
  published_at = none;
}

-- s.policies[policy.ID] = policy, and its versions: the first one.
unfoldable pub insert_policy : PolicyService → Policy → PolicyService
insert_policy s policy = record s {
  policies = put s.policies policy.id policy;
  versions = put s.versions policy.id ((1, policy.definition) ∷ []);
}

unfoldable pub store_new_policy : PolicyService → Policy → Outcome Policy
store_new_policy s policy =
    if any_entry (λ _ existing. equal_fold existing.name policy.name) s.policies
    then (err policy_name_exists, s)
    else (ok policy, insert_policy s policy)

unfoldable pub created_before : Policy → Policy → Bool
created_before a b = before a.created_at b.created_at

unfoldable pub list_policies : PolicyService → List Policy
unfolding created_before
list_policies s = sort_slice created_before (values s.policies)

module _ (out : Outside) where
  -- ValidatePolicy; `none` is Go's nil error.
  unfoldable pub validate_policy : PolicyDefinition → Option PolicyError
  validate_policy definition =
      if definition.schema_version == "1.0"
      then schema_error (out.validate_schema definition)
      else some (unsupported_schema_version definition.schema_version)

  unfoldable pub parse_creator : String → Option String
  parse_creator text =
      let trimmed = trim_space text in
      if trimmed == "" then some "00000000-0000-0000-0000-000000000000" else out.parse_uuid trimmed

  unfoldable pub create_policy :
      PolicyService → CreatePolicyRequest → String → Time → Outcome Policy
  create_policy s req id now =
      let name = trim_space req.name in
      if name == "" then (err name_required, s) else elim (validate_policy req.definition) [
        | some e ↦ (err e, s)
        | none ↦ elim (parse_creator req.created_by) [
          | none ↦ (err created_by_invalid, s)
          | some created_by ↦ store_new_policy s (new_policy name req.definition created_by id now)
        ]
      ]

  unfoldable pub get_policy : PolicyService → String → Result PolicyError Policy
  get_policy s policy_id = elim (out.parse_uuid (trim_space policy_id)) [
    | none ↦ err invalid_policy_id
    | some id ↦ elim (get s.policies id) [ none ↦ err policy_not_found | some policy ↦ ok policy ]
  ]

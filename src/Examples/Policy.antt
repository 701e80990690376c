-- ===== src/Examples/Policy.antt =====
-- A small policy (backend/internal/service/policy_service.go), and what the theorems say of it.
use bonipam.Common.{
  ◌+◌, ◌≡◌, ◌↔◌, refl, true, ◌&&◌, ◌||◌, not, none, some, [], ◌∷◌, ◌==◌, if◌then◌else◌, arith,
  eq_iff,
}
use bonipam.Common.Int.{pos}
use bonipam.Go.Map.{get}
use bonipam.Go.Text.{trim_space, to_lower}
use bonipam.Policy.Value.{num}
use bonipam.Policy.Types.{
  draft, published, PolicyRule, PolicyDefinition, Policy, SchemaAnswer, Outside,
}
use bonipam.Policy.Conditions.{matches_pattern}
use bonipam.Policy.Evaluate.{Query, decide}
use bonipam.Policy.Store.{PolicyService, versions_of, get_version}
use bonipam.Policy.Change.{next_version, publish_policy, rollback_policy, rollback_target}
use bonipam.Policy.Decision.{some_rule, decide-exact}
use bonipam.Policy.Patterns.{Matches, matches_pattern_iff}
use bonipam.Policy.Versions.{IsVersioned, IsCurrent}
use bonipam.Policy.Runs.{here, next, publish, rollback, Reach-IsVersioned}
use bonipam.Policy.History.{Continues, Reach-Continues}
use bonipam.Policy.Rollback.{rollback_policy-restores, wanted_version}

abbrev allow_ops : PolicyRule
allow_ops = record {
  id = "r1";
  effect = "Allow";
  subjects = "usr-*" ∷ [];
  resources = "db-1" ∷ [];
  actions = "*" ∷ [];
  conditions = [];
  obligations = "record" ∷ [];
}

abbrev deny_risk : PolicyRule
deny_risk = record {
  id = "";
  effect = "deny";
  subjects = "*" ∷ [];
  resources = "*" ∷ [];
  actions = "*" ∷ [];
  conditions = record { attribute = "risk_score"; operator = "gt"; value = num (pos 70) } ∷ [];
  obligations = "alert" ∷ [];
}

abbrev office : PolicyDefinition
office = record {
  schema_version = "1.0";
  description = "";
  rules = allow_ops ∷ deny_risk ∷ [];
  default_effect = "deny";
}

abbrev swapped : PolicyDefinition
swapped = record office { rules = deny_risk ∷ allow_ops ∷ [] }

abbrev risky : Query
risky = record {
  subject = "usr-1";
  resource = "db-1";
  action = "read";
  attributes = ("risk_score", num (pos 90)) ∷ [];
}

decide-exact_example : decide office risky ≡ (
    if not (some_rule risky "deny" office.rules)
      && (some_rule risky "allow" office.rules || to_lower "deny" == "allow")
    then "allow"
    else "deny")
decide-exact_example = decide-exact office risky

matches_pattern_iff_example : (matches_pattern "usr-*" "usr-1" ≡ true) ↔ Matches "usr-*" "usr-1"
matches_pattern_iff_example = matches_pattern_iff "usr-*" "usr-1"

-- A parser that takes every text as an id, and a schema that every definition meets.
abbrev lenient : Outside
lenient = record {
  parse_uuid = λ s. some s;
  validate_schema = λ d. SchemaAnswer.valid;
  parse_rfc3339 = λ s. none;
  format_clock = λ t. "12:00";
  format_rfc3339 = λ t. "1970-01-01T00:00:00Z";
  weekday = λ t. "Thursday";
}

abbrev policy_2 : Policy
policy_2 = record {
  id = "p1";
  name = "office";
  version = 2;
  status = draft;
  definition = swapped;
  created_by = "u1";
  created_at = pos 1;
  published_at = none;
}

abbrev store_2 : PolicyService
store_2 = record {
  policies = ("p1", policy_2) ∷ [];
  versions = ("p1", (1, office) ∷ (2, swapped) ∷ []) ∷ [];
  published_versions = [];
}

store_2-IsCurrent : IsCurrent ((1, office) ∷ (2, swapped) ∷ []) policy_2
unfolding get_version
store_2-IsCurrent = record { current = refl; dense = λ v. ground arith }

store_2-IsVersioned : IsVersioned store_2
unfolding get
store_2-IsVersioned = record {
  at = λ k p h.
      let key : k ≡ "p1" = ground (arith, eq_iff "p1" k) in
      let same : p ≡ policy_2 = ground (arith, eq_iff "p1" k) in rw (key, same) store_2-IsCurrent;
  id_of = λ k p h. ground (arith, eq_iff "p1" k);
}

Reach-IsVersioned_example : IsVersioned (publish_policy lenient store_2 "p1" (pos 9)).1
Reach-IsVersioned_example =
    Reach-IsVersioned lenient {s = store_2} (next here (publish "p1" (pos 9))) store_2-IsVersioned

Reach-Continues_example :
    Continues store_2 (rollback_policy lenient store_2 "p1" (pos 1) (pos 9)).1 "p1" policy_2
unfolding get
Reach-Continues_example =
    Reach-Continues lenient "p1" policy_2 (next here (rollback "p1" (pos 1) (pos 9)))
      store_2-IsVersioned refl

abbrev restored_2 : Policy
restored_2 = record policy_2 {
  version = 3;
  status = published;
  definition = office;
  published_at = some (pos 9);
}

rollback_policy-restores_example :
    (d : PolicyDefinition) × (get_version
        (versions_of store_2 "p1")
        (wanted_version policy_2 (pos 1))
      ≡ some d)
    × (restored_2 ≡ record policy_2 {
      version = policy_2.version + 1;
      status = published;
      definition = d;
      published_at = some (pos 9);
    })
    × (get (rollback_policy lenient store_2 "p1" (pos 1) (pos 9)).1.policies "p1" ≡ some restored_2)
    × (get_version
          (versions_of (rollback_policy lenient store_2 "p1" (pos 1) (pos 9)).1 "p1")
          restored_2.version
        ≡ some d)
    × (get (rollback_policy lenient store_2 "p1" (pos 1) (pos 9)).1.published_versions "p1"
        ≡ some restored_2.version)
unfolding trim_space get rollback_policy bonipam.Policy.Change.rollback_found rollback_target
    get_version bonipam.Policy.Change.roll_back_to next_version
rollback_policy-restores_example =
    rollback_policy-restores lenient store_2 "p1" "p1" policy_2 (pos 1) (pos 9) restored_2
      store_2-IsVersioned refl refl refl

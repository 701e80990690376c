-- ===== src/Policy/Evaluate.antt =====
-- EvaluatePolicy on a definition (policy_service.go): the loop over the rules and the decision.
use Prim.Native.String.{◌++◌ as append}
use bonipam.Common.{
  ℕ, ◌+◌, String, Bool, false, ◌&&◌, ◌||◌, not, List, [], ◌∷◌, ◌++◌, map, ◌==◌, if◌then◌else◌,
}
use bonipam.Go.Decimal.{decimal}
use bonipam.Go.Map.{Map}
use bonipam.Go.Once.{push_all}
use bonipam.Go.Text.{trim_space, to_lower}
use bonipam.Policy.Conditions.{matches_any, conditions_match}
use bonipam.Policy.Types.{PolicyRule, PolicyDefinition}
use bonipam.Policy.Value.{Value}

-- The trimmed texts of the request and the resolved attributes.
pub record Query : Type 0 where
  pub subject : String
  pub resource : String
  pub action : String
  pub attributes : Map Value

-- The variables of the loop.
pub record Tally : Type 0 where
  pub obligations : List String
  pub matched_rule_ids : List String
  pub has_allow : Bool
  pub has_deny : Bool

abbrev pub empty_tally : Tally
empty_tally = record {
  obligations = [];
  matched_rule_ids = [];
  has_allow = false;
  has_deny = false;
}

-- The four `continue`s of the loop.
unfoldable pub rule_applies : Query → PolicyRule → Bool
rule_applies q rule =
    matches_any rule.subjects q.subject
    && matches_any rule.resources q.resource
    && matches_any rule.actions q.action
    && conditions_match rule.conditions q.attributes

unfoldable pub rule_name : ℕ → PolicyRule → String
rule_name i rule =
    let rule_id = trim_space rule.id in
    if rule_id == "" then append "rule-" (decimal (i + 1)) else rule_id

unfoldable pub rule_effect : PolicyRule → String
rule_effect rule = to_lower (trim_space rule.effect)

-- One round of the loop.
unfoldable pub tally_rule : Query → ℕ → PolicyRule → Tally → Tally
tally_rule q i rule t = if not (rule_applies q rule) then t else record {
  obligations = push_all t.obligations (map trim_space rule.obligations);
  matched_rule_ids = t.matched_rule_ids ++ rule_name i rule ∷ [];
  has_allow = t.has_allow || rule_effect rule == "allow";
  has_deny = t.has_deny || rule_effect rule == "deny";
}

unfoldable pub tally_rules : Query → ℕ → List PolicyRule → Tally → Tally
tally_rules q i [] t = t
tally_rules q i (rule ∷ rest) t = tally_rules q (i + 1) rest (tally_rule q i rule t)

unfoldable pub default_decision : String → String
default_decision effect = if to_lower effect == "allow" then "allow" else "deny"

unfoldable pub final_decision : String → Tally → String
final_decision default_effect t =
    if t.has_deny then "deny" else if t.has_allow then "allow" else default_decision default_effect

unfoldable pub tally_definition : PolicyDefinition → Query → Tally
tally_definition definition q = tally_rules q 0 definition.rules empty_tally

unfoldable pub decide : PolicyDefinition → Query → String
unfolding tally_definition
decide definition q = final_decision definition.default_effect (tally_definition definition q)

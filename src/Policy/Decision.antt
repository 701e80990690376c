-- ===== src/Policy/Decision.antt =====
-- The decision, the obligations and the matched rules of an evaluation, against an independent reading
-- of the rules: those that apply, in any order.
use mathlib.Core.List.{Perm}
use bonipam.Common.{
  ℕ, ◌+◌, String, Bool, ◌≡◌, ◌&&◌, ◌||◌, not, List, [], ◌∷◌, map, ◌==◌, arith, if◌then◌else◌,
}
use bonipam.Common.Lists.{any, any-perm}
use bonipam.Go.Once.{has, Distinct, has-push_all, push_all-Distinct}
use bonipam.Go.Text.{trim_space, to_lower}
use bonipam.Policy.Types.{PolicyRule, PolicyDefinition}
use bonipam.Policy.Evaluate.{
  Query, Tally, empty_tally, rule_applies, rule_effect, tally_rule, tally_rules, default_decision,
  final_decision, tally_definition, decide,
}

-- Some rule that applies has the effect.
abbrev pub some_rule : Query → String → List PolicyRule → Bool
some_rule q effect rules = any (λ r. rule_applies q r && rule_effect r == effect) rules

-- What one round adds.
module _ (q : Query) (i : ℕ) (rule : PolicyRule) (t : Tally) where
  has_deny-tally_rule :
      (tally_rule q i rule t).has_deny
      ≡ (t.has_deny || (rule_applies q rule && rule_effect rule == "deny"))
  unfolding tally_rule
  has_deny-tally_rule = ground arith

  has_allow-tally_rule :
      (tally_rule q i rule t).has_allow
      ≡ (t.has_allow || (rule_applies q rule && rule_effect rule == "allow"))
  unfolding tally_rule
  has_allow-tally_rule = ground arith

  has-obligations-tally_rule :
      (v : String)
      → has (tally_rule q i rule t).obligations v ≡ (
          has t.obligations v
          || (not (v == "") && (rule_applies q rule && has (map trim_space rule.obligations) v)))
  unfolding tally_rule
  has-obligations-tally_rule v =
      ground (arith, has-push_all t.obligations (map trim_space rule.obligations) v)

  obligations-tally_rule-Distinct :
      Distinct t.obligations → Distinct (tally_rule q i rule t).obligations
  unfolding tally_rule
  obligations-tally_rule-Distinct h =
      ground (arith, push_all-Distinct t.obligations (map trim_space rule.obligations) h)

has_deny-tally_rules :
    (q : Query) (i : ℕ) (rules : List PolicyRule) (t : Tally)
    → (tally_rules q i rules t).has_deny ≡ (t.has_deny || some_rule q "deny" rules)
unfolding tally_rules
has_deny-tally_rules q i [] t = ground arith
has_deny-tally_rules q i (rule ∷ rest) t = ground (
  arith,
  has_deny-tally_rules q (i + 1) rest (tally_rule q i rule t),
  has_deny-tally_rule q i rule t,
)

has_allow-tally_rules :
    (q : Query) (i : ℕ) (rules : List PolicyRule) (t : Tally)
    → (tally_rules q i rules t).has_allow ≡ (t.has_allow || some_rule q "allow" rules)
unfolding tally_rules
has_allow-tally_rules q i [] t = ground arith
has_allow-tally_rules q i (rule ∷ rest) t = ground (
  arith,
  has_allow-tally_rules q (i + 1) rest (tally_rule q i rule t),
  has_allow-tally_rule q i rule t,
)

-- Some rule that applies lists the obligation.
abbrev pub some_obligation : Query → String → List PolicyRule → Bool
some_obligation q v rules =
    any (λ r. rule_applies q r && has (map trim_space r.obligations) v) rules

has-obligations-tally_rules :
    (q : Query) (i : ℕ) (rules : List PolicyRule) (t : Tally) (v : String)
    → has (tally_rules q i rules t).obligations v
      ≡ (has t.obligations v || (not (v == "") && some_obligation q v rules))
unfolding tally_rules
has-obligations-tally_rules q i [] t v = ground arith
has-obligations-tally_rules q i (rule ∷ rest) t v = ground (
  arith,
  has-obligations-tally_rules q (i + 1) rest (tally_rule q i rule t) v,
  has-obligations-tally_rule q i rule t v,
)

obligations-tally_rules-Distinct :
    (q : Query) (i : ℕ) (rules : List PolicyRule) (t : Tally)
    → Distinct t.obligations
    → Distinct (tally_rules q i rules t).obligations
unfolding tally_rules
obligations-tally_rules-Distinct q i [] t h = h
obligations-tally_rules-Distinct q i (rule ∷ rest) t h =
    obligations-tally_rules-Distinct q (i + 1) rest (tally_rule q i rule t)
      (obligations-tally_rule-Distinct q i rule t h)

-- An evaluation allows exactly if no rule that applies denies, and a rule that applies allows or the
-- default effect is "allow" up to case; in every other case it denies.
pub decide-exact :
    (definition : PolicyDefinition) (q : Query)
    → decide definition q ≡ (
        if not (some_rule q "deny" definition.rules)
          && (some_rule q "allow" definition.rules || to_lower definition.default_effect == "allow")
        then "allow"
        else "deny")
unfolding decide final_decision default_decision
decide-exact definition q = ground (
  arith,
  has_deny-tally_rules q 0 definition.rules empty_tally,
  has_allow-tally_rules q 0 definition.rules empty_tally,
)

-- The decision does not depend on the order of the rules.
decide-perm :
    (d d' : PolicyDefinition) (q : Query)
    → Perm d.rules d'.rules
    → d.default_effect ≡ d'.default_effect
    → decide d q ≡ decide d' q
decide-perm d d' q rules effect = ground (
  arith,
  decide-exact d q,
  decide-exact d' q,
  any-perm (λ r. rule_applies q r && rule_effect r == "deny") rules,
  any-perm (λ r. rule_applies q r && rule_effect r == "allow") rules,
)

-- The obligations of an evaluation are the trimmed texts that a rule that applies lists, less the empty
-- one, and none stands twice.
pub obligations-exact :
    (definition : PolicyDefinition) (q : Query)
    → Distinct (tally_definition definition q).obligations
      × ((v : String)
          → has (tally_definition definition q).obligations v
            ≡ (not (v == "") && some_obligation q v definition.rules))
unfolding tally_definition
obligations-exact definition q = (
  obligations-tally_rules-Distinct q 0 definition.rules empty_tally tt,
  λ v. unfold has in has-obligations-tally_rules q 0 definition.rules empty_tally v,
)

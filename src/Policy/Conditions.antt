-- ===== src/Policy/Conditions.antt =====
-- Patterns and conditions of a rule (policy_service.go).
use bonipam.Common.{
  String, Bool, true, false, ◌&&◌, ◌||◌, not, none, some, List, [], ◌∷◌, ◌==◌, if◌then◌else◌,
}
use bonipam.Common.Int.{ℤ, pos, ltb_ℤ, leb_ℤ}
use bonipam.Common.Lists.{any}
use bonipam.Go.Map.{Map, get}
use bonipam.Go.Text.{trim_space, to_lower, has_prefix, ends_in_star, trim_star}
use bonipam.Policy.Value.{Value, loosely_equal, compare_scalars, to_interface_slice}
use bonipam.Policy.Types.{PolicyCondition}

unfoldable pub matches_pattern : String → String → Bool
matches_pattern pattern value =
    if pattern == "*"
    then true
    else if ends_in_star pattern
    then has_prefix value (trim_star pattern)
    else pattern == value

-- With no pattern nothing matches.
unfoldable pub matches_any : List String → String → Bool
matches_any [] value = false
matches_any (pattern ∷ rest) value =
    matches_pattern (trim_space pattern) value || matches_any rest value

-- The inner switch: the comparison that the operator asks for.
unfoldable pub order_test : String → ℤ → Bool
order_test operator cmp =
    if operator == "gt"
    then ltb_ℤ (pos 0) cmp
    else if operator == "gte"
    then leb_ℤ (pos 0) cmp
    else if operator == "lt"
    then ltb_ℤ cmp (pos 0)
    else leb_ℤ cmp (pos 0)

unfoldable pub evaluate_order : String → Value → Value → Bool
evaluate_order operator actual expected = elim (compare_scalars actual expected) [
  | none ↦ false
  | some cmp ↦ order_test operator cmp
]

unfoldable pub evaluate_member : String → Value → Value → Bool
evaluate_member operator actual expected = elim (to_interface_slice expected) [
  | none ↦ false
  | some items ↦
      let found = any (λ item. loosely_equal actual item) items in
      if operator == "in" then found else not found
]

unfoldable pub within : Value → List Value → Bool
within actual (low ∷ high ∷ []) = elim (compare_scalars actual low) [
  | none ↦ false
  | some low_cmp ↦ elim (compare_scalars actual high) [
    | none ↦ false
    | some high_cmp ↦ leb_ℤ (pos 0) low_cmp && leb_ℤ high_cmp (pos 0)
  ]
]
within actual [] = false
within actual _ = false

unfoldable pub evaluate_between : Value → Value → Bool
evaluate_between actual expected = elim (to_interface_slice expected) [
  | none ↦ false
  | some items ↦ within actual items
]

unfoldable pub evaluate_condition : Value → String → Value → Bool
evaluate_condition actual raw_operator expected =
    let operator = to_lower (trim_space raw_operator) in
    if operator == "eq"
    then loosely_equal actual expected
    else if operator == "neq"
    then not (loosely_equal actual expected)
    else if operator == "gt" || operator == "gte" || operator == "lt" || operator == "lte"
    then evaluate_order operator actual expected
    else if operator == "in" || operator == "nin"
    then evaluate_member operator actual expected
    else if operator == "between"
    then evaluate_between actual expected
    else false

-- An attribute that is not known fails its condition.
unfoldable pub condition_holds : Map Value → PolicyCondition → Bool
condition_holds attrs condition = elim (get attrs condition.attribute) [
  | none ↦ false
  | some actual ↦ evaluate_condition actual condition.operator condition.value
]

-- The attributes that the resolver makes are never Go's nil map.
unfoldable pub conditions_match : List PolicyCondition → Map Value → Bool
conditions_match [] attrs = true
conditions_match (condition ∷ rest) attrs =
    condition_holds attrs condition && conditions_match rest attrs

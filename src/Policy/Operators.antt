-- ===== src/Policy/Operators.antt =====
-- How the operators of conditions relate.
use bonipam.Common.{◌≡◌, ◌&&◌, not, arith, is_some}
use bonipam.Go.Text.{trim_space, to_lower}
use bonipam.Policy.Value.{Value, array, element, no_element, to_interface_slice}
use bonipam.Policy.Conditions.{
  order_test, evaluate_order, evaluate_member, within, evaluate_between, evaluate_condition,
}

-- "between" holds of a list of two bounds exactly if "gte" holds of the first and "lte" of the second.
between-exact :
    (actual low high : Value)
    → evaluate_condition actual "between" (array (element low (element high no_element)))
      ≡ (evaluate_condition actual "gte" low && evaluate_condition actual "lte" high)
unfolding evaluate_condition evaluate_between evaluate_order order_test within to_interface_slice
    to_lower trim_space
between-exact actual low high = ground arith

-- Of a list, "nin" holds exactly if "in" does not; of any other value neither holds.
nin-exact :
    (actual expected : Value)
    → (evaluate_condition actual "nin" expected
        ≡ (is_some (to_interface_slice expected) && not (evaluate_condition actual "in" expected)))
      × (evaluate_condition actual "neq" expected ≡ not (evaluate_condition actual "eq" expected))
unfolding evaluate_condition evaluate_member to_lower trim_space
nin-exact actual expected = (ground arith, ground arith)

-- ===== src/Policy/Value.antt =====
-- The values of an `interface{}` that encoding/json decodes: null, booleans, numbers, texts, arrays and
-- objects. A number is a finite float64, written as the integer by which 2 ^ -1074 is multiplied.
use bonipam.Common.{
  String, Bool, true, false, ◌&&◌, Option, none, some, List, [], ◌∷◌, ◌==◌, if◌then◌else◌, nat_eq,
  ℕ, suc,
}
use bonipam.Common.Int.{ℤ, pos, negsuc, ltb_ℤ, eq_ℤ}
use bonipam.Go.Text.{text_less}

mutual
  pub data Value : Type 0 where
    object : Members → Value
    array : Elements → Value
    str : String → Value
    num : ℤ → Value
    bool : Bool → Value
    null : Value

  pub data Members : Type 0 where
    member : String → Value → Members → Members
    no_member : Members

  pub data Elements : Type 0 where
    element : Value → Elements → Elements
    no_element : Elements

abbrev pub to_list : Elements → List Value
to_list no_element = []
to_list (element v vs) = v ∷ to_list vs

member_count : Members → ℕ
member_count no_member = 0
member_count (member k v fs) = suc (member_count fs)

find_member : Members → String → Option Value
find_member no_member k = none
find_member (member j v fs) k = if j == k then some v else find_member fs k

bool_eq : Bool → Bool → Bool
bool_eq true b = b
bool_eq false true = false
bool_eq false false = true

-- reflect.DeepEqual. Two objects are equal if they have as many keys and each key of the first has an
-- equal value in the second.
unfoldable mutual
  unfolding member_count find_member bool_eq

  pub deep_equal : Value → Value → Bool
  deep_equal null null = true
  deep_equal (bool a) (bool b) = bool_eq a b
  deep_equal (num a) (num b) = eq_ℤ a b
  deep_equal (str a) (str b) = a == b
  deep_equal (array xs) (array ys) = equal_elements xs ys
  deep_equal (object fs) (object gs) =
      nat_eq (member_count fs) (member_count gs) && equal_members fs gs
  deep_equal _ _ = false

  equal_elements : Elements → Elements → Bool
  equal_elements no_element no_element = true
  equal_elements (element x xs) (element y ys) = deep_equal x y && equal_elements xs ys
  equal_elements _ _ = false

  equal_members : Members → Members → Bool
  equal_members no_member gs = true
  equal_members (member k v fs) gs =
      let rest = equal_members fs gs in
      elim (find_member gs k) [ none ↦ false | some w ↦ deep_equal v w && rest ]

-- toFloat64, on decoded values.
unfoldable pub to_float64 : Value → Option ℤ
to_float64 (num x) = some x
to_float64 null = none
to_float64 _ = none

-- toInterfaceSlice, on decoded values.
unfoldable pub to_interface_slice : Value → Option (List Value)
to_interface_slice (array xs) = some (to_list xs)
to_interface_slice null = none
to_interface_slice _ = none

unfoldable pub loosely_equal : Value → Value → Bool
loosely_equal a b = elim (to_float64 a) [
  | none ↦ deep_equal a b
  | some x ↦ elim (to_float64 b) [ none ↦ deep_equal a b | some y ↦ eq_ℤ x y ]
]

compare_floats : ℤ → ℤ → ℤ
compare_floats a b = if ltb_ℤ a b then negsuc 0 else if ltb_ℤ b a then pos 1 else pos 0

compare_texts : String → String → ℤ
compare_texts a b = if text_less a b then negsuc 0 else if text_less b a then pos 1 else pos 0

-- `value.(string)`
unfoldable pub as_text : Value → Option String
as_text (str s) = some s
as_text null = none
as_text _ = none

-- -1, 0 or 1; `none` where Go returns false beside it.
unfoldable pub compare_scalars : Value → Value → Option ℤ
unfolding compare_floats compare_texts
compare_scalars a b = elim (to_float64 a) [
  | some af ↦ elim (to_float64 b) [ none ↦ none | some bf ↦ some (compare_floats af bf) ]
  | none ↦ elim (as_text a) [
    | none ↦ none
    | some x ↦ elim (as_text b) [ none ↦ none | some y ↦ some (compare_texts x y) ]
  ]
]

-- ===== src/Match/Compare.antt =====
-- `==` and the order operators of Python on values.
use Prim.Native.Nat.{Ordering}
use Prim.Native.String.{compare as compare_text}
use agent_spec_kit.Common.{
  String, Bool, true, false, ◌&&◌, Option, none, some, str_eq, if◌then◌else◌, ◌==◌,
}
use agent_spec_kit.Common.Outcome.{type_error, Outcome, returned, raised}
use agent_spec_kit.Match.Value.{
  Float, Value, null, bool, int, float, str, list, tuple, dict, dataclass, pydantic_model,
  named_tuple, other_mapping, object, Values, nil, cons, Fields, end, field, get, count_fields,
}
use agent_spec_kit.Match.Numbers.{float_lt, float_eq, number_of}

eq_numbers : Option Float → Option Float → Bool
unfolding float_eq
eq_numbers (some x) (some y) = float_eq x y
eq_numbers _ _ = false

-- `a == b`. Two dicts are equal if they have the same keys with equal values, in any order, and a
-- Mapping of another kind equals a dict in the same way. A named tuple is a tuple. The values have no
-- identity but that of `object`, so that a NaN in a list equals no other element, itself included.
unfoldable mutual
  unfolding number_of eq_numbers get count_fields

  pub py_eq : Value → Value → Bool
  py_eq null null = true
  py_eq (bool a) w = eq_numbers (number_of (bool a)) (number_of w)
  py_eq (int a) w = eq_numbers (number_of (int a)) (number_of w)
  py_eq (float a) w = eq_numbers (number_of (float a)) (number_of w)
  py_eq (str a) (str b) = str_eq a b
  py_eq (list a) (list b) = eq_values a b
  py_eq (tuple a) (tuple b) = eq_values a b
  py_eq (tuple a) (named_tuple d names b) = eq_values a b
  py_eq (named_tuple c names a) (tuple b) = eq_values a b
  py_eq (named_tuple c names a) (named_tuple d names' b) = eq_values a b
  py_eq (dict a) (dict b) = count_fields a == count_fields b && eq_fields a b
  py_eq (dict a) (other_mapping d b) = count_fields a == count_fields b && eq_fields a b
  py_eq (other_mapping c a) (dict b) = count_fields a == count_fields b && eq_fields a b
  py_eq (other_mapping c a) (other_mapping d b) = count_fields a == count_fields b && eq_fields a b
  py_eq (dataclass c a) (dataclass d b) =
      str_eq c d && (count_fields a == count_fields b && eq_fields a b)
  py_eq (pydantic_model c a more) (pydantic_model d b more') =
      str_eq c d && (count_fields a == count_fields b && eq_fields a b)
  py_eq (object c m) (object d n) = str_eq c d && m == n
  py_eq _ _ = false

  pub eq_values : Values → Values → Bool
  eq_values nil nil = true
  eq_values (cons a as_) (cons b bs) = py_eq a b && eq_values as_ bs
  eq_values _ _ = false

  pub eq_fields : Fields → Fields → Bool
  eq_fields end gs = true
  eq_fields (field k v fs) gs =
      (elim (get k gs) [ none ↦ false | some w ↦ py_eq v w ]) && eq_fields fs gs

-- How two values compare under the order operators. `unordered` is a comparison with a NaN.
pub data Order : Type 0 where
  less equal greater unordered : Order

order_floats : Float → Float → Order
unfolding float_lt float_eq
order_floats x y =
    if float_lt x y
    then less
    else if float_lt y x
    then greater
    else if float_eq x y
    then equal
    else unordered

order_texts : String → String → Order
order_texts s t = elim (compare_text s t) [
  | Ordering.lt ↦ less
  | Ordering.eq ↦ equal
  | Ordering.gt ↦ greater
]

order_numbers : Option Float → Option Float → Outcome Order
unfolding order_floats
order_numbers (some x) (some y) = returned (order_floats x y)
order_numbers _ _ = raised type_error

-- Numbers, strings, lists and tuples have an order. Any other pair raises TypeError, None too.
unfoldable mutual
  unfolding py_eq order_numbers order_texts

  pub py_order : Value → Value → Outcome Order
  py_order (bool a) w = order_numbers (number_of (bool a)) (number_of w)
  py_order (int a) w = order_numbers (number_of (int a)) (number_of w)
  py_order (float a) w = order_numbers (number_of (float a)) (number_of w)
  py_order (str a) (str b) = returned (order_texts a b)
  py_order (list a) (list b) = order_values a b
  py_order (tuple a) (tuple b) = order_values a b
  py_order (tuple a) (named_tuple d names b) = order_values a b
  py_order (named_tuple c names a) (tuple b) = order_values a b
  py_order (named_tuple c names a) (named_tuple d names' b) = order_values a b
  py_order _ _ = raised type_error

  -- The first elements that are not equal decide, and then the lengths.
  pub order_values : Values → Values → Outcome Order
  order_values nil nil = returned equal
  order_values nil (cons b bs) = returned less
  order_values (cons a as_) nil = returned greater
  order_values (cons a as_) (cons b bs) = elim (py_eq a b) [
    | true ↦ order_values as_ bs
    | false ↦ py_order a b
  ]

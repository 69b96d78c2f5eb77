-- ===== src/Match/Value.antt =====
-- The Python values that matchers compare.
use agent_spec_kit.Common.{
  ℕ, suc, String, Bool, Option, none, some, List, [], ◌∷◌, str_eq, if◌then◌else◌,
}
use agent_spec_kit.Common.Int.{ℤ}

-- `finite z` stands for z * 2 ^ -1074. The two zeros are one value here: only `repr` tells them apart.
pub data Float : Type 0 where
  nan pos_inf neg_inf : Float
  finite : ℤ → Float

-- `dataclass` is an instance of a dataclass, by its class and its fields, with the `__eq__` that is
-- generated for it. `pydantic_model` has its attributes, and what `model_dump` returns for it.
-- `named_tuple` has the names of its fields beside its values, and `other_mapping` is a
-- collections.abc.Mapping that is no dict.
-- `object` is any other object, known by its class and its identity.
mutual
  pub data Value : Type 0 where
    null : Value
    bool : Bool → Value
    int : ℤ → Value
    float : Float → Value
    str : String → Value
    list : Values → Value
    tuple : Values → Value
    dict : Fields → Value
    dataclass : String → Fields → Value
    pydantic_model : String → (attributes dumped : Fields) → Value
    named_tuple : String → (names : List String) → Values → Value
    other_mapping : String → Fields → Value
    object : String → ℕ → Value

  pub data Values : Type 0 where
    nil : Values
    cons : Value → Values → Values

  pub data Fields : Type 0 where
    end : Fields
    field : String → Value → Fields → Fields

abbrev pub to_list : Values → List Value
to_list nil = []
to_list (cons v vs) = v ∷ to_list vs

abbrev pub of_list : List Value → Values
of_list [] = nil
of_list (v ∷ vs) = cons v (of_list vs)

-- `_asdict()`: what is in the fields stays as it is.
unfoldable pub zip_fields : List String → Values → Fields
zip_fields (name ∷ names) (cons v vs) = field name v (zip_fields names vs)
zip_fields names vs = end

-- `obj.get(key)`; `key in obj` is whether there is a value.
unfoldable pub get : String → Fields → Option Value
get k end = none
get k (field j v fs) = if str_eq j k then some v else get k fs

unfoldable pub count_fields : Fields → ℕ
count_fields end = 0
count_fields (field k v fs) = suc (count_fields fs)

unfoldable pub type_name : Value → String
type_name null = "NoneType"
type_name (bool b) = "bool"
type_name (int n) = "int"
type_name (float x) = "float"
type_name (str s) = "str"
type_name (list vs) = "list"
type_name (tuple vs) = "tuple"
type_name (dict fs) = "dict"
type_name (dataclass c fs) = c
type_name (pydantic_model c fs dumped) = c
type_name (named_tuple c names vs) = c
type_name (other_mapping c fs) = c
type_name (object c n) = c

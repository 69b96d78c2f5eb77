-- ===== src/Match/Mapping.antt =====
-- match/mapping.py: the values that an object matcher reads as a dict. `json.loads` is a parameter:
-- it gives the value of a JSON text, or nothing where it raises JSONDecodeError.
use Prim.Native.Char.{code}
use Prim.Native.String.{String, [], ◌∷◌}
use text.Mathlib.Text.{starts_with}
use agent_spec_kit.Common.{
  ℕ, Bool, ◌&&◌, ◌||◌, Option, none, some, str_eq, if◌then◌else◌, leb, ◌==◌,
}
use agent_spec_kit.Match.Value.{
  Value, str, list, tuple, dict, dataclass, pydantic_model, named_tuple, other_mapping, Values, nil,
  cons, Fields, end, field, zip_fields,
}

-- The whitespace of `str.strip`.
is_space : ℕ → Bool
is_space c =
    leb 9 c && leb c 13
    || leb 28 c && leb c 32
    || c == 133
    || c == 160
    || c == 5760
    || leb 8192 c && leb c 8202
    || c == 8232
    || c == 8233
    || c == 8239
    || c == 8287
    || c == 12288

strip_left : String → String
strip_left [] = []
strip_left (c ∷ s) = let rest = strip_left s in if is_space (code c) then rest else c ∷ s

strip_right : String → String
strip_right [] = []
strip_right (c ∷ s) =
    let rest = strip_right s in if is_space (code c) && str_eq rest "" then "" else c ∷ rest

unfoldable pub strip : String → String
unfolding strip_left strip_right is_space
strip s = strip_right (strip_left s)

-- `dataclasses.asdict`: the dataclasses in lists, tuples and dicts at any depth become dicts.
unfoldable mutual
  pub dump : Value → Value
  dump (list vs) = list (dump_values vs)
  dump (tuple vs) = tuple (dump_values vs)
  dump (dict fs) = dict (dump_fields fs)
  dump (dataclass c fs) = dict (dump_fields fs)
  dump (named_tuple c names vs) = named_tuple c names (dump_values vs)
  dump v = v

  pub dump_values : Values → Values
  dump_values nil = nil
  dump_values (cons v vs) = cons (dump v) (dump_values vs)

  pub dump_fields : Fields → Fields
  dump_fields end = end
  dump_fields (field k v fs) = field k (dump v) (dump_fields fs)

dict_or_none : Option Value → Option Fields
dict_or_none (some (dict fs)) = some fs
dict_or_none v = none

unfoldable pub actual_as_mapping : (loads : String → Option Value) → Value → Option Fields
unfolding dict_or_none strip dump_fields zip_fields
actual_as_mapping loads (str s) =
    if starts_with (strip s) "{" then dict_or_none (loads (strip s)) else none
actual_as_mapping loads (dict fs) = some fs
actual_as_mapping loads (dataclass c fs) = some (dump_fields fs)
actual_as_mapping loads (pydantic_model c fs dumped) = some dumped
actual_as_mapping loads (named_tuple c names vs) = some (zip_fields names vs)
actual_as_mapping loads (other_mapping c fs) = some fs
actual_as_mapping loads v = none

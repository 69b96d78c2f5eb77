-- ===== src/Match/Rules.antt =====
-- match/rules.py: conditions on the fields of an object, and the rules that they switch on.
use agent_spec_kit.Common.{
  String, Bool, true, false, not, none, some, [], ◌∷◌, ◌++◌, str_eq, if◌then◌else◌,
}
use agent_spec_kit.Common.Outcome.{runtime_error, Outcome, returned, raised, ◌>>=◌}
use agent_spec_kit.Match.Value.{Value, null, str, Fields, get}
use agent_spec_kit.Match.Compare.{py_eq, py_order, less, equal, greater}
use agent_spec_kit.Match.Types.{lit, repr_of, Text}

pub data Condition : Type 0 where
  field_equals : String → Value → Condition
  field_not_equals : String → Value → Condition
  field_compare : String → (op : String) → Value → Condition

-- `obj.get(name)`: None where the key is missing.
unfoldable pub get_or_null : String → Fields → Value
unfolding get
get_or_null name obj = elim (get name obj) [ none ↦ null | some v ↦ v ]

unfoldable pub evaluate : Condition → Fields → Outcome Bool
unfolding get_or_null
evaluate (field_equals name v) obj = returned (py_eq (get_or_null name obj) v)
evaluate (field_not_equals name v) obj = returned (not (py_eq (get_or_null name obj) v))
evaluate (field_compare name op v) obj =
    let order = py_order (get_or_null name obj) v in
    if str_eq op "<"
    then (do o ← order; returned (elim o [ less ↦ true | _ ↦ false ]))
    else if str_eq op "<="
    then (do o ← order; returned (elim o [ less ↦ true | equal ↦ true | _ ↦ false ]))
    else if str_eq op ">"
    then (do o ← order; returned (elim o [ greater ↦ true | _ ↦ false ]))
    else if str_eq op ">="
    then (do o ← order; returned (elim o [ greater ↦ true | equal ↦ true | _ ↦ false ]))
    else raised runtime_error

condition_text : Condition → Text
condition_text (field_equals name v) =
    lit "field(" ∷ repr_of (str name) ∷ lit ") == " ∷ repr_of v ∷ []
condition_text (field_not_equals name v) =
    lit "field(" ∷ repr_of (str name) ∷ lit ") != " ∷ repr_of v ∷ []
condition_text (field_compare name op v) =
    lit "field(" ∷ repr_of (str name) ∷ lit ") " ∷ lit op ∷ lit " " ∷ repr_of v ∷ []

pub data Rule : Type 0 where
  require_rule : (field_name : String) (when : Condition) → Rule
  forbid_rule : (field_name : String) (when : Condition) → Rule

unfoldable pub describe : Rule → Text
unfolding condition_text
describe (require_rule name c) =
    lit "require " ∷ repr_of (str name) ∷ lit " when (" ∷ (condition_text c ++ lit ")" ∷ [])
describe (forbid_rule name c) =
    lit "forbid " ∷ repr_of (str name) ∷ lit " when (" ∷ (condition_text c ++ lit ")" ∷ [])

-- ===== src/Scenario/ToolCalls.antt =====
-- scenario_core.py: the tool calls of a turn as dicts, from its events and from a stored transcript,
-- and cli.py: `_to_jsonable`, which makes the transcript that is stored.
use agent_spec_kit.Common.{
  ℕ, String, Bool, true, false, not, ◌||◌, Option, none, some, List, [], ◌∷◌, ◌++◌, map, str_eq,
  if◌then◌else◌, get_elem?,
}
use mathlib.Core.List.{reverse}
use agent_spec_kit.Common.Int.{pos, eqb_ℤ}
use agent_spec_kit.Match.Value.{
  finite, Value, null, bool, int, float, str, list, tuple, dict, dataclass, pydantic_model,
  named_tuple, other_mapping, object, Values, nil, cons, Fields, end, field, to_list, of_list, get,
}
use agent_spec_kit.Scenario.Events.{
  Event, tool_call, agent_turn, user_turn, Events, no_events, and_event, to_events,
  ConversationTurn,
}

abbrev pub optional_str : Option String → Value
optional_str none = null
optional_str (some s) = str s

abbrev pub tool_dict :
    (name args result error : Value) (children : List Value) (metadata : Fields) → Value
tool_dict name args result error children metadata = dict (
    field "name" name (
      field "args" args (
        field "result" result (
          field "error" error
            (field "children" (list (of_list children)) (field "metadata" (dict metadata) end))))))

unfoldable mutual
  pub normalize_tool_event : Event → List Value
  normalize_tool_event (tool_call name args result error metadata children) =
      tool_dict (str name) args result (optional_str error) (nested_events children) metadata ∷ []
  normalize_tool_event e = []

  -- The tool calls among the children, and those one level below an agent's turn among them.
  pub nested_events : Events → List Value
  nested_events no_events = []
  nested_events (and_event e es) = nested_event e ++ nested_events es

  pub nested_event : Event → List Value
  nested_event (tool_call name args result error metadata children) =
      tool_dict (str name) args result (optional_str error) (nested_events children) metadata ∷ []
  nested_event (agent_turn input output error path metadata children) = child_tools children
  nested_event (user_turn content error metadata children) = []

  pub child_tools : Events → List Value
  child_tools no_events = []
  child_tools (and_event e es) = normalize_tool_event e ++ child_tools es

-- `_tool_dicts_from_conversation_turn`: the roots are treated as the children of a tool call are.
unfoldable pub tool_dicts_from_conversation_turn : ConversationTurn → List Value
unfolding nested_events
tool_dicts_from_conversation_turn turn = nested_events (to_events turn.events)

unfoldable pub tool_dicts_up_to_now : List ConversationTurn → String → List Value
unfolding tool_dicts_from_conversation_turn
tool_dicts_up_to_now [] actor = []
tool_dicts_up_to_now (turn ∷ turns) actor =
    let rest = tool_dicts_up_to_now turns actor in
    if str_eq turn.actor actor then tool_dicts_from_conversation_turn turn ++ rest else rest

-- Whether `if value` holds of what a transcript has for "tool_name".
unfoldable pub is_set : Option Value → Bool
is_set none = false
is_set (some (str s)) = not (str_eq s "")
is_set (some null) = false
is_set (some (bool b)) = b
is_set (some (int n)) = not (eqb_ℤ n (pos 0))
is_set (some (float (finite n))) = not (eqb_ℤ n (pos 0))
is_set (some (list nil)) = false
is_set (some (tuple nil)) = false
is_set (some (dict end)) = false
is_set (some v) = true

-- `d.get(key) is not None`
unfoldable pub is_given : Option Value → Bool
is_given none = false
is_given (some null) = false
is_given (some v) = true

abbrev pub or_null : Option Value → Value
or_null none = null
or_null (some v) = v

abbrev dict_fields : Option Value → Fields
dict_fields (some (dict fs)) = fs
dict_fields v = end

-- The dict of a tool call of a stored transcript, with the tool calls `nested` in it.
abbrev pub stored_tool_dict : Fields → List Value → Value
stored_tool_dict ev nested =
    tool_dict (elim (get "tool_name" ev) [ none ↦ str "" | some v ↦ v ]) (or_null (get "args" ev))
      (or_null (get "result" ev)) (or_null (get "error" ev)) nested
      (dict_fields (get "metadata" ev))

-- Whether a dict of a transcript counts as an agent's turn.
abbrev pub is_turn_dict : Fields → Bool
is_turn_dict ev = is_given (get "agent_output" ev) || is_given (get "user_input" ev)

-- In a transcript "children" and "events" are lists, or missing, and "metadata" is a dict.
unfoldable mutual
  -- The nested calls of `ev.get("children") or []`, at the first key of that name.
  pub nested_fields : String → Fields → List Value
  nested_fields k end = []
  nested_fields k (field j v fs) =
      let rest = nested_fields k fs in let here = nested_list v in if str_eq j k then here else rest

  pub nested_list : Value → List Value
  nested_list (list vs) = nested_values vs
  nested_list v = []

  pub nested_values : Values → List Value
  nested_values nil = []
  nested_values (cons v vs) = nested_value v ++ nested_values vs

  pub nested_value : Value → List Value
  nested_value (dict ch) =
      let call = stored_tool_dict ch (nested_fields "children" ch) in
      let below = tools_fields ch in
      if is_set (get "tool_name" ch) then call ∷ [] else if is_turn_dict ch then below else []
  nested_value v = []

  -- The tool calls among the children, and no others.
  pub tools_fields : Fields → List Value
  tools_fields end = []
  tools_fields (field j v fs) =
      let rest = tools_fields fs in
      let here = tools_list v in if str_eq j "children" then here else rest

  pub tools_list : Value → List Value
  tools_list (list vs) = tools_values vs
  tools_list v = []

  pub tools_values : Values → List Value
  tools_values nil = []
  tools_values (cons v vs) = tools_value v ++ tools_values vs

  pub tools_value : Value → List Value
  tools_value (dict ch) =
      let call = stored_tool_dict ch (nested_fields "children" ch) in
      if is_set (get "tool_name" ch) then call ∷ [] else []
  tools_value v = []

-- `tool_dicts_from_turn_data` of a turn of a stored transcript.
unfoldable pub tool_dicts_from_turn_data : Value → List Value
unfolding nested_fields
tool_dicts_from_turn_data (dict turn) = nested_fields "events" turn
tool_dicts_from_turn_data v = []

-- `shown` is `str` of a value of no other kind. `asdict` of a dataclass and the dicts that are made of its
-- values are one recursion here: what `asdict` leaves is made jsonable as it stands.
module _ (shown : Value → String) where
  unfoldable mutual
    pub to_jsonable : Value → Value
    to_jsonable (dataclass c fs) = dict (fields_to_jsonable fs)
    to_jsonable (named_tuple c names vs) = list (values_to_jsonable vs)
    to_jsonable (pydantic_model c fs dumped) = str (shown (pydantic_model c fs dumped))
    to_jsonable (other_mapping c fs) = str (shown (other_mapping c fs))
    to_jsonable (dict fs) = dict (fields_to_jsonable fs)
    to_jsonable (list vs) = list (values_to_jsonable vs)
    to_jsonable (tuple vs) = list (values_to_jsonable vs)
    to_jsonable (object c n) = str (shown (object c n))
    to_jsonable v = v

    pub values_to_jsonable : Values → Values
    values_to_jsonable nil = nil
    values_to_jsonable (cons v vs) = cons (to_jsonable v) (values_to_jsonable vs)

    pub fields_to_jsonable : Fields → Fields
    fields_to_jsonable end = end
    fields_to_jsonable (field k v fs) = field k (to_jsonable v) (fields_to_jsonable fs)

-- `dataclasses.asdict` of an event and of a turn.
unfoldable mutual
  pub event_value : Event → Value
  event_value (tool_call name args result error metadata children) = dict (
      field "metadata" (dict metadata) (
        field "children" (list (event_values children)) (
          field "tool_name" (str name)
            (field "args" args (field "result" result (field "error" (optional_str error) end))))))
  event_value (agent_turn input output error path metadata children) = dict (
      field "source_path" (tuple (of_list (map str path))) (
        field "metadata" (dict metadata) (
          field "children" (list (event_values children)) (
            field "user_input" input
              (field "agent_output" output (field "error" (optional_str error) end))))))
  event_value (user_turn content error metadata children) = dict (
      field "metadata" (dict metadata) (
        field "children" (list (event_values children))
          (field "content" content (field "error" (optional_str error) end))))

  pub event_values : Events → Values
  event_values no_events = nil
  event_values (and_event e es) = cons (event_value e) (event_values es)

unfoldable pub turn_value : ConversationTurn → Value
unfolding event_values
turn_value turn = dict (
    field "actor" (str turn.actor) (
      field "output" turn.output (
        field "events" (list (event_values (to_events turn.events)))
          (field "status" (str turn.status) (field "error" (optional_str turn.error) end)))))

-- Whether `turn.get("actor") == "agent"`.
abbrev pub is_agent : Option Value → Bool
is_agent (some (str a)) = str_eq a "agent"
is_agent actor = false

-- The tool calls of the first agent's turn, of the turns from the last back.
unfoldable pub agent_tool_dicts : List Value → List Value
unfolding tool_dicts_from_turn_data
agent_tool_dicts [] = []
agent_tool_dicts (dict turn ∷ turns) =
    let rest = agent_tool_dicts turns in
    if is_agent (get "actor" turn) then tool_dicts_from_turn_data (dict turn) else rest
agent_tool_dicts (_ ∷ turns) = agent_tool_dicts turns

-- A negative index is out of range, as one behind the last turn is.
unfoldable pub tool_dicts_from_transcript : Value → (turn_index : Option ℕ) → List Value
unfolding agent_tool_dicts tool_dicts_from_turn_data
tool_dicts_from_transcript (list vs) none = agent_tool_dicts (reverse (to_list vs))
tool_dicts_from_transcript (list vs) (some i) = elim (get_elem? (to_list vs) i) [
  | none ↦ []
  | some turn ↦ tool_dicts_from_turn_data turn
]
tool_dicts_from_transcript transcript turn_index = []

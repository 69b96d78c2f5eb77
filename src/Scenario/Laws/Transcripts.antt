-- ===== src/Scenario/Laws/Transcripts.antt =====
-- The tool calls of a stored transcript.
use agent_spec_kit.Common.{
  String, ◌≡◌, ◌≢◌, refl, sym, ap, inl, inr, true, false, ◌||◌, some, List, [], ◌∷◌, ◌++◌, map,
  str_eq, eq_iff, Bool-cases,
}
use agent_spec_kit.Match.Value.{Value, null, str, cons, Fields, of_list, get}
use agent_spec_kit.Scenario.Events.{
  Event, tool_call, agent_turn, user_turn, Events, no_events, and_event, to_events,
  ConversationTurn,
}
use agent_spec_kit.Scenario.ToolCalls.{
  optional_str, tool_dict, normalize_tool_event, nested_events, nested_event, child_tools,
  tool_dicts_from_conversation_turn, is_set, is_given, nested_values, nested_value, tools_values,
  tools_value, tool_dicts_from_turn_data, to_jsonable, values_to_jsonable, fields_to_jsonable,
  event_value, event_values, turn_value,
}

-- An event that a stored transcript tells: a tool call has a name, and an agent's turn an input or an
-- output; so have the events below it.
abbrev mutual
  pub IsTold : Event → Type 0
  IsTold (tool_call name args result error metadata children) = (name ≢ "") × AllTold children
  IsTold (agent_turn input output error path metadata children) =
      ((is_given (some output) || is_given (some input)) ≡ true) × AllTold children
  IsTold (user_turn content error metadata children) = AllTold children

  pub AllTold : Events → Type 0
  AllTold no_events = Unit
  AllTold (and_event e es) = IsTold e × AllTold es

map-append : (f : Value → Value) (xs ys : List Value) → map f (xs ++ ys) ≡ map f xs ++ map f ys
map-append f [] ys = refl
map-append f (x ∷ xs) ys = ap (λ zs. f x ∷ zs) (map-append f xs ys)

module _ (shown : Value → String) where
  is_given-to_jsonable : (v : Value) → is_given (some (to_jsonable shown v)) ≡ is_given (some v)
  unfolding to_jsonable is_given
  is_given-to_jsonable null = refl
  is_given-to_jsonable _ = refl

  of_list-to_jsonable :
      (vs : List Value)
      → values_to_jsonable shown (of_list vs) ≡ of_list (map (to_jsonable shown) vs)
  unfolding values_to_jsonable
  of_list-to_jsonable [] = refl
  of_list-to_jsonable (v ∷ vs) = ap (λ ws. cons (to_jsonable shown v) ws) (of_list-to_jsonable vs)

  named : (s : String) → s ≢ "" → str_eq s "" ≡ false
  named s ne = elim (Bool-cases (str_eq s "")) [
    | inl y ↦ absurd (ne ((eq_iff s "").0 y))
    | inr n ↦ n
  ]

  -- The stored dict of a call that is told, if the calls nested in it are.
  stored_call :
      (name args result error : Value) (nested : List Value) (metadata : Fields)
      (nested' : List Value)
      → nested' ≡ map (to_jsonable shown) nested
      → tool_dict
          (to_jsonable shown name)
          (to_jsonable shown args)
          (to_jsonable shown result)
          (to_jsonable shown error)
          nested'
          (fields_to_jsonable shown metadata)
        ≡ to_jsonable shown (tool_dict name args result error nested metadata)
  unfolding to_jsonable
  stored_call name args result error nested metadata nested' e =
      rw (e, sym (of_list-to_jsonable nested)) refl

  still_given :
      (v w : Value)
      → (is_given (some v) || is_given (some w)) ≡ true
      → (is_given (some (to_jsonable shown v)) || is_given (some (to_jsonable shown w))) ≡ true
  still_given v w given = rw (is_given-to_jsonable v, is_given-to_jsonable w) given

  mutual
    unfolding is_given nested_value tools_value nested_event normalize_tool_event event_value
        to_jsonable is_set get

    stored_event :
        (e : Event)
        → IsTold e
        → nested_value (to_jsonable shown (event_value e))
          ≡ map (to_jsonable shown) (nested_event e)
    stored_event (tool_call name args result error metadata children) (ne, told) =
        rw (named name ne) (
          ap (λ v. v ∷ [])
            (stored_call (str name) args result (optional_str error) (nested_events children)
              metadata _ (stored_events children told)))
    stored_event (agent_turn input output error path metadata children) (given, told) =
        rw (still_given output input given) (stored_tools children told)
    stored_event (user_turn content error metadata children) told = refl

    stored_events :
        (es : Events)
        → AllTold es
        → nested_values (values_to_jsonable shown (event_values es))
          ≡ map (to_jsonable shown) (nested_events es)
    stored_events no_events told = refl
    stored_events (and_event e es) (told, more) =
        rw (stored_event e told, stored_events es more)
          (sym (map-append (to_jsonable shown) (nested_event e) (nested_events es)))

    stored_tool :
        (e : Event)
        → IsTold e
        → tools_value (to_jsonable shown (event_value e))
          ≡ map (to_jsonable shown) (normalize_tool_event e)
    stored_tool (tool_call name args result error metadata children) (ne, told) =
        rw (named name ne) (
          ap (λ v. v ∷ [])
            (stored_call (str name) args result (optional_str error) (nested_events children)
              metadata _ (stored_events children told)))
    stored_tool (agent_turn input output error path metadata children) told = refl
    stored_tool (user_turn content error metadata children) told = refl

    stored_tools :
        (es : Events)
        → AllTold es
        → tools_values (values_to_jsonable shown (event_values es))
          ≡ map (to_jsonable shown) (child_tools es)
    stored_tools no_events told = refl
    stored_tools (and_event e es) (told, more) =
        rw (stored_tool e told, stored_tools es more)
          (sym (map-append (to_jsonable shown) (normalize_tool_event e) (child_tools es)))

  -- If the tool calls of a turn have names, and its agents' turns an input or an output, the tool
  -- calls read from the turn as it is stored are the stored forms of those of the turn itself.
  pub tool_dicts-stored :
      (turn : ConversationTurn)
      → AllTold (to_events turn.events)
      → tool_dicts_from_turn_data (to_jsonable shown (turn_value turn))
        ≡ map (to_jsonable shown) (tool_dicts_from_conversation_turn turn)
  unfolding tool_dicts_from_turn_data tool_dicts_from_conversation_turn turn_value to_jsonable
  tool_dicts-stored turn told = stored_events (to_events turn.events) told

-- ===== src/Generative/Context.antt =====
-- fuzz_context.py: what a strategy is told of the turns so far. `str_of` is `str` of a value that is
-- no text. A turn has no attribute `text`.
use Prim.Native.String.{◌++◌ as str_append}
use agent_spec_kit.Common.{
  ℕ, String, Option, none, some, List, [], ◌∷◌, ◌++◌, str_eq, if◌then◌else◌,
}
use agent_spec_kit.Match.Value.{Value, str, list, dict, Values, nil, cons, Fields, end, field, get}
use agent_spec_kit.Match.Mapping.{strip}
use agent_spec_kit.Scenario.Events.{ConversationTurn, join}
use agent_spec_kit.Scenario.ToolCalls.{tool_dicts_from_conversation_turn}
use agent_spec_kit.Scenario.Segments.{output_text}

pub record FuzzSegmentContext : Type 0 where
  pub segment_index : ℕ
  pub prior_user_messages : List String
  pub prior_agent_messages : List String
  pub prior_tool_names : List String

-- The name of a tool, with the names of its children.
unfoldable pub with_children : (name : String) → List String → List String
unfolding join
with_children name [] = if str_eq name "" then [] else name ∷ []
with_children name (p ∷ ps) =
    if str_eq name ""
    then p ∷ ps
    else str_append name (str_append "[" (str_append (join " -> " (p ∷ ps)) "]")) ∷ []

module _ (str_of : Value → String) where
  -- `str(tool_dict.get("name", "")).strip()`
  unfoldable pub tool_name_of : Option Value → String
  unfolding strip
  tool_name_of none = ""
  tool_name_of (some (str s)) = strip s
  tool_name_of (some v) = strip (str_of v)

  -- `children` is a list, or missing.
  unfoldable mutual
    unfolding with_children tool_name_of

    pub flatten_tool_names : Value → List String
    flatten_tool_names (dict fs) =
        with_children (tool_name_of (get "name" fs)) (names_of_children fs)
    flatten_tool_names v = []

    pub names_of_children : Fields → List String
    names_of_children end = []
    names_of_children (field k v fs) =
        let rest = names_of_children fs in
        let here = names_of_list v in if str_eq k "children" then here else rest

    pub names_of_list : Value → List String
    names_of_list (list vs) = names_of_values vs
    names_of_list v = []

    pub names_of_values : Values → List String
    names_of_values nil = []
    names_of_values (cons v vs) = flatten_tool_names v ++ names_of_values vs

  unfoldable pub names_of_dicts : List Value → List String
  unfolding flatten_tool_names
  names_of_dicts [] = []
  names_of_dicts (v ∷ vs) = flatten_tool_names v ++ names_of_dicts vs

  -- The text of a turn, which counts unless it is empty.
  unfoldable pub message_of : ConversationTurn → List String
  unfolding output_text strip
  message_of turn =
      let text = strip (output_text str_of turn.output) in if str_eq text "" then [] else text ∷ []

  unfoldable pub messages_of : (actor : String) → List ConversationTurn → List String
  unfolding message_of
  messages_of actor [] = []
  messages_of actor (turn ∷ turns) =
      let rest = messages_of actor turns in
      if str_eq turn.actor actor then message_of turn ++ rest else rest

  unfoldable pub tool_names_of_turns : List ConversationTurn → List String
  unfolding names_of_dicts tool_dicts_from_conversation_turn
  tool_names_of_turns [] = []
  tool_names_of_turns (turn ∷ turns) =
      let rest = tool_names_of_turns turns in
      if str_eq turn.actor "agent"
      then names_of_dicts (tool_dicts_from_conversation_turn turn) ++ rest
      else rest

  unfoldable pub build_fuzz_segment_context :
      List ConversationTurn → (segment_index : ℕ) → FuzzSegmentContext
  unfolding messages_of tool_names_of_turns
  build_fuzz_segment_context turns segment_index = record {
    segment_index = segment_index;
    prior_user_messages = messages_of "user" turns;
    prior_agent_messages = messages_of "agent" turns;
    prior_tool_names = tool_names_of_turns turns;
  }

-- ===== src/Scenario/Checked.antt =====
-- scenario_core.py, `_dispatch_step`: what the steps that check turns look at. Each branch has its own
-- copy of the choice by `turn`.
use agent_spec_kit.Common.{String, Option, List, str_eq, if◌then◌else◌}
use agent_spec_kit.Common.Outcome.{value_error, Outcome, returned, raised, ◌>>=◌}
use agent_spec_kit.Match.Value.{Value, str, list, of_list}
use agent_spec_kit.Scenario.Events.{ConversationTurn}
use agent_spec_kit.Scenario.ToolCalls.{tool_dicts_from_conversation_turn, tool_dicts_up_to_now}
use agent_spec_kit.Scenario.Arguments.{chosen_actor, conversation_for_assert, outputs_up_to_now}

unfoldable pub output_to_assert :
    (str_of : Value → String)
    → List ConversationTurn
    → (turn : String) (actor : Option String) → Outcome Value
unfolding conversation_for_assert outputs_up_to_now
output_to_assert str_of turns turn actor =
    if str_eq turn "last"
    then (do ct ← conversation_for_assert turns actor; returned ct.output)
    else if str_eq turn "up_to_now"
    then returned (str (outputs_up_to_now str_of turns (chosen_actor turns actor)))
    else raised value_error

unfoldable pub tool_calls_to_assert :
    List ConversationTurn → (turn : String) (actor : Option String) → Outcome Value
unfolding conversation_for_assert tool_dicts_from_conversation_turn tool_dicts_up_to_now
tool_calls_to_assert turns turn actor =
    if str_eq turn "last"
    then (do
      ct ← conversation_for_assert turns actor
      returned (list (of_list (tool_dicts_from_conversation_turn ct))))
    else if str_eq turn "up_to_now"
    then returned (list (of_list (tool_dicts_up_to_now turns (chosen_actor turns actor))))
    else raised value_error

unfoldable pub tool_calls_to_forbid :
    List ConversationTurn → (turn : String) (actor : Option String) → Outcome Value
unfolding conversation_for_assert tool_dicts_from_conversation_turn tool_dicts_up_to_now
tool_calls_to_forbid turns turn actor =
    if str_eq turn "last"
    then (do
      ct ← conversation_for_assert turns actor
      returned (list (of_list (tool_dicts_from_conversation_turn ct))))
    else if str_eq turn "up_to_now"
    then returned (list (of_list (tool_dicts_up_to_now turns (chosen_actor turns actor))))
    else raised value_error

-- ===== src/Scenario/Examples.antt =====
-- Scenarios at concrete inputs.
use agent_spec_kit.Common.{
  ℕ, ◌+◌, ◌≡◌, ◌↔◌, refl, String, true, false, Option, none, some, List, [], ◌∷◌, map, All, arith,
}
use agent_spec_kit.Common.Outcome.{Exception, returned}
use agent_spec_kit.Common.Action.{completed}
use agent_spec_kit.Match.Value.{Value, null, str, end}
use agent_spec_kit.Match.Types.{Text, MatchResult}
use agent_spec_kit.Match.Matcher.{Matcher}
use agent_spec_kit.Match.Spec.{literal}
use agent_spec_kit.Scenario.Events.{
  Event, tool_call, to_events, from_turn, ConversationTurn, collect_event_errors, non_empty,
  labelled,
}
use agent_spec_kit.Scenario.ToolCalls.{
  tool_dicts_from_turn_data, tool_dicts_from_conversation_turn, to_jsonable, turn_value,
}
use agent_spec_kit.Scenario.State.{Step, user_message, simulate, Scenario, Agent}
use agent_spec_kit.Scenario.Records.{
  agent_turn_error_messages, raise_if_agent_turn_errors, raise_agent_errors, add_event_errors,
  own_messages, add_new,
}
use agent_spec_kit.Scenario.Arguments.{conversation_for_assert}
use agent_spec_kit.Scenario.Segments.{
  outside, run_turn_of, run_agent_turn, other_actor_exists, other_actor, route_user_message,
  reply_to, append_turn, take_reply, dispatch_user_message_text, turn_of, next_turn_of,
  resumed_turn, is_first, known, stops, simulation_loop, run_simulation_segment, output_text,
}
use agent_spec_kit.Scenario.Steps.{dispatch_step, run_steps, materialise}
use agent_spec_kit.Scenario.Build.{
  assert_output, assert_tool_calls, async_check_output, async_check_tool_calls,
}
use agent_spec_kit.Scenario.Laws.Frame.{Adds}
use agent_spec_kit.Scenario.Laws.Turns.{dispatch_step-Adds}
use agent_spec_kit.Scenario.Laws.Progress.{Continues, Reached, materialise-Reached}
use agent_spec_kit.Scenario.Laws.Choice.{IsAsked, IsLastOf, conversation_for_assert-IsLastOf}
use agent_spec_kit.Scenario.Laws.Asserts.{
  assert_output-async_check_output, assert_tool_calls-async_check_tool_calls,
}
use agent_spec_kit.Scenario.Laws.Clean.{IsClean}
use agent_spec_kit.Scenario.Laws.Errors.{materialise-IsClean}
use agent_spec_kit.Scenario.Laws.Transcripts.{tool_dicts-stored}

-- The parameters: no text loads, and each prints one text.
abbrev no_loads : String → Option Value
no_loads s = none

abbrev no_summary : Matcher → Text
no_summary m = []

abbrev shown_value : Value → String
shown_value v = "value"

abbrev shown_exception : Exception → String
shown_exception e = "exception"

abbrev shown_number : ℕ → String
shown_number n = "number"

-- An agent that counts its turns in the world, and looks a message up by a tool call.
abbrev lookup_call : Event
lookup_call = tool_call "lookup" null (str "found") none end (to_events [])

abbrev answering : Agent ℕ
answering text n = (
  completed
      (record { output = str "done"; events = lookup_call ∷ []; status = "ok"; error = none }),
  n + 1,
)

abbrev asking : Agent ℕ
asking text n =
    (completed (record { output = str "again"; events = []; status = "ok"; error = none }), n + 1)

abbrev dialogue : List (Step ℕ) → Scenario ℕ
dialogue steps = record {
  adapted_agent = some answering;
  user = some asking;
  fixture_values = end;
  scenario_name = "dialogue";
  steps = steps;
  executed_until = 0;
  turn_results = [];
  simulation_started = false;
  next_actor = none;
  next_input = "";
  case_values = [];
  recording = false;
  world = 0;
}

abbrev talk : Scenario ℕ
talk = dialogue (user_message "hello" ∷ simulate 3 none "any" none none ∷ [])

abbrev answered : ConversationTurn
answered = record {
  actor = "agent";
  output = str "done";
  events = lookup_call ∷ [];
  status = "ok";
  error = none;
}

abbrev asked : ConversationTurn
asked = record { actor = "user"; output = str "again"; events = []; status = "ok"; error = none }

abbrev told : Scenario ℕ
told = record (dialogue []) { turn_results = asked ∷ answered ∷ asked ∷ [] }

tool_dicts-stored_example :
    tool_dicts_from_turn_data (to_jsonable shown_value (turn_value answered))
    ≡ map (to_jsonable shown_value) (tool_dicts_from_conversation_turn answered)
tool_dicts-stored_example = tool_dicts-stored shown_value answered (((λ e. absurd (cc e)), tt), tt)

dispatch_step-Adds_example : Adds 3 (
    dispatch_step {W = ℕ} shown_value shown_exception shown_number no_loads no_summary
      (simulate 3 none "any" none none))
dispatch_step-Adds_example =
    dispatch_step-Adds shown_value shown_exception shown_number no_loads no_summary
      (simulate 3 none "any" none none)

materialise-Reached_example :
    Continues 5 talk
      (materialise shown_value shown_exception shown_number no_loads no_summary talk).1
    × Reached shown_value shown_exception shown_number no_loads no_summary talk.steps
        (materialise shown_value shown_exception shown_number no_loads no_summary talk).0
        (materialise shown_value shown_exception shown_number no_loads no_summary talk).1
materialise-Reached_example =
    materialise-Reached shown_value shown_exception shown_number no_loads no_summary talk refl
      (omega arith)

conversation_for_assert-IsLastOf_example :
    (a : String) × IsAsked told.turn_results none a
    × IsLastOf a told.turn_results (conversation_for_assert told.turn_results none)
conversation_for_assert-IsLastOf_example = conversation_for_assert-IsLastOf told.turn_results none

assert_output-async_check_output_example :
    ((materialise shown_value shown_exception shown_number no_loads no_summary
        (assert_output (literal (str "done")) "last" (some "agent") told)).0
      ≡ completed tt)
    ↔ ((r : MatchResult) × (async_check_output shown_value no_loads no_summary told
            (literal (str "done"))
            "last"
            (some "agent")
          ≡ returned r)
        × (r.ok ≡ true))
assert_output-async_check_output_example =
    assert_output-async_check_output shown_value shown_exception shown_number no_loads no_summary
      told (literal (str "done")) "last" (some "agent") refl refl

assert_tool_calls-async_check_tool_calls_example :
    ((materialise shown_value shown_exception shown_number no_loads no_summary
        (assert_tool_calls (literal (str "done")) true false "up_to_now" none told)).0
      ≡ completed tt)
    ↔ ((r : MatchResult) × (async_check_tool_calls no_loads no_summary told
            (literal (str "done"))
            true
            false
            "up_to_now"
            none
          ≡ returned r)
        × (r.ok ≡ true))
assert_tool_calls-async_check_tool_calls_example =
    assert_tool_calls-async_check_tool_calls shown_value shown_exception shown_number no_loads
      no_summary told (literal (str "done")) true false "up_to_now" none refl refl

-- Two turns for the message and three of the simulation.
talk_turns :
    map
      (λ (ct : ConversationTurn). ct.actor)
      (materialise shown_value shown_exception shown_number no_loads no_summary talk).1.turn_results
    ≡ "user" ∷ "agent" ∷ "user" ∷ "agent" ∷ "user" ∷ []
unfolding materialise run_steps dispatch_step dispatch_user_message_text route_user_message reply_to
    run_turn_of outside take_reply raise_if_agent_turn_errors raise_agent_errors
    agent_turn_error_messages run_simulation_segment resumed_turn next_turn_of turn_of
    run_agent_turn append_turn simulation_loop stops is_first known other_actor other_actor_exists
    output_text from_turn add_event_errors own_messages add_new collect_event_errors labelled
    non_empty
talk_turns = refl

materialise-IsClean_example :
    All IsClean
      (materialise shown_value shown_exception shown_number no_loads no_summary talk).1.turn_results
unfolding materialise run_steps dispatch_step dispatch_user_message_text route_user_message reply_to
    run_turn_of outside take_reply raise_if_agent_turn_errors raise_agent_errors
    agent_turn_error_messages run_simulation_segment resumed_turn next_turn_of turn_of
    run_agent_turn append_turn simulation_loop stops is_first known other_actor other_actor_exists
    output_text from_turn add_event_errors own_messages add_new collect_event_errors labelled
    non_empty
materialise-IsClean_example =
    materialise-IsClean shown_value shown_exception shown_number no_loads no_summary talk
      (materialise shown_value shown_exception shown_number no_loads no_summary talk).1 tt refl

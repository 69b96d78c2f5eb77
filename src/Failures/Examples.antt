-- ===== src/Failures/Examples.antt =====
-- Tests of failure reports, and the theorem applied to a small conversation.
use agent_spec_kit.Common.{
  ℕ, zero, suc, ◌≡◌, refl, String, none, some, List, [], ◌∷◌, length, arith,
}
use agent_spec_kit.Match.Value.{null, str, list, dict, nil, cons, end, field, get}
use agent_spec_kit.Match.Types.{key, index}
use agent_spec_kit.Scenario.Events.{
  Event, tool_call, agent_turn, no_events, and_event, ConversationTurn,
}
use agent_spec_kit.Failures.Trace.{
  agent_idx, last_n, is_user, back_over_user, from_first, window_conversation_for_trace,
  flatten_root_agent_shells, children_for_user_turn_trace,
}
use agent_spec_kit.Failures.Location.{
  nth, deref, deref_match_path, suffix_of, ordinal, kind_with_ordinal, label_of, role_of, spaced,
  format_scenario_location,
}
use agent_spec_kit.Failures.Laws.Window.{IsWindow, window_conversation_for_trace-IsWindow}

abbrev turn_of : (actor text : String) → List Event → ConversationTurn
turn_of actor text events = record {
  actor = actor;
  output = str text;
  events = events;
  status = "completed";
  error = none;
}

abbrev search : Event
search = tool_call "search" null null none end no_events

abbrev shell : Event
shell = agent_turn null null none [] end (and_event search no_events)

abbrev talk : List ConversationTurn
talk =
    turn_of "user" "a" []
    ∷ turn_of "agent" "b" []
    ∷ turn_of "user" "c" []
    ∷ turn_of "user" "d" (shell ∷ [])
    ∷ turn_of "agent" "e" (search ∷ [])
    ∷ turn_of "user" "f" []
    ∷ []

-- The last turn of the agent, and the turns of the user around it.
window_of_one : length (window_conversation_for_trace talk 1) ≡ 4
unfolding window_conversation_for_trace agent_idx last_n from_first back_over_user is_user
window_of_one = refl

window_of_many : window_conversation_for_trace talk 5 ≡ talk
unfolding window_conversation_for_trace agent_idx last_n from_first back_over_user is_user
window_of_many = refl

shells_removed : children_for_user_turn_trace (shell ∷ []) ≡ search ∷ []
unfolding children_for_user_turn_trace flatten_root_agent_shells
shells_removed = refl

path_into_calls :
    deref_match_path
      (list (cons (dict (field "name" (str "x") end)) nil))
      (index 0 ∷ key "name" ∷ [])
    ≡ some (str "x")
unfolding deref_match_path deref nth get
path_into_calls = refl

path_too_far : deref_match_path (list nil) (index 0 ∷ []) ≡ none
unfolding deref_match_path deref nth get
path_too_far = refl

abbrev print : ℕ → String
print (suc zero) = "1"
print (suc (suc zero)) = "2"
print n = "n"

location_text :
    format_scenario_location print "assert_output" (some 0) (some 2) (some "agent")
    ≡ "2nd assert_output after turn #1 (agentturn) (final assistant text for that turn)"
unfolding format_scenario_location kind_with_ordinal ordinal suffix_of label_of role_of spaced
location_text = refl

window_conversation_for_trace-IsWindow_example :
    IsWindow talk (window_conversation_for_trace talk 1) 1
window_conversation_for_trace-IsWindow_example =
    window_conversation_for_trace-IsWindow talk 1 (omega arith)

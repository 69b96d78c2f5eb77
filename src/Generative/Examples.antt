-- ===== src/Generative/Examples.antt =====
-- A trial of a scenario that fuzzes, and its replay.
use agent_spec_kit.Common.{
  ℕ, ◌+◌, ◌≡◌, refl, String, true, false, Option, none, some, List, [], ◌∷◌, length,
}
use agent_spec_kit.Common.Outcome.{Exception}
use agent_spec_kit.Common.Action.{Ended, completed}
use agent_spec_kit.Match.Value.{Value, str, end}
use agent_spec_kit.Match.Types.{Text}
use agent_spec_kit.Match.Matcher.{Matcher}
use agent_spec_kit.Scenario.State.{
  Agent, Halt, FuzzConfig, Step, user_message, fuzz_conversation, Scenario,
}
use agent_spec_kit.Scenario.Steps.{materialise, dispatch_step}
use agent_spec_kit.Scenario.Segments.{
  dispatch_user_message_text, route_user_message, reply_to, run_turn_of, outside, take_reply,
  other_actor,
}
use agent_spec_kit.Scenario.Records.{raise_if_agent_turn_errors, agent_turn_error_messages}
use agent_spec_kit.Scenario.Events.{from_turn}
use agent_spec_kit.Generative.Trials.{
  Messages, Strategies, merged_generative_steps, trial_steps, trial_step, fuzz_messages,
  dispatch_messages, messages_at,
}
use agent_spec_kit.Generative.Trials.{
  generate_fuzz_turns, validate_uniform_trials, validate_trials, fuzz_trials, all_equal,
}
use agent_spec_kit.Generative.Probe.{
  collect_fuzz_steps, trials_total, trial_messages, messages_by_trial, probe_messages,
  after_validation, mode_of, has_simulation, fuzz, trials_mismatch,
}
use agent_spec_kit.Generative.Laws.Replay.{trial-replayed}
use agent_spec_kit.Generative.Laws.TrialCount.{AsksFor, FuzzesNot}
use agent_spec_kit.Generative.Laws.Probe.{AllOwn, probe_messages-AllOwn}

abbrev no_loads : String → Option Value
no_loads s = none

abbrev no_summary : Matcher → Text
no_summary m = []

abbrev shown_value : Value → String
shown_value v = "value"

abbrev shown_exception : Exception → String
shown_exception e = "exception"

abbrev shown_number : ℕ → String
shown_number n = "number"

abbrev counting : Agent ℕ
counting text n =
    (completed (record { output = str "done"; events = []; status = "ok"; error = none }), n + 1)

abbrev config : FuzzConfig
config = record { strategy_kind = "Fixed"; seed_inputs = []; seed = none }

abbrev eager_ones : Strategies ℕ
eager_ones = record {
  eager = λ c. true;
  generate = λ c turns offset context n. (completed ("hi" ∷ []), n + 1);
}

abbrev fuzzed : List (Step ℕ)
fuzzed = fuzz_conversation config 1 2 ∷ user_message "bye" ∷ []

abbrev chosen : Messages
chosen = (0, "hello" ∷ "again" ∷ []) ∷ []

abbrev fresh : Scenario ℕ
fresh = record {
  adapted_agent = some counting;
  user = none;
  fixture_values = end;
  scenario_name = "fuzzed";
  steps = fuzzed;
  executed_until = 0;
  turn_results = [];
  simulation_started = false;
  next_actor = none;
  next_input = "";
  case_values = [];
  recording = false;
  world = 0;
}

abbrev trial : Ended Halt (Unit {0}) × Scenario ℕ × List (List String)
trial =
    trial_steps shown_value shown_number eager_ones shown_exception no_loads no_summary fuzzed
      chosen 0 0 fuzzed ([] ∷ [] ∷ []) fresh

trial-replayed_example :
    (u : Scenario ℕ) × (materialise shown_value shown_exception shown_number no_loads no_summary
        (record fresh { steps = merged_generative_steps fuzzed chosen []; executed_until = 0 })
      ≡ (completed tt, u))
    × (u.turn_results ≡ trial.1.turn_results)
    × (u.world ≡ trial.1.world)
unfolding trial_steps trial_step fuzz_messages dispatch_messages messages_at dispatch_step
    dispatch_user_message_text route_user_message reply_to run_turn_of outside take_reply
    other_actor raise_if_agent_turn_errors from_turn agent_turn_error_messages
trial-replayed_example =
    trial-replayed shown_value shown_number eager_ones shown_exception no_loads no_summary fuzzed
      chosen 0 ([] ∷ [] ∷ []) trial.2 fresh trial.1 ((("hello" ∷ "again" ∷ [], refl, refl)), tt)
      refl refl

-- Two steps fuzz, each for two trials.
abbrev fuzzed_twice : List (Step ℕ)
fuzzed_twice = fuzz_conversation config 2 3 ∷ user_message "bye" ∷ fuzz_conversation config 2 1 ∷ []

abbrev of_each_trial : List Messages
of_each_trial = one_trial ∷ one_trial ∷ []
  where
    one_trial : Messages
    one_trial = (0, "hi" ∷ []) ∷ (2, "hi" ∷ []) ∷ []

probe_messages-AllOwn_example :
    AsksFor (length of_each_trial) fuzzed_twice
    × (FuzzesNot fuzzed_twice → length of_each_trial ≡ 1)
    × AllOwn eager_ones 0 fuzzed_twice of_each_trial
unfolding probe_messages after_validation mode_of has_simulation validate_uniform_trials
    validate_trials fuzz_trials all_equal messages_by_trial trial_messages generate_fuzz_turns
    trials_total collect_fuzz_steps
probe_messages-AllOwn_example =
    probe_messages-AllOwn eager_ones shown_value shown_number false fuzzed_twice fuzz 7 11
      of_each_trial (refl, (refl, tt)) refl

abbrev uneven : List (Step ℕ)
uneven = fuzz_conversation config 2 3 ∷ fuzz_conversation config 4 1 ∷ []

-- The guard: different numbers of trials.
uneven_trials :
    probe_messages shown_value shown_number eager_ones false uneven 7
    ≡ (completed trials_mismatch, 7)
unfolding probe_messages after_validation mode_of has_simulation validate_uniform_trials
    validate_trials fuzz_trials all_equal trials_total collect_fuzz_steps
uneven_trials = refl

-- ===== src/Scenario/Steps.antt =====
-- scenario_core.py: the steps of a scenario and `materialise`. `str_of` is `str` of a value that is no
-- text, `message` of an exception; `decimal` is how an f-string prints a number.
use Prim.Native.String.{◌++◌ as str_append}
use agent_spec_kit.Common.{
  ℕ, ◌+◌, String, Bool, false, Option, none, some, List, [], ◌∷◌, if◌then◌else◌, drop,
}
use agent_spec_kit.Common.Outcome.{
  Exception, runtime_error, assertion_error, Outcome, returned, raised,
}
use agent_spec_kit.Common.Action.{
  Ended, completed, halted, ◌>>=◌, ◌>>◌, complete, halt, gets, modify, handled,
}
use agent_spec_kit.Match.Value.{Value, bool, tuple, nil}
use agent_spec_kit.Match.Types.{Text}
use agent_spec_kit.Match.Matcher.{Matcher}
use agent_spec_kit.Match.Spec.{Spec, matcher, forbidden_tool_calls_matcher, match_async_check}
use agent_spec_kit.Scenario.Events.{ConversationTurn}
use agent_spec_kit.Scenario.State.{
  Cause, caught, assertion, Halt, assertion_failed, threw, Callable, Step, user_message, action,
  env_assert, output_assert, tool_calls_assert, forbid_tool_calls, simulate, fuzz_conversation,
  Scenario, Run,
}
use agent_spec_kit.Scenario.Records.{assertion_index_after_turn, failure_record, raise_match_step}
use agent_spec_kit.Scenario.Arguments.{resolve_fixture_kwargs, coerce_tool_calls_list_spec}
use agent_spec_kit.Scenario.Checked.{output_to_assert, tool_calls_to_assert, tool_calls_to_forbid}
use agent_spec_kit.Scenario.Segments.{
  outside, attempt, dispatch_user_message_text, run_simulation_segment,
}

module _ {W : Type 0} where
  -- `_resolve_fixture_kwargs` and the call.
  unfoldable pub call_with_fixtures : Callable W → Run W Value
  call_with_fixtures fn = do
    fixtures ← gets (λ s. s.fixture_values)
    kwargs ← attempt (resolve_fixture_kwargs fn.params fixtures)
    outside (fn.call kwargs)

  -- The failure of an `assert_that` step.
  unfoldable pub env_failure : Scenario W → (actual : Value) → Cause → Halt
  unfolding failure_record assertion_index_after_turn
  env_failure s actual error = assertion_failed "" (
      failure_record s "assert_that" actual none [] (some error)
        (assertion_index_after_turn s "assert_that"))

  -- The handlers of `_run_env_assert`, and its test of the result.
  unfoldable pub after_env_call :
      (message : Exception → String) → Ended Halt Value → Run W (Unit {0})
  unfolding env_failure
  after_env_call message (halted (assertion_failed prefix failed)) s =
      (halted (assertion_failed prefix failed), s)
  after_env_call message (halted (threw assertion_error)) s =
      (halted (env_failure s (tuple nil) (caught assertion_error)), s)
  after_env_call message (halted (threw e)) s = (
    halted (
        env_failure s (tuple nil)
          (assertion (str_append "assert_that callable raised: " (message e)))),
    s,
  )
  after_env_call message (completed (bool false)) s =
      (halted (env_failure s (bool false) (assertion "assert_that callable returned False")), s)
  after_env_call message (completed v) s = (completed tt, s)

  unfoldable pub run_env_assert : (message : Exception → String) → Callable W → Run W (Unit {0})
  run_env_assert message fn = do
    fixtures ← gets (λ s. s.fixture_values)
    kwargs ← attempt (resolve_fixture_kwargs fn.params fixtures)
    handled (outside (fn.call kwargs)) (after_env_call message)

  abbrev pub count_step : Scenario W → Scenario W
  count_step s = record s { executed_until = s.executed_until + 1 }

-- `if not self._turn_results: raise AssertionError(...)`
unfoldable pub require_turns : List ConversationTurn → Outcome (List ConversationTurn)
require_turns [] = raised assertion_error
require_turns (ct ∷ cts) = returned (ct ∷ cts)

-- The spec of a step that forbids tool calls.
unfoldable pub forbid_list_spec : Spec → (in_order : Bool) → Outcome Spec
unfolding forbidden_tool_calls_matcher
forbid_list_spec spec in_order = elim (forbidden_tool_calls_matcher spec in_order) [
  | returned m ↦ returned (matcher m)
  | raised e ↦ raised e
]

module _ {W : Type 0} (loads : String → Option Value) (summary : Matcher → Text) where
  -- A check of `actual` by the spec that is made of the step's, which the failure shows.
  unfoldable pub assert_matches :
      (step_kind : String) (step_spec : Spec) → Outcome Spec → (actual : Value) → Run W (Unit {0})
  assert_matches kind step_spec made actual = do
    spec ← attempt made
    r ← attempt (match_async_check loads summary spec actual)
    raise_match_step kind r step_spec actual

  -- The branch of a step that checks the turns: what `checked` takes of them, by the spec that is made.
  unfoldable pub assert_on :
      (step_kind : String) (step_spec : Spec)
      → Outcome Spec
      → (checked : List ConversationTurn → Outcome Value) → Run W (Unit {0})
  assert_on kind step_spec made checked = do
    queued ← gets (λ s. s.turn_results)
    turns ← attempt (require_turns queued)
    actual ← attempt (checked turns)
    assert_matches kind step_spec made actual

module _ {W : Type 0} (str_of : Value → String) (message : Exception → String)
    (decimal : ℕ → String) (loads : String → Option Value) (summary : Matcher → Text) where
  unfoldable pub dispatch_step : Step W → Run W (Unit {0})
  dispatch_step (user_message text) = dispatch_user_message_text str_of decimal text
  dispatch_step (action fn) = call_with_fixtures fn >> complete tt
  dispatch_step (simulate max_turns stop on seed_actor seed_input) =
      run_simulation_segment str_of decimal loads summary max_turns stop on seed_actor seed_input
  dispatch_step (fuzz_conversation config trials max_user_turns) = halt (threw runtime_error)
  dispatch_step (env_assert fn) = run_env_assert message fn
  dispatch_step (output_assert spec turn actor) =
      assert_on loads summary "assert_output" spec (returned spec)
        (λ turns. output_to_assert str_of turns turn actor)
  dispatch_step (tool_calls_assert spec in_order allow_extras turn actor) =
      assert_on loads summary "assert_tool_calls" spec
        (coerce_tool_calls_list_spec spec in_order allow_extras)
        (λ turns. tool_calls_to_assert turns turn actor)
  dispatch_step (forbid_tool_calls spec in_order turn actor) =
      assert_on loads summary "forbid_tool_calls" spec (forbid_list_spec spec in_order)
        (λ turns. tool_calls_to_forbid turns turn actor)

  -- The `while` loop over the steps that are left.
  unfoldable pub run_steps : List (Step W) → Run W (Unit {0})
  run_steps [] = complete tt
  run_steps (step ∷ steps) = do dispatch_step step; modify count_step; run_steps steps

  unfoldable pub materialise : Run W (Unit {0})
  materialise s =
      if s.recording then (completed tt, s) else run_steps (drop s.executed_until s.steps) s

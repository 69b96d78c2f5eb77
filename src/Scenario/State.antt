-- ===== src/Scenario/State.antt =====
-- scenario_core.py and failures.py: the steps of a scenario, its object, and failure records. `W` is
-- the state of what agents and callables reach outside the scenario. Counts are natural numbers: the
-- code refuses the negative ones as it refuses 0.
use agent_spec_kit.Common.{ℕ, String, Bool, Option, List}
use agent_spec_kit.Common.Int.{ℤ}
use agent_spec_kit.Common.Outcome.{Exception}
use agent_spec_kit.Common.Action.{Action}
use agent_spec_kit.Match.Value.{Value, Fields}
use agent_spec_kit.Match.Types.{MatchError}
use agent_spec_kit.Match.Spec.{Spec}
use agent_spec_kit.Params.Cases.{Case}
use agent_spec_kit.Scenario.Events.{Event, TurnResult, ConversationTurn}

-- The error of a record: an exception as it was caught, or an AssertionError with this text.
pub data Cause : Type 0 where
  caught : Exception → Cause
  assertion : String → Cause

pub record FailureRecord : Type 0 where
  pub scenario_name : String
  pub step_index : ℕ
  pub step_kind : String
  pub turn_index : Option ℕ
  pub actual : Value
  pub matcher_spec : Option Spec
  pub matcher_errors : List MatchError
  pub error : Option Cause
  pub events : Option (List Event)
  pub turn_results : List ConversationTurn
  pub assertion_index_after_turn : Option ℕ

-- What a method raises: a ScenarioAssertionFailed with its record and the prefix of its headline, or
-- another exception.
pub data Halt : Type 0 where
  assertion_failed : (headline_prefix : String) → FailureRecord → Halt
  threw : Exception → Halt

pub record FuzzConfig : Type 0 where
  pub strategy_kind : String
  pub seed_inputs : List String
  pub seed : Option ℤ

-- `run_turn` of an AdaptedAgent.
abbrev pub Agent : Type 0 → Type 0
Agent W = String → Action W Halt TurnResult

-- A function given to `action` or `assert_that`: its parameters, each with whether it is `*args` or
-- `**kwargs`, and what a call with keyword arguments does.
pub record Callable (W : Type 0) : Type 0 where
  pub params : List (String × Bool)
  pub call : Fields → Action W Halt Value

pub data Step (W : Type 0) : Type 0 where
  user_message : (message : String) → Step W
  action : Callable W → Step W
  env_assert : Callable W → Step W
  output_assert : Spec → (turn : String) (actor : Option String) → Step W
  tool_calls_assert :
      Spec → (in_order allow_extras : Bool) (turn : String) (actor : Option String) → Step W
  forbid_tool_calls : Spec → (in_order : Bool) (turn : String) (actor : Option String) → Step W
  simulate :
      (max_turns : ℕ) (stop_condition : Option Spec) (stop_on_actor : String)
      (seed_actor seed_input : Option String)
      → Step W
  fuzz_conversation : FuzzConfig → (trials max_user_turns : ℕ) → Step W

pub record Scenario (W : Type 0) : Type 0 where
  pub adapted_agent : Option (Agent W)
  pub user : Option (Agent W)
  pub fixture_values : Fields
  pub scenario_name : String
  pub steps : List (Step W)
  pub executed_until : ℕ
  pub turn_results : List ConversationTurn
  pub simulation_started : Bool
  pub next_actor : Option String
  pub next_input : String
  pub case_values : List (String × Case Value)
  pub recording : Bool
  pub world : W

-- A method of a scenario.
abbrev pub Run : Type 0 → Type 0 → Type 0
Run W A = Action (Scenario W) Halt A

-- ===== src/Scenario/Build.antt =====
-- scenario_core.py: the methods that queue steps, the checks of a body after `materialise`, the cases
-- of a run, `create_scenario` and `scenario_fuzz_metadata`.
use agent_spec_kit.Common.{
  ℕ, String, Bool, true, false, not, ◌||◌, Option, none, some, List, [], ◌∷◌, ◌++◌, map, str_eq,
  if◌then◌else◌, ltb, ◌==◌, length,
}
use agent_spec_kit.Common.Int.{pos}
use agent_spec_kit.Common.Outcome.{
  type_error, value_error, key_error, runtime_error, Outcome, returned, raised, ◌>>=◌, ◌>>◌,
}
use agent_spec_kit.Match.Value.{Value, null, int, str, list, of_list, Fields, end, field, get}
use agent_spec_kit.Match.Types.{Text, MatchResult}
use agent_spec_kit.Match.Matcher.{Matcher}
use agent_spec_kit.Match.Spec.{Spec, match_check, match_async_check}
use agent_spec_kit.Params.Cases.{Case}
use agent_spec_kit.Scenario.State.{Agent, Callable, FuzzConfig, Step, Scenario}
use agent_spec_kit.Scenario.ToolCalls.{tool_dicts_from_conversation_turn, tool_dicts_up_to_now}
use agent_spec_kit.Scenario.Arguments.{
  coerce_tool_calls_list_spec, chosen_actor, conversation_for_assert, outputs_up_to_now,
}

unfoldable pub find_case : List (String × Case Value) → String → Option (Case Value)
find_case [] name = none
find_case ((k, c) ∷ cases) name = if str_eq k name then some c else find_case cases name

-- `set(fv) & set(fixtures)` is not empty.
unfoldable pub overlaps : Fields → Fields → Bool
unfolding get
overlaps fv end = false
overlaps fv (field k v fixtures) = elim (get k fv) [ none ↦ overlaps fv fixtures | some w ↦ true ]

-- `dict.update` by a dict that has no key of the first.
unfoldable pub append_fields : Fields → Fields → Fields
append_fields end more = more
append_fields (field k v fs) more = field k v (append_fields fs more)

-- `if not ...: raise TypeError`
unfoldable pub require : Bool → Outcome (Unit {0})
require true = returned tt
require false = raised type_error

unfoldable pub is_some {ℓ} : {A : Type ℓ} → Option A → Bool
is_some none = false
is_some (some a) = true

-- The one positional argument.
unfoldable pub agent_of {ℓ} : {A : Type ℓ} → List (Option A) → Outcome (Option A)
agent_of [] = returned none
agent_of (a ∷ []) = returned a
agent_of (a ∷ b ∷ more) = raised type_error

module _ {W : Type 0} where
  unfoldable pub queue : Step W → Scenario W → Scenario W
  queue step s = record s { steps = s.steps ++ step ∷ [] }

  unfoldable pub user_message : String → Scenario W → Scenario W
  unfolding queue
  user_message text = queue (Step.user_message text)

  unfoldable pub action : Callable W → Scenario W → Scenario W
  unfolding queue
  action fn = queue (Step.action fn)

  unfoldable pub assert_that : Callable W → Scenario W → Scenario W
  unfolding queue
  assert_that fn = queue (Step.env_assert fn)

  unfoldable pub assert_output :
      Spec → (turn : String) (actor : Option String) → Scenario W → Scenario W
  unfolding queue
  assert_output spec turn actor = queue (Step.output_assert spec turn actor)

  unfoldable pub assert_tool_calls :
      Spec
      → (in_order allow_extras : Bool) (turn : String) (actor : Option String) → Scenario W
      → Scenario W
  unfolding queue
  assert_tool_calls spec in_order allow_extras turn actor =
      queue (Step.tool_calls_assert spec in_order allow_extras turn actor)

  unfoldable pub forbid_tool_calls :
      Spec → (in_order : Bool) (turn : String) (actor : Option String) → Scenario W → Scenario W
  unfolding queue
  forbid_tool_calls spec in_order turn actor =
      queue (Step.forbid_tool_calls spec in_order turn actor)

  unfoldable pub simulate_conversation :
      (max_turns : ℕ) (stop_condition : Option Spec) (stop_on_actor : String)
      (seed_actor seed_input : Option String)
      → Scenario W
      → Outcome (Scenario W)
  unfolding queue
  simulate_conversation max_turns stop on seed_actor seed_input s =
      if ltb max_turns 1
      then raised value_error
      else if str_eq on "agent" || (str_eq on "user" || str_eq on "any")
      then returned (queue (Step.simulate max_turns stop on seed_actor seed_input) s)
      else raised value_error

  unfoldable pub fuzz_conversation :
      FuzzConfig → (trials max_user_turns : ℕ) → Scenario W → Outcome (Scenario W)
  unfolding queue
  fuzz_conversation config trials max_user_turns s =
      if ltb trials 1
      then raised value_error
      else if ltb max_user_turns 1
      then raised value_error
      else returned (queue (Step.fuzz_conversation config trials max_user_turns) s)

  unfoldable pub case : Scenario W → String → Outcome (Case Value)
  unfolding find_case
  case s name = elim (find_case s.case_values name) [
    | none ↦ raised key_error
    | some c ↦ returned c
  ]

  unfoldable pub param : Scenario W → String → Outcome Value
  unfolding case
  param s name = do c ← case s name; returned c.value

  unfoldable pub has_pending_steps : Scenario W → Bool
  has_pending_steps s = ltb s.executed_until (length s.steps)

  unfoldable pub require_post_checks_ready : Scenario W → Outcome (Unit {0})
  require_post_checks_ready s =
      if s.executed_until == length s.steps
      then elim s.turn_results [ [] ↦ raised runtime_error | ct ∷ cts ↦ returned tt ]
      else raised runtime_error

  -- The configuration of a step that fuzzes, with its trials and turns.
  unfoldable pub fuzz_steps : List (Step W) → List (FuzzConfig × ℕ × ℕ)
  fuzz_steps [] = []
  fuzz_steps (Step.fuzz_conversation config trials turns ∷ steps) =
      (config, trials, turns) ∷ fuzz_steps steps
  fuzz_steps (_ ∷ steps) = fuzz_steps steps

  unfoldable pub create_scenario :
      (args : List (Option (Agent W))) (user : Option (Agent W))
      (case_values : List (String × Case Value)) (fixture_values : Fields) (scenario_name : String)
      (recording : Bool) (fixtures : Fields) (world : W)
      → Outcome (Scenario W)
  unfolding overlaps append_fields agent_of require is_some
  create_scenario args user cases fv name recording fixtures world = do
    agent ← agent_of args
    require (is_some agent || is_some user)
    require (not (overlaps fv fixtures))
    returned (record {
      adapted_agent = agent;
      user = user;
      fixture_values = append_fields fv fixtures;
      scenario_name = name;
      steps = [];
      executed_until = 0;
      turn_results = [];
      simulation_started = false;
      next_actor = none;
      next_input = "";
      case_values = cases;
      recording = recording;
      world = world;
    })

-- The metadata of the steps that fuzz, of which the first is described.
abbrev pub fuzz_meta : FuzzConfig × ℕ × ℕ → Fields → Value
fuzz_meta (config, trials, turns) rest = Value.dict (
    field "strategy_kind" (str config.strategy_kind) (
      field "seed" (elim config.seed [ none ↦ null | some n ↦ int n ])
        (field "seed_inputs" (list (of_list (map str config.seed_inputs)))
          (field "trials" (int (pos trials)) (field "max_user_turns" (int (pos turns)) rest)))))

unfoldable pub metadata_of : List (FuzzConfig × ℕ × ℕ) → Option Value
metadata_of [] = none
metadata_of (one ∷ []) = some (fuzz_meta one end)
metadata_of (one ∷ more) = some (
    fuzz_meta one (
      field "fuzz_step_count" (int (pos (length (one ∷ more))))
        (field "trials_by_step" (list (of_list (map (λ st. int (pos st.1)) (one ∷ more)))) end)))

unfoldable pub scenario_fuzz_metadata : {W : Type 0} → Scenario W → Option Value
unfolding fuzz_steps metadata_of
scenario_fuzz_metadata s = metadata_of (fuzz_steps s.steps)

module _ {W : Type 0} (str_of : Value → String) (loads : String → Option Value)
    (summary : Matcher → Text) where
  unfoldable pub check_output :
      Scenario W → Spec → (turn : String) (actor : Option String) → Outcome MatchResult
  check_output s spec turn actor = do
    require_post_checks_ready s
    if str_eq turn "last"
        then (do
          ct ← conversation_for_assert s.turn_results actor
          match_check loads summary spec ct.output)
        else if str_eq turn "up_to_now"
        then match_check loads summary spec
            (str (outputs_up_to_now str_of s.turn_results (chosen_actor s.turn_results actor)))
        else raised value_error

  unfoldable pub async_check_output :
      Scenario W → Spec → (turn : String) (actor : Option String) → Outcome MatchResult
  async_check_output s spec turn actor = do
    require_post_checks_ready s
    if str_eq turn "last"
        then (do
          ct ← conversation_for_assert s.turn_results actor
          match_async_check loads summary spec ct.output)
        else if str_eq turn "up_to_now"
        then match_async_check loads summary spec
            (str (outputs_up_to_now str_of s.turn_results (chosen_actor s.turn_results actor)))
        else raised value_error

module _ {W : Type 0} (loads : String → Option Value) (summary : Matcher → Text) where
  unfoldable pub check_tool_calls :
      Scenario W
      → Spec
      → (in_order allow_extras : Bool) (turn : String) (actor : Option String) → Outcome MatchResult
  unfolding conversation_for_assert tool_dicts_from_conversation_turn tool_dicts_up_to_now
  check_tool_calls s spec in_order allow_extras turn actor = do
    require_post_checks_ready s
    actual ←
        if str_eq turn "last"
        then (do
          ct ← conversation_for_assert s.turn_results actor
          returned (list (of_list (tool_dicts_from_conversation_turn ct))))
        else if str_eq turn "up_to_now"
        then returned (
            list
              (of_list (tool_dicts_up_to_now s.turn_results (chosen_actor s.turn_results actor))))
        else raised value_error
    list_spec ← coerce_tool_calls_list_spec spec in_order allow_extras
    match_check loads summary list_spec actual

  unfoldable pub async_check_tool_calls :
      Scenario W
      → Spec
      → (in_order allow_extras : Bool) (turn : String) (actor : Option String) → Outcome MatchResult
  unfolding conversation_for_assert tool_dicts_from_conversation_turn tool_dicts_up_to_now
  async_check_tool_calls s spec in_order allow_extras turn actor = do
    require_post_checks_ready s
    actual ←
        if str_eq turn "last"
        then (do
          ct ← conversation_for_assert s.turn_results actor
          returned (list (of_list (tool_dicts_from_conversation_turn ct))))
        else if str_eq turn "up_to_now"
        then returned (
            list
              (of_list (tool_dicts_up_to_now s.turn_results (chosen_actor s.turn_results actor))))
        else raised value_error
    list_spec ← coerce_tool_calls_list_spec spec in_order allow_extras
    match_async_check loads summary list_spec actual

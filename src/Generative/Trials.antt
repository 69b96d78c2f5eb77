-- ===== src/Generative/Trials.antt =====
-- isolated_generative.py: the steps of a trial, from the scenario that is made for it on. `generate` is
-- the strategy of a step, with the seed of its random numbers, and `eager` whether it makes all its
-- messages at once.
use agent_spec_kit.Common.{
  ℕ, suc, ◌+◌, ◌*◌, String, Bool, true, false, not, ◌&&◌, ◌||◌, Option, none, some, List, [], ◌∷◌,
  ◌++◌, map, str_eq, if◌then◌else◌, ltb, ◌==◌, length, set, drop, take,
}
use agent_spec_kit.Common.Outcome.{
  Exception, value_error, assertion_error, Outcome, returned, raised,
}
use agent_spec_kit.Common.Action.{Ended, completed, halted, Action, ◌>>=◌, ◌>>◌, complete, gets}
use agent_spec_kit.Match.Value.{Value, null}
use agent_spec_kit.Match.Types.{Text}
use agent_spec_kit.Match.Matcher.{Matcher}
use agent_spec_kit.Scenario.Events.{ConversationTurn}
use agent_spec_kit.Scenario.State.{
  caught, FailureRecord, Halt, assertion_failed, threw, FuzzConfig, Step, user_message, simulate,
  fuzz_conversation, Scenario, Run,
}
use agent_spec_kit.Scenario.Records.{last_turn_events, last_index}
use agent_spec_kit.Scenario.Segments.{outside, output_text, dispatch_user_message_text}
use agent_spec_kit.Scenario.Steps.{dispatch_step, materialise}
use agent_spec_kit.Generative.Context.{FuzzSegmentContext, build_fuzz_segment_context}

-- A dict from the indices of steps to messages.
abbrev pub Messages : Type 0
Messages = List (ℕ × List String)

unfoldable pub messages_at : ℕ → Messages → Option (List String)
messages_at i [] = none
messages_at i ((j, ms) ∷ rest) = if j == i then some ms else messages_at i rest

unfoldable pub flat_user_turns_from_breakdown : List (List String) → List String
flat_user_turns_from_breakdown [] = []
flat_user_turns_from_breakdown (seg ∷ segs) = seg ++ flat_user_turns_from_breakdown segs

unfoldable pub all_equal : ℕ → List ℕ → Bool
all_equal n [] = true
all_equal n (m ∷ ms) = m == n && all_equal n ms

module _ {W : Type 0} where
  unfoldable pub fuzz_trials : List (Step W) → List ℕ
  fuzz_trials [] = []
  fuzz_trials (fuzz_conversation config trials turns ∷ steps) = trials ∷ fuzz_trials steps
  fuzz_trials (_ ∷ steps) = fuzz_trials steps

unfoldable pub validate_trials : List ℕ → Outcome (Unit {0})
unfolding all_equal
validate_trials [] = returned tt
validate_trials (n ∷ ns) = if all_equal n ns then returned tt else raised value_error

module _ {W : Type 0} where
  unfoldable pub validate_uniform_trials : List (Step W) → Outcome (Unit {0})
  unfolding validate_trials fuzz_trials
  validate_uniform_trials steps = validate_trials (fuzz_trials steps)

  unfoldable pub fuzz_segment_index : List (Step W) → (step_index : ℕ) → ℕ
  unfolding fuzz_trials
  fuzz_segment_index original i = length (fuzz_trials (take i original))

  -- The messages that replace a step that generates.
  unfoldable pub replacement : (i : ℕ) (captured overrides : Messages) → List (Step W)
  unfolding messages_at
  replacement i captured overrides = map user_message (elim (messages_at i overrides) [
    | some turns ↦ turns
    | none ↦ elim (messages_at i captured) [ none ↦ [] | some turns ↦ turns ]
  ])

  -- The steps from index `i` on.
  unfoldable pub merged_steps_from :
      (i : ℕ) (captured overrides : Messages) → List (Step W) → List (Step W)
  unfolding replacement
  merged_steps_from i captured overrides [] = []
  merged_steps_from i captured overrides (fuzz_conversation config trials turns ∷ steps) =
      replacement i captured overrides ++ merged_steps_from (suc i) captured overrides steps
  merged_steps_from i captured overrides (simulate max_turns stop on actor input ∷ steps) =
      replacement i captured overrides ++ merged_steps_from (suc i) captured overrides steps
  merged_steps_from i captured overrides (st ∷ steps) =
      st ∷ merged_steps_from (suc i) captured overrides steps

  unfoldable pub merged_generative_steps :
      List (Step W) → (captured_per_step overrides : Messages) → List (Step W)
  unfolding merged_steps_from
  merged_generative_steps original captured overrides =
      merged_steps_from 0 captured overrides original

module _ (str_of : Value → String) where
  unfoldable pub user_texts : List ConversationTurn → List String
  unfolding output_text
  user_texts [] = []
  user_texts (t ∷ ts) =
      let rest = user_texts ts in
      if str_eq t.actor "user" then output_text str_of t.output ∷ rest else rest

  unfoldable pub user_turns_slice : List ConversationTurn → (start : ℕ) → List String
  unfolding user_texts
  user_turns_slice turns start = user_texts (drop start turns)

-- The parameters of a trial: `random.Random` is seeded with the sum of the seed, or 0, and the number.
pub record Strategies (W : Type 0) : Type 0 where
  pub eager : FuzzConfig → Bool
  pub generate :
      FuzzConfig
      → (max_user_turns : ℕ) (rng_offset : ℕ) → Option FuzzSegmentContext
      → Action W Halt (List String)

module _ {W : Type 0} (str_of : Value → String) (decimal : ℕ → String)
    (strategies : Strategies W) where
  unfoldable pub rng_offset : (trial segment_k : ℕ) → ℕ
  rng_offset trial segment_k = trial * 100003 + segment_k * 7919

  unfoldable pub generate_fuzz_turns :
      FuzzConfig
      → (max_user_turns offset segment_index : ℕ) (turn_results : List ConversationTurn)
      → Action W Halt (List String)
  generate_fuzz_turns config max_user_turns offset k turns =
      strategies.generate config max_user_turns offset (
        if ltb 0 k || not (strategies.eager config)
        then some (build_fuzz_segment_context str_of turns k)
        else none)

  -- The messages for the turns so far.
  unfoldable pub generate_now :
      FuzzConfig → (max_user_turns offset segment_index : ℕ) → Run W (List String)
  unfolding generate_fuzz_turns
  generate_now config max_user_turns offset k = do
    turns ← gets (λ s. s.turn_results)
    outside (generate_fuzz_turns config max_user_turns offset k turns)

  -- The messages of a step that fuzzes: those given for it, if its strategy makes them at once.
  unfoldable pub fuzz_messages :
      FuzzConfig
      → (max_user_turns offset segment_index : ℕ) (given : Option (List String))
      → Run W (List String)
  fuzz_messages config max_user_turns offset k none = generate_now config max_user_turns offset k
  fuzz_messages config max_user_turns offset k (some messages) =
      if strategies.eager config
      then complete messages
      else generate_now config max_user_turns offset k

  unfoldable pub dispatch_messages : List String → Run W (Unit {0})
  dispatch_messages [] = complete tt
  dispatch_messages (m ∷ ms) = dispatch_user_message_text str_of decimal m >> dispatch_messages ms

  module _ (message : Exception → String) (loads : String → Option Value) (summary : Matcher → Text)
      (original : List (Step W)) (given : Messages) (trial : ℕ) where
    -- A step of a trial, with what goes into the breakdown.
    unfoldable pub trial_step : (i : ℕ) → Step W → Run W (List String)
    trial_step i (fuzz_conversation config trials max_user_turns) = do
      messages ←
          fuzz_messages config max_user_turns (rng_offset trial (fuzz_segment_index original i))
            (fuzz_segment_index original i) (messages_at i given)
      dispatch_messages messages
      complete messages
    trial_step i (simulate max_turns stop on actor input) = do
      start ← gets (λ s. length s.turn_results)
      dispatch_step str_of message decimal loads summary (simulate max_turns stop on actor input)
      gets (λ s. user_turns_slice str_of s.turn_results start)
    trial_step i (user_message text) = do
      dispatch_step str_of message decimal loads summary (user_message text)
      complete (text ∷ [])
    trial_step i st = do dispatch_step str_of message decimal loads summary st; complete []

    -- The `for` loop from step `i` on, with the breakdown so far, which is kept when a step raises.
    unfoldable pub trial_steps :
        (i : ℕ)
        → List (Step W)
        → (breakdown : List (List String)) → Scenario W
        → Ended Halt (Unit {0}) × Scenario W × List (List String)
    trial_steps i [] breakdown s = (completed tt, s, breakdown)
    trial_steps i (st ∷ steps) breakdown s =
        let after = trial_step i st (record s { executed_until = i }) in
        elim after.0 [
          | completed messages ↦ trial_steps (suc i) steps (set breakdown i messages) after.1
          | halted x ↦ (halted x, after.1, breakdown)
        ]

-- What a trial returns: `failure` is the record whose counterexample it returns, `detail` the text of
-- another error.
pub record TrialResult : Type 0 where
  pub passed : Bool
  pub failure : Option FailureRecord
  pub transcript : List ConversationTurn
  pub detail : Option String
  pub breakdown : List (List String)

-- The record of an AssertionError that is no ScenarioAssertionFailed.
unfoldable pub body_record :
    {W : Type 0} → (scenario_name : String) → Exception → Scenario W → FailureRecord
unfolding last_index last_turn_events
body_record name e s = record {
  scenario_name = name;
  step_index = s.executed_until;
  step_kind = "scenario_body";
  turn_index = last_index s;
  actual = null;
  matcher_spec = none;
  matcher_errors = [];
  error = some (caught e);
  events = last_turn_events s;
  turn_results = s.turn_results;
  assertion_index_after_turn = none;
}

-- The handlers of a trial: `format_error` is `_format_error` of an exception.
unfoldable pub trial_result :
    {W : Type 0}
    → (format_error : Exception → String) (scenario_name : String) → Ended Halt (Unit {0})
    → Scenario W
    → (breakdown : List (List String)) → TrialResult
unfolding body_record
trial_result format name (completed _) s breakdown = record {
  passed = true;
  failure = none;
  transcript = s.turn_results;
  detail = none;
  breakdown = breakdown;
}
trial_result format name (halted (assertion_failed prefix failed)) s breakdown = record {
  passed = false;
  failure = some failed;
  transcript = s.turn_results;
  detail = none;
  breakdown = breakdown;
}
trial_result format name (halted (threw assertion_error)) s breakdown = record {
  passed = false;
  failure = some (body_record name assertion_error s);
  transcript = s.turn_results;
  detail = none;
  breakdown = breakdown;
}
trial_result format name (halted (threw e)) s breakdown = record {
  passed = false;
  failure = none;
  transcript = [];
  detail = some (format e);
  breakdown = breakdown;
}

module _ {W : Type 0} (str_of : Value → String) (decimal : ℕ → String)
    (message : Exception → String) (loads : String → Option Value) (summary : Matcher → Text)
    (format_error : Exception → String) where
  -- `_run_single_trial`, on the scenario that it creates.
  unfoldable pub single_trial : (merged_steps : List (Step W)) → Scenario W → TrialResult
  unfolding trial_result
  single_trial merged s =
      let ran =
        materialise str_of message decimal loads summary
          (record s { steps = merged; executed_until = 0 }) in
      trial_result format_error s.scenario_name ran.0 ran.1 []

  -- `_run_trial_with_breakdown`, on the scenario that it creates.
  unfoldable pub trial_with_breakdown :
      Strategies W
      → (original : List (Step W)) (given : Messages) (trial_index : ℕ) → Scenario W
      → TrialResult
  unfolding trial_steps trial_result
  trial_with_breakdown strategies original given trial s =
      let ran =
        trial_steps str_of decimal strategies message loads summary original given trial 0 original
          (map (λ st. []) original) s in
      trial_result format_error s.scenario_name ran.0 ran.1 ran.2

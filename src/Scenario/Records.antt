-- ===== src/Scenario/Records.antt =====
-- scenario_core.py: the failure records of a scenario, and the checks that raise them.
use Prim.Native.String.{◌++◌ as str_append}
use agent_spec_kit.Common.{
  contains, ℕ, suc, String, Bool, true, false, Option, none, some, List, [], ◌∷◌, ◌++◌, map, str_eq,
  if◌then◌else◌, ltb, length, take,
}
use mathlib.Core.List.{reverse}
use agent_spec_kit.Common.Action.{completed, halted}
use agent_spec_kit.Match.Value.{Value, str, tuple, of_list}
use agent_spec_kit.Match.Types.{MatchError, MatchResult}
use agent_spec_kit.Match.Spec.{Spec}
use agent_spec_kit.Scenario.Events.{Event, collect_event_errors, non_empty, ConversationTurn}
use agent_spec_kit.Scenario.State.{
  Cause, assertion, FailureRecord, assertion_failed, Step, user_message, env_assert, output_assert,
  tool_calls_assert, forbid_tool_calls, simulate, fuzz_conversation, Scenario, Run,
}

unfoldable pub last_of {ℓ} : {A : Type ℓ} → List A → Option A
last_of [] = none
last_of (x ∷ []) = some x
last_of (x ∷ y ∷ ys) = last_of (y ∷ ys)

-- `for err in errs: if err not in msgs: msgs.append(err)`
unfoldable pub add_new : List String → List String → List String
unfolding contains
add_new msgs [] = msgs
add_new msgs (e ∷ es) = add_new (if contains msgs e then msgs else msgs ++ e ∷ []) es

unfoldable pub add_event_errors : List String → List Event → List String
unfolding add_new collect_event_errors
add_event_errors msgs [] = msgs
add_event_errors msgs (root ∷ roots) =
    add_event_errors (add_new msgs (collect_event_errors root)) roots

-- The messages of the turn itself.
unfoldable pub own_messages : (status : String) (error : Option String) → List String
unfolding non_empty
own_messages status none = if str_eq status "error" then "agent turn failed" ∷ [] else []
own_messages status (some e) = elim (non_empty (some e)) [ none ↦ [] | some m ↦ m ∷ [] ]

unfoldable pub agent_turn_error_messages : ConversationTurn → List String
unfolding own_messages add_event_errors
agent_turn_error_messages ct =
    if str_eq ct.actor "agent"
    then add_event_errors (own_messages ct.status ct.error) ct.events
    else []

-- `decimal` is how an f-string prints a number.
unfoldable pub agent_headline :
    (decimal : ℕ → String) (first : String) (rest : List String) → String
agent_headline decimal first [] = first
agent_headline decimal first (e ∷ es) =
    str_append first
      (str_append " (+" (str_append (decimal (length (e ∷ es))) " more agent error(s))"))

module _ {W : Type 0} where
  unfoldable pub is_env_assert : Step W → Bool
  is_env_assert (env_assert fn) = true
  is_env_assert _ = false

  unfoldable pub is_output_assert : Step W → Bool
  is_output_assert (output_assert spec turn actor) = true
  is_output_assert _ = false

  unfoldable pub is_tool_calls_assert : Step W → Bool
  is_tool_calls_assert (tool_calls_assert spec in_order allow_extras turn actor) = true
  is_tool_calls_assert _ = false

  unfoldable pub is_forbid_tool_calls : Step W → Bool
  is_forbid_tool_calls (forbid_tool_calls spec in_order turn actor) = true
  is_forbid_tool_calls _ = false

  unfoldable pub is_conversation : Step W → Bool
  is_conversation (user_message text) = true
  is_conversation (simulate n stop on actor input) = true
  is_conversation (fuzz_conversation cfg trials turns) = true
  is_conversation _ = false

  -- `step_types.get(step_kind)`
  unfoldable pub step_type : String → Option (Step W → Bool)
  unfolding is_env_assert is_output_assert is_tool_calls_assert is_forbid_tool_calls
  step_type kind =
      if str_eq kind "assert_output"
      then some is_output_assert
      else if str_eq kind "assert_tool_calls"
      then some is_tool_calls_assert
      else if str_eq kind "forbid_tool_calls"
      then some is_forbid_tool_calls
      else if str_eq kind "assert_that"
      then some is_env_assert
      else none

  -- The steps behind the last one that converses, from the end back.
  unfoldable pub back_to_conversation : List (Step W) → List (Step W)
  unfolding is_conversation
  back_to_conversation [] = []
  back_to_conversation (st ∷ sts) =
      let rest = back_to_conversation sts in if is_conversation st then [] else st ∷ rest

  unfoldable pub count_steps : (Step W → Bool) → List (Step W) → ℕ
  count_steps is_kind [] = 0
  count_steps is_kind (st ∷ sts) =
      let rest = count_steps is_kind sts in if is_kind st then suc rest else rest

  unfoldable pub count_after_turn : (Step W → Bool) → Scenario W → ℕ
  unfolding back_to_conversation count_steps
  count_after_turn is_kind s =
      count_steps is_kind (back_to_conversation (reverse (take (suc s.executed_until) s.steps)))

  unfoldable pub assertion_index_after_turn : Scenario W → (step_kind : String) → Option ℕ
  unfolding step_type count_after_turn
  assertion_index_after_turn s kind = elim (step_type kind) [
    | none ↦ none
    | some is_kind ↦
        if ltb s.executed_until (length s.steps)
        then (if ltb 0 (count_after_turn is_kind s)
            then some (count_after_turn is_kind s)
            else none)
        else none
  ]

  unfoldable pub last_turn_events : Scenario W → Option (List Event)
  unfolding last_of
  last_turn_events s = elim (last_of s.turn_results) [
    | none ↦ none
    | some ct ↦ elim ct.events [ [] ↦ none | e ∷ es ↦ some (e ∷ es) ]
  ]

  unfoldable pub last_index : Scenario W → Option ℕ
  last_index s = elim s.turn_results [ [] ↦ none | ct ∷ cts ↦ some (length cts) ]

  unfoldable pub shown_name : Scenario W → String
  shown_name s = if str_eq s.scenario_name "" then "(scenario)" else s.scenario_name

  unfoldable pub failure_record :
      Scenario W
      → (step_kind : String) (actual : Value) (matcher_spec : Option Spec)
        (matcher_errors : List MatchError) (error : Option Cause) (assertion_index : Option ℕ)
      → FailureRecord
  unfolding shown_name last_index last_turn_events
  failure_record s kind actual spec errors error i = record {
    scenario_name = shown_name s;
    step_index = s.executed_until;
    step_kind = kind;
    turn_index = last_index s;
    actual = actual;
    matcher_spec = spec;
    matcher_errors = errors;
    error = error;
    events = last_turn_events s;
    turn_results = s.turn_results;
    assertion_index_after_turn = i;
  }

  unfoldable pub raise_match_step :
      (step_kind : String) → MatchResult → Spec → (actual : Value) → Run W (Unit {0})
  raise_match_step kind r spec actual s = if r.ok then (completed tt, s) else (
    halted (
        assertion_failed kind (
          failure_record s kind actual (some spec) r.errors none
            (assertion_index_after_turn s kind))),
    s,
  )

  unfoldable pub raise_unless_ok :
      MatchResult → (actual : Value) (label : String) → Run W (Unit {0})
  unfolding failure_record
  raise_unless_ok r actual label s = if r.ok then (completed tt, s) else (
    halted
        (assertion_failed label (failure_record s "scenario_body" actual none r.errors none none)),
    s,
  )

  module _ (decimal : ℕ → String) where
    -- `errs` are the messages of the last turn.
    unfoldable pub raise_agent_errors : (errs : List String) → Run W (Unit {0})
    unfolding failure_record agent_headline
    raise_agent_errors [] s = (completed tt, s)
    raise_agent_errors (e ∷ es) s = (
      halted (
          assertion_failed "" (
            failure_record s "agent_error" (tuple (of_list (map str (e ∷ es)))) none []
              (some (assertion (agent_headline decimal e es))) none)),
      s,
    )

    unfoldable pub raise_if_agent_turn_errors : ConversationTurn → Run W (Unit {0})
    unfolding raise_agent_errors
    raise_if_agent_turn_errors ct = raise_agent_errors (agent_turn_error_messages ct)

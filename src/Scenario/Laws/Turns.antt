-- ===== src/Scenario/Laws/Turns.antt =====
-- The turns that a step adds, at most, and what it leaves alone.
use agent_spec_kit.Common.{
  ℕ, zero, suc, ◌-◌, refl, String, true, false, Option, none, some, List, [], ◌∷◌, Bool-cases, inl,
  inr,
}
use agent_spec_kit.Common.Outcome.{Exception, assertion_error, Outcome, returned, raised}
use agent_spec_kit.Common.Action.{Ended, completed, halted, Action, modify}
use agent_spec_kit.Match.Value.{Value, bool}
use agent_spec_kit.Match.Types.{Text, MatchResult}
use agent_spec_kit.Match.Matcher.{Matcher}
use agent_spec_kit.Match.Spec.{Spec}
use agent_spec_kit.Scenario.Events.{ConversationTurn}
use agent_spec_kit.Scenario.State.{
  Halt, assertion_failed, threw, Callable, Agent, Step, user_message, action, env_assert,
  output_assert, tool_calls_assert, forbid_tool_calls, simulate, fuzz_conversation,
}
use agent_spec_kit.Scenario.Records.{
  raise_if_agent_turn_errors, raise_match_step, raise_agent_errors,
}
use agent_spec_kit.Scenario.Segments.{
  outside, attempt, run_turn_of, run_agent_turn, append_turn, hand_over, dispatch_user_message_text,
  reply_to, take_reply, turn_of, next_turn_of, stops, simulation_loop, resumed_turn, seeded_turn,
  run_simulation_segment,
}
use agent_spec_kit.Scenario.Steps.{
  call_with_fixtures, after_env_call, run_env_assert, assert_matches, assert_on, dispatch_step,
}
use agent_spec_kit.Scenario.Laws.Frame.{
  Extends-refl, Extends-same, Adds, adds, Adds-then, Adds-one_more, Adds-per_option, Adds-and,
  Adds-if, Adds-complete, Adds-halt, Adds-gets, Adds-add_turn,
}

module _ {W : Type 0} where
  pub Adds-outside : {A : Type 0} (m : Action W Halt A) → Adds 0 (outside m)
  unfolding outside
  Adds-outside m = record { apply = λ s. Extends-same s _ refl refl refl refl refl refl }

  pub Adds-attempt : {A : Type 0} (o : Outcome A) → Adds {W = W} 0 (attempt o)
  Adds-attempt (returned a) = Adds-complete a
  Adds-attempt (raised e) = Adds-halt (threw e)

  pub Adds-run_turn_of : (a : Option (Agent W)) (text : String) → Adds 0 (run_turn_of a text)
  unfolding run_turn_of
  Adds-run_turn_of none text = Adds-halt _
  Adds-run_turn_of (some a) text = Adds-outside (a text)

  pub Adds-run_agent_turn : (actor text : String) → Adds {W = W} 0 (run_agent_turn actor text)
  unfolding run_agent_turn
  Adds-run_agent_turn actor text = search (adds, Adds-run_turn_of)

  pub Adds-raise_match_step :
      (kind : String) (r : MatchResult) (spec : Spec) (actual : Value)
      → Adds {W = W} 0 (raise_match_step kind r spec actual)
  unfolding raise_match_step
  Adds-raise_match_step kind r spec actual = record {
    apply = λ s. elim (Bool-cases r.ok) [
      | inl e ↦ rw e (Extends-refl 0 s)
      | inr e ↦ rw e (Extends-refl 0 s)
    ];
  }

  pub Adds-call_with_fixtures : (fn : Callable W) → Adds 0 (call_with_fixtures fn)
  unfolding call_with_fixtures
  Adds-call_with_fixtures fn = search (adds, Adds-attempt, Adds-outside)

  pub Adds-after_env_call :
      (message : Exception → String) (r : Ended Halt Value)
      → Adds {W = W} 0 (after_env_call message r)
  unfolding after_env_call
  Adds-after_env_call message (halted (assertion_failed prefix failed)) = record {
    apply = Extends-refl 0;
  }
  Adds-after_env_call message (halted (threw assertion_error)) = record { apply = Extends-refl 0 }
  Adds-after_env_call message (halted (threw _)) = record { apply = Extends-refl 0 }
  Adds-after_env_call message (completed (bool false)) = record { apply = Extends-refl 0 }
  Adds-after_env_call message (completed _) = record { apply = Extends-refl 0 }

  pub Adds-run_env_assert :
      (message : Exception → String) (fn : Callable W) → Adds 0 (run_env_assert message fn)
  unfolding run_env_assert
  Adds-run_env_assert message fn = search (adds, Adds-attempt, Adds-outside, Adds-after_env_call)

  pub Adds-reply_to : (target text : String) → Adds {W = W} 1 (reply_to target text)
  unfolding reply_to
  Adds-reply_to target text = search (adds, Adds-add_turn, Adds-run_turn_of) depth 9

  module _ (str_of : Value → String) (decimal : ℕ → String) where
    pub Adds-raise_agent_errors :
        (errs : List String) → Adds {W = W} 0 (raise_agent_errors decimal errs)
    unfolding raise_agent_errors
    Adds-raise_agent_errors [] = record { apply = Extends-refl 0 }
    Adds-raise_agent_errors (e ∷ es) = record { apply = Extends-refl 0 }

    pub Adds-raise_if_agent_turn_errors :
        (ct : ConversationTurn) → Adds {W = W} 0 (raise_if_agent_turn_errors decimal ct)
    unfolding raise_if_agent_turn_errors
    Adds-raise_if_agent_turn_errors ct = Adds-raise_agent_errors _

    pub Adds-hand_over : (ct : ConversationTurn) → Adds {W = W} 0 (modify (hand_over str_of ct))
    Adds-hand_over ct = record { apply = λ s. Extends-same s _ refl refl refl refl refl refl }

    pub Adds-append_turn : (ct : ConversationTurn) → Adds {W = W} 1 (append_turn str_of decimal ct)
    unfolding append_turn
    Adds-append_turn ct =
        search (Adds-and, Adds-add_turn, adds, Adds-raise_if_agent_turn_errors, Adds-hand_over)

    pub Adds-turn_of : (actor input : String) → Adds {W = W} 1 (turn_of str_of decimal actor input)
    unfolding turn_of
    Adds-turn_of actor input = search (Adds-and, Adds-append_turn, adds, Adds-run_agent_turn)

    pub Adds-next_turn_of : (actor : String) → Adds {W = W} 1 (next_turn_of str_of decimal actor)
    unfolding next_turn_of
    Adds-next_turn_of actor = search (adds, Adds-turn_of)

    pub Adds-resumed_turn : Adds {W = W} 1 (resumed_turn str_of decimal)
    unfolding resumed_turn
    Adds-resumed_turn = search (adds, Adds-attempt, Adds-next_turn_of)

    pub Adds-start : Adds {W = W} 0 (modify (λ s. record s { simulation_started = true }))
    Adds-start = record { apply = λ s. Extends-same s _ refl refl refl refl refl refl }

    pub Adds-seeded_turn :
        (actor input : Option String) → Adds {W = W} 1 (seeded_turn str_of decimal actor input)
    unfolding seeded_turn
    Adds-seeded_turn actor input = search (adds, Adds-attempt, Adds-start, Adds-turn_of)

    pub Adds-started :
        (ct : ConversationTurn)
        → Adds {W = W} 0
            (modify (λ s. record (hand_over str_of ct s) { simulation_started = true }))
    Adds-started ct = record { apply = λ s. Extends-same s _ refl refl refl refl refl refl }

    pub Adds-take_reply : (ct : ConversationTurn) → Adds {W = W} 1 (take_reply str_of decimal ct)
    unfolding take_reply
    Adds-take_reply ct =
        search (adds, Adds-add_turn, Adds-raise_if_agent_turn_errors, Adds-started) depth 9

    pub Adds-dispatch_user_message_text :
        (text : String) → Adds {W = W} 2 (dispatch_user_message_text str_of decimal text)
    unfolding dispatch_user_message_text
    Adds-dispatch_user_message_text text =
        search (adds, Adds-attempt, Adds-reply_to, Adds-take_reply) depth 9

    module _ (loads : String → Option Value) (summary : Matcher → Text) where
      pub Adds-stops :
          (condition : Option Spec) (on actor out : String)
          → Adds {W = W} 0 (stops loads summary condition on actor out)
      unfolding stops
      Adds-stops none on actor out = Adds-complete false
      Adds-stops (some condition) on actor out = search (adds, Adds-attempt)

      pub Adds-simulation_loop :
          (condition : Option Spec) (on : String) (left : ℕ)
          → Adds {W = W} left (simulation_loop str_of decimal loads summary condition on left)
      unfolding simulation_loop
      Adds-simulation_loop condition on zero = Adds-complete tt
      Adds-simulation_loop condition on (suc left) = Adds-then (Adds-gets _) (λ n.
          Adds-per_option n (Adds-complete tt) (λ actor.
            Adds-one_more (Adds-next_turn_of actor) (λ ct.
              Adds-then (Adds-stops condition on _ _) (λ stopped.
                Adds-if _ (Adds-complete tt) (Adds-simulation_loop condition on left)))))

      pub Adds-run_simulation_segment :
          (max_turns : ℕ) (condition : Option Spec) (on : String) (actor input : Option String)
          → Adds {W = W} (suc (max_turns - 1)) (
              run_simulation_segment str_of decimal loads summary max_turns condition on actor
                input)
      unfolding run_simulation_segment
      Adds-run_simulation_segment max_turns condition on actor input =
          search (adds, Adds-seeded_turn, Adds-resumed_turn, Adds-stops, Adds-simulation_loop) depth
            14 fits 4000

module _ {W : Type 0} (loads : String → Option Value) (summary : Matcher → Text) where
  pub Adds-assert_matches :
      (kind : String) (spec : Spec) (made : Outcome Spec) (actual : Value)
      → Adds {W = W} 0 (assert_matches loads summary kind spec made actual)
  unfolding assert_matches
  Adds-assert_matches kind spec made actual = search (adds, Adds-attempt, Adds-raise_match_step)

  pub Adds-assert_on :
      (kind : String) (spec : Spec) (made : Outcome Spec)
      (checked : List ConversationTurn → Outcome Value)
      → Adds {W = W} 0 (assert_on loads summary kind spec made checked)
  unfolding assert_on
  Adds-assert_on kind spec made checked = search (adds, Adds-attempt, Adds-assert_matches)

-- The turns that a step adds at most.
abbrev pub step_turns : {W : Type 0} → Step W → ℕ
step_turns (user_message text) = 2
step_turns (simulate max_turns stop on actor input) = suc (max_turns - 1)
step_turns _ = 0

module _ {W : Type 0} (str_of : Value → String) (message : Exception → String)
    (decimal : ℕ → String) (loads : String → Option Value) (summary : Matcher → Text) where
  -- A step leaves the queue, the position in it, the recording flag and the agents alone, and it only
  -- adds turns behind those that there are: two at most for a message, `max_turns` (but one if that is
  -- 0) for a simulation, and none for any other step. It does so too where it raises.
  pub dispatch_step-Adds :
      (step : Step W)
      → Adds (step_turns step) (dispatch_step str_of message decimal loads summary step)
  unfolding dispatch_step
  dispatch_step-Adds (user_message text) = Adds-dispatch_user_message_text str_of decimal text
  dispatch_step-Adds (action fn) = Adds-then (Adds-call_with_fixtures fn) (λ v. Adds-complete tt)
  dispatch_step-Adds (simulate max_turns stop on actor input) =
      Adds-run_simulation_segment str_of decimal loads summary max_turns stop on actor input
  dispatch_step-Adds (fuzz_conversation config trials turns) = Adds-halt _
  dispatch_step-Adds (env_assert fn) = Adds-run_env_assert message fn
  dispatch_step-Adds (output_assert spec turn actor) = Adds-assert_on loads summary _ _ _ _
  dispatch_step-Adds (tool_calls_assert spec in_order extras turn actor) =
      Adds-assert_on loads summary _ _ _ _
  dispatch_step-Adds (forbid_tool_calls spec in_order turn actor) =
      Adds-assert_on loads summary _ _ _ _

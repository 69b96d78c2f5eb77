-- ===== src/Scenario/Laws/Errors.antt =====
-- No turn with the error of an agent is passed over.
use agent_spec_kit.Common.{
  ℕ, zero, suc, ◌≤◌, ◌≡◌, refl, sym, ap, ◌∙◌, subst, String, Bool, true, false, Option, none, some,
  List, [], ◌∷◌, ◌++◌, str_eq, if◌then◌else◌, per_option, length, drop, All, All-append, All-map,
  append-nil, arith,
}
use agent_spec_kit.Common.Outcome.{Exception}
use agent_spec_kit.Common.Action.{Ended, completed, halted, ended_as, ◌>>=◌, modify, complete}
use agent_spec_kit.Match.Value.{Value, str}
use agent_spec_kit.Match.Types.{Text}
use agent_spec_kit.Match.Matcher.{Matcher}
use agent_spec_kit.Match.Spec.{Spec}
use agent_spec_kit.Scenario.Events.{ConversationTurn}
use agent_spec_kit.Scenario.State.{
  Halt, Step, user_message, action, env_assert, output_assert, tool_calls_assert, forbid_tool_calls,
  simulate, fuzz_conversation, Scenario, Run,
}
use agent_spec_kit.Scenario.Records.{
  agent_turn_error_messages, raise_agent_errors, raise_if_agent_turn_errors,
}
use agent_spec_kit.Scenario.Segments.{
  add_turn, hand_over, reply_to, append_turn, take_reply, dispatch_user_message_text, turn_of,
  next_turn_of, resumed_turn, seeded_turn, simulation_loop, run_simulation_segment,
}
use agent_spec_kit.Scenario.Steps.{dispatch_step, count_step, run_steps, materialise}
use agent_spec_kit.Scenario.Laws.Clean.{IsClean, agent_turn_error_messages_iff}
use agent_spec_kit.Scenario.Laws.Frame.{Extends, Adds, Adds-complete, Adds-halt, Adds-gets}
use agent_spec_kit.Scenario.Laws.Turns.{
  Adds-attempt, Adds-run_turn_of, Adds-run_agent_turn, Adds-call_with_fixtures, Adds-run_env_assert,
  Adds-hand_over, Adds-started, Adds-stops, Adds-assert_on,
}

-- The turn has no message of an agent's error.
abbrev IsSilent : ConversationTurn → Type 0
IsSilent ct = agent_turn_error_messages ct ≡ []

abbrev AllClean : {W : Type 0} → Scenario W → Type 0
AllClean s = All (λ ct. agent_turn_error_messages ct ≡ []) s.turn_results

abbrev CleanEnd : {W A : Type 0} → Ended Halt A × Scenario W → Type 0
CleanEnd (completed a, t) = AllClean t
CleanEnd (halted x, t) = Unit {0}

-- If the method completes from clean turns, the turns are clean.
record KeepsClean {W A : Type 0} (m : Run W A) : Type 0 where
  apply : (s : Scenario W) → AllClean s → CleanEnd (m s)

no_turns : (added : List ConversationTurn) → length added ≤ 0 → added ≡ []
no_turns [] h = refl
no_turns (ct ∷ cts) h = absurd (omega arith)

user_IsSilent : (ct : ConversationTurn) → str_eq ct.actor "agent" ≡ false → IsSilent ct
unfolding agent_turn_error_messages
user_IsSilent ct e = rw e refl

module _ {W : Type 0} where
  ended_as-CleanEnd :
      {A B : Type 0} (r : Ended Halt A) (t : Scenario W) (f : A → Run W B)
      → CleanEnd (r, t)
      → ((a : A) → KeepsClean (f a))
      → CleanEnd (ended_as f r t)
  ended_as-CleanEnd (completed a) t f clean rest = (rest a).apply t clean
  ended_as-CleanEnd (halted x) t f clean rest = tt

  KeepsClean-bind :
      {A B : Type 0} {p : Run W A} {f : A → Run W B}
      → KeepsClean p
      → ((a : A) → KeepsClean (f a))
      → KeepsClean (p >>= f)
  KeepsClean-bind {p} {f} first rest = record {
    apply = λ s clean. ended_as-CleanEnd (p s).0 (p s).1 f (first.apply s clean) rest;
  }

  KeepsClean-if :
      {A : Type 0} (b : Bool) {x y : Run W A}
      → KeepsClean x
      → KeepsClean y
      → KeepsClean (if b then x else y)
  KeepsClean-if true hx hy = hx
  KeepsClean-if false hx hy = hy

  CleanEnd-if :
      {A : Type 0} (b : Bool) (x y : Ended Halt A × Scenario W)
      → CleanEnd x
      → CleanEnd y
      → CleanEnd (if b then x else y)
  CleanEnd-if true x y hx hy = hx
  CleanEnd-if false x y hx hy = hy

  KeepsClean-count_step : KeepsClean {W = W} (modify count_step)
  KeepsClean-count_step = record { apply = λ s clean. clean }

  KeepsClean-per_option :
      {A B : Type 0} (o : Option A) {x : Run W B} {f : A → Run W B}
      → KeepsClean x
      → ((a : A) → KeepsClean (f a))
      → KeepsClean (per_option o x f)
  KeepsClean-per_option none hx hf = hx
  KeepsClean-per_option (some a) hx hf = hf a

  same_end :
      {A : Type 0} (s : Scenario W) (r : Ended Halt A) (t : Scenario W)
      → Extends 0 s t
      → AllClean s
      → CleanEnd (r, t)
  same_end s (completed a) t ext clean =
      subst (All IsSilent)
        (sym (
          ext.turns_kept
          ∙ ap (λ l. s.turn_results ++ l) (no_turns ext.added ext.added_le)
          ∙ append-nil s.turn_results))
        clean
  same_end s (halted x) t ext clean = tt

  -- A method that adds no turn.
  KeepsClean-Adds : {A : Type 0} {m : Run W A} → Adds 0 m → KeepsClean m
  KeepsClean-Adds {m} h = record { apply = λ s clean. same_end s (m s).0 (m s).1 (h.apply s) clean }

  KeepsClean-add_turn :
      (ct : ConversationTurn) → IsSilent ct → KeepsClean {W = W} (modify (add_turn ct))
  KeepsClean-add_turn ct h = record {
    apply = λ s clean. All-append IsSilent s.turn_results (ct ∷ []) clean (h, tt);
  }

  KeepsClean-message :
      (text : String)
      → KeepsClean {W = W} (
          modify (
            add_turn (record {
              actor = "user";
              output = str text;
              events = [];
              status = "ok";
              error = none;
            })))
  unfolding agent_turn_error_messages
  KeepsClean-message text = KeepsClean-add_turn _ refl

ruleset keeps_clean = (
  KeepsClean-bind, KeepsClean-if, KeepsClean-per_option, KeepsClean-Adds, Adds-complete, Adds-halt,
  Adds-gets,
)

module _ {W : Type 0} where
  KeepsClean-reply_to : (target text : String) → KeepsClean {W = W} (reply_to target text)
  unfolding reply_to
  KeepsClean-reply_to target text =
      search (keeps_clean, KeepsClean-message, Adds-run_turn_of) depth 9

module _ {W : Type 0} (str_of : Value → String) (decimal : ℕ → String) where
  after_errors :
      (ct : ConversationTurn) (s : Scenario W) (errs : List String)
      → agent_turn_error_messages ct ≡ errs
      → AllClean s
      → CleanEnd (raise_agent_errors decimal errs (add_turn ct s))
  unfolding raise_agent_errors
  after_errors ct s [] e clean = All-append IsSilent s.turn_results (ct ∷ []) clean (e, tt)
  after_errors ct s (m ∷ ms) e clean = tt

  -- The check of a turn that has just been added.
  after_check :
      (ct : ConversationTurn) (s : Scenario W) (b : Bool)
      → str_eq ct.actor "agent" ≡ b
      → AllClean s
      → CleanEnd
          ((if b then raise_if_agent_turn_errors decimal ct else complete tt) (add_turn ct s))
  unfolding raise_if_agent_turn_errors
  after_check ct s true e clean = after_errors ct s (agent_turn_error_messages ct) refl clean
  after_check ct s false e clean =
      All-append IsSilent s.turn_results (ct ∷ []) clean (user_IsSilent ct e, tt)

  -- What follows the turn, where its check passes, keeps the turns clean too.
  after_turn :
      (ct : ConversationTurn) (f : Unit {0} → Run W (Unit {0}))
      → ((u : Unit {0}) → KeepsClean (f u))
      → KeepsClean (λ s.
        ((if str_eq ct.actor "agent" then raise_if_agent_turn_errors decimal ct else complete tt)
            >>= f)
          (add_turn ct s))
  after_turn ct f rest = record {
    apply = λ s clean.
        let checked : Ended Halt (Unit {0}) × Scenario W =
          (if str_eq ct.actor "agent" then raise_if_agent_turn_errors decimal ct else complete tt)
            (add_turn ct s) in
        ended_as-CleanEnd checked.0 checked.1 f
          (after_check ct s (str_eq ct.actor "agent") refl clean) rest;
  }

  KeepsClean-append_turn :
      (ct : ConversationTurn) → KeepsClean {W = W} (append_turn str_of decimal ct)
  unfolding append_turn
  KeepsClean-append_turn ct =
      after_turn ct (λ _. modify (hand_over str_of ct))
        (λ _. KeepsClean-Adds (Adds-hand_over str_of decimal ct))

  KeepsClean-take_reply :
      (ct : ConversationTurn) → KeepsClean {W = W} (take_reply str_of decimal ct)
  unfolding take_reply
  KeepsClean-take_reply ct =
      after_turn ct
        (λ _. modify (λ s. record (hand_over str_of ct s) { simulation_started = true }))
        (λ _. KeepsClean-Adds (Adds-started str_of decimal ct))

  KeepsClean-turn_of :
      (actor input : String) → KeepsClean {W = W} (turn_of str_of decimal actor input)
  unfolding turn_of
  KeepsClean-turn_of actor input =
      search (keeps_clean, KeepsClean-append_turn, Adds-run_agent_turn) depth 9

  KeepsClean-next_turn_of :
      (actor : String) → KeepsClean {W = W} (next_turn_of str_of decimal actor)
  unfolding next_turn_of
  KeepsClean-next_turn_of actor = search (keeps_clean, KeepsClean-turn_of) depth 9

  KeepsClean-resumed_turn : KeepsClean {W = W} (resumed_turn str_of decimal)
  unfolding resumed_turn
  KeepsClean-resumed_turn = search (keeps_clean, Adds-attempt, KeepsClean-next_turn_of) depth 9

  KeepsClean-start : KeepsClean {W = W} (modify (λ s. record s { simulation_started = true }))
  KeepsClean-start = record { apply = λ s clean. clean }

  KeepsClean-seeded_turn :
      (actor input : Option String) → KeepsClean {W = W} (seeded_turn str_of decimal actor input)
  unfolding seeded_turn
  KeepsClean-seeded_turn actor input =
      search (keeps_clean, Adds-attempt, KeepsClean-start, KeepsClean-turn_of) depth 9

  KeepsClean-dispatch_user_message_text :
      (text : String) → KeepsClean {W = W} (dispatch_user_message_text str_of decimal text)
  unfolding dispatch_user_message_text
  KeepsClean-dispatch_user_message_text text =
      search (keeps_clean, Adds-attempt, KeepsClean-reply_to, KeepsClean-take_reply) depth 9

  module _ (loads : String → Option Value) (summary : Matcher → Text) where
    KeepsClean-simulation_loop :
        (condition : Option Spec) (on : String) (left : ℕ)
        → KeepsClean {W = W} (simulation_loop str_of decimal loads summary condition on left)
    unfolding simulation_loop
    KeepsClean-simulation_loop condition on zero = KeepsClean-Adds (Adds-complete tt)
    KeepsClean-simulation_loop condition on (suc left) =
        KeepsClean-bind (KeepsClean-Adds (Adds-gets _)) (λ n.
          KeepsClean-per_option n (KeepsClean-Adds (Adds-complete tt)) (λ actor.
            KeepsClean-bind (KeepsClean-next_turn_of actor) (λ ct.
              KeepsClean-bind
                (KeepsClean-Adds (Adds-stops str_of decimal loads summary condition on _ _))
                (λ stopped.
                  KeepsClean-if _ (KeepsClean-Adds (Adds-complete tt))
                    (KeepsClean-simulation_loop condition on left)))))

    KeepsClean-run_simulation_segment :
        (max_turns : ℕ) (condition : Option Spec) (on : String) (actor input : Option String)
        → KeepsClean {W = W}
            (run_simulation_segment str_of decimal loads summary max_turns condition on actor input)
    unfolding run_simulation_segment
    KeepsClean-run_simulation_segment max_turns condition on actor input =
        search
          (
            keeps_clean, KeepsClean-seeded_turn, KeepsClean-resumed_turn, Adds-stops,
            KeepsClean-simulation_loop,
          )
          depth 14 fits 4000

module _ {W : Type 0} (str_of : Value → String) (message : Exception → String)
    (decimal : ℕ → String) (loads : String → Option Value) (summary : Matcher → Text) where
  KeepsClean-dispatch_step :
      (step : Step W) → KeepsClean (dispatch_step str_of message decimal loads summary step)
  unfolding dispatch_step
  KeepsClean-dispatch_step (user_message text) =
      KeepsClean-dispatch_user_message_text str_of decimal text
  KeepsClean-dispatch_step (simulate max_turns stop on actor input) =
      KeepsClean-run_simulation_segment str_of decimal loads summary max_turns stop on actor input
  KeepsClean-dispatch_step (action fn) =
      KeepsClean-bind (KeepsClean-Adds (Adds-call_with_fixtures fn))
        (λ v. KeepsClean-Adds (Adds-complete tt))
  KeepsClean-dispatch_step (fuzz_conversation config trials turns) = KeepsClean-Adds (Adds-halt _)
  KeepsClean-dispatch_step (env_assert fn) = KeepsClean-Adds (Adds-run_env_assert message fn)
  KeepsClean-dispatch_step (output_assert spec turn actor) =
      KeepsClean-Adds (Adds-assert_on loads summary _ _ _ _)
  KeepsClean-dispatch_step (tool_calls_assert spec in_order extras turn actor) =
      KeepsClean-Adds (Adds-assert_on loads summary _ _ _ _)
  KeepsClean-dispatch_step (forbid_tool_calls spec in_order turn actor) =
      KeepsClean-Adds (Adds-assert_on loads summary _ _ _ _)

  KeepsClean-run_steps :
      (steps : List (Step W)) → KeepsClean (run_steps str_of message decimal loads summary steps)
  unfolding run_steps
  KeepsClean-run_steps [] = KeepsClean-Adds (Adds-complete tt)
  KeepsClean-run_steps (step ∷ steps) =
      KeepsClean-bind (KeepsClean-dispatch_step step)
        (λ _. KeepsClean-bind KeepsClean-count_step (λ _. KeepsClean-run_steps steps))

  -- If `materialise` completes and no turn of an agent from before failed or has an event that did,
  -- then none has after it: a turn failed if it has an error, or the status "error" and not even an
  -- empty error; an event did if it is a tool call or an agent's turn with an error, at any depth.
  pub materialise-IsClean :
      (s t : Scenario W)
      → All IsClean s.turn_results
      → materialise str_of message decimal loads summary s ≡ (completed tt, t)
      → All IsClean t.turn_results
  unfolding materialise
  materialise-IsClean s t free e =
      let clean : AllClean s =
        All-map IsClean IsSilent (λ ct. (agent_turn_error_messages_iff ct).1) s.turn_results free in
      let end : CleanEnd (materialise str_of message decimal loads summary s) =
        CleanEnd-if s.recording _ _ clean
          ((KeepsClean-run_steps (drop s.executed_until s.steps)).apply s clean) in
      All-map IsSilent IsClean (λ ct. (agent_turn_error_messages_iff ct).0) t.turn_results
        (subst CleanEnd e end)

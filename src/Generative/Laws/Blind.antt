-- ===== src/Generative/Laws/Blind.antt =====
-- A step that completes does the same in a scenario with another queue and another position in it.
use agent_spec_kit.Common.{
  ℕ, ◌≡◌, refl, ap, ◌∙◌, String, Bool, true, false, Option, none, some, List, [], ◌∷◌,
  if◌then◌else◌,
}
use agent_spec_kit.Common.Outcome.{Exception, assertion_error, Outcome, returned, raised}
use agent_spec_kit.Common.Action.{
  Ended, completed, halted, Action, ended_as, ◌>>=◌, complete, halt, gets, modify, handled,
}
use agent_spec_kit.Match.Value.{Value, bool}
use agent_spec_kit.Match.Types.{Text, MatchResult}
use agent_spec_kit.Match.Matcher.{Matcher}
use agent_spec_kit.Match.Spec.{Spec}
use agent_spec_kit.Scenario.Events.{ConversationTurn}
use agent_spec_kit.Scenario.State.{
  Halt, assertion_failed, threw, Callable, Agent, Step, user_message, action, env_assert,
  output_assert, tool_calls_assert, forbid_tool_calls, simulate, fuzz_conversation, Scenario, Run,
}
use agent_spec_kit.Scenario.Records.{
  raise_agent_errors, raise_if_agent_turn_errors, raise_match_step,
}
use agent_spec_kit.Scenario.Segments.{
  outside, attempt, add_turn, run_turn_of, route_user_message, reply_to, take_reply, hand_over,
  dispatch_user_message_text, other_actor, other_actor_exists,
}
use agent_spec_kit.Scenario.Steps.{
  call_with_fixtures, after_env_call, run_env_assert, assert_matches, assert_on, dispatch_step,
}

abbrev pub at : {W : Type 0} → List (Step W) → ℕ → Scenario W → Scenario W
at steps position s = record s { steps = steps; executed_until = position }

-- Where the method completes, it completes with the same value under any queue and position, and
-- leaves these alone.
pub record Blind {W A : Type 0} (m : Run W A) : Type 0 where
  pub apply :
      (l : List (Step W)) (p : ℕ) (s : Scenario W) (a : A) (t : Scenario W)
      → m s ≡ (completed a, t)
      → m (record s { steps = l; executed_until = p })
        ≡ (completed a, record t { steps = l; executed_until = p })

module _ {W : Type 0} where
  abbrev moved :
      {A : Type 0} → List (Step W) → ℕ → Ended Halt A × Scenario W → Ended Halt A × Scenario W
  moved l p r = (r.0, at l p r.1)

  -- A method that never looks at the queue.
  Blind-moved :
      {A : Type 0} {m : Run W A}
      → ((l : List (Step W)) (p : ℕ) (s : Scenario W) → m (at l p s) ≡ moved l p (m s))
      → Blind m
  Blind-moved h = record { apply = λ l p s a t e. h l p s ∙ ap (moved l p) e }

  after_first :
      {A B : Type 0} (m : Run W A) (f : A → Run W B) (l : List (Step W)) (p : ℕ) (s : Scenario W)
      (r : Ended Halt A) (t : Scenario W) (b : B) (u : Scenario W)
      → Blind m
      → ((a : A) → Blind (f a))
      → m s ≡ (r, t)
      → ended_as f r t ≡ (completed b, u)
      → (m >>= f) (at l p s) ≡ (completed b, at l p u)
  after_first m f l p s (completed a) t b u first rest e e' =
      ap (λ (r : Ended Halt _ × Scenario W). ended_as f r.0 r.1) (first.apply l p s a t e)
      ∙ (rest a).apply l p t b u e'
  after_first m f l p s (halted x) t b u first rest e e' = absurd (cc e')

  Blind-bind :
      {A B : Type 0} {m : Run W A} {f : A → Run W B}
      → Blind m
      → ((a : A) → Blind (f a))
      → Blind (m >>= f)
  Blind-bind {m} {f} first rest = record {
    apply = λ l p s b u e. after_first m f l p s (m s).0 (m s).1 b u first rest refl e;
  }

  Blind-if :
      {A : Type 0} (b : Bool) {x y : Run W A} → Blind x → Blind y → Blind (if b then x else y)
  Blind-if true hx hy = hx
  Blind-if false hx hy = hy

  Blind-complete : {A : Type 0} (a : A) → Blind {W = W} (complete a)
  Blind-complete a = Blind-moved (λ l p s. refl)

  Blind-halt : {A : Type 0} (x : Halt) → Blind {W = W} {A = A} (halt x)
  Blind-halt x = Blind-moved (λ l p s. refl)

  Blind-attempt : {A : Type 0} (o : Outcome A) → Blind {W = W} (attempt o)
  Blind-attempt (returned a) = Blind-complete a
  Blind-attempt (raised e) = Blind-halt (threw e)

  Blind-outside : {A : Type 0} (m : Action W Halt A) → Blind (outside m)
  unfolding outside
  Blind-outside m = Blind-moved (λ l p s. refl)

  Blind-route : Blind {W = W} (gets route_user_message)
  unfolding route_user_message
  Blind-route = Blind-moved (λ l p s. refl)

  Blind-agent : Blind {W = W} (gets (λ s. s.adapted_agent))
  Blind-agent = Blind-moved (λ l p s. refl)

  Blind-user : Blind {W = W} (gets (λ s. s.user))
  Blind-user = Blind-moved (λ l p s. refl)

  Blind-turns : Blind {W = W} (gets (λ s. s.turn_results))
  Blind-turns = Blind-moved (λ l p s. refl)

  Blind-fixtures : Blind {W = W} (gets (λ s. s.fixture_values))
  Blind-fixtures = Blind-moved (λ l p s. refl)

  Blind-add_turn : (ct : ConversationTurn) → Blind {W = W} (modify (add_turn ct))
  Blind-add_turn ct = Blind-moved (λ l p s. refl)

  Blind-run_turn_of : (a : Option (Agent W)) (text : String) → Blind (run_turn_of a text)
  unfolding run_turn_of
  Blind-run_turn_of none text = Blind-halt _
  Blind-run_turn_of (some a) text = Blind-outside (a text)

ruleset blind = (
  Blind-bind, Blind-if, Blind-complete, Blind-halt, Blind-attempt, Blind-outside, Blind-route,
  Blind-agent, Blind-user, Blind-turns, Blind-fixtures, Blind-add_turn, Blind-run_turn_of,
)

module _ {W : Type 0} where
  Blind-reply_to : (target text : String) → Blind {W = W} (reply_to target text)
  unfolding reply_to
  Blind-reply_to target text = search blind depth 9

  Blind-call_with_fixtures : (fn : Callable W) → Blind (call_with_fixtures fn)
  unfolding call_with_fixtures
  Blind-call_with_fixtures fn = search blind depth 9

  Blind-after_env_call :
      (message : Exception → String) (r : Ended Halt Value)
      → Blind {W = W} (after_env_call message r)
  unfolding after_env_call
  Blind-after_env_call message (halted (assertion_failed prefix failed)) =
      Blind-moved (λ l p s. refl)
  Blind-after_env_call message (halted (threw assertion_error)) = record {
    apply = λ l p s a t e. absurd (cc e);
  }
  Blind-after_env_call message (halted (threw _)) = record { apply = λ l p s a t e. absurd (cc e) }
  Blind-after_env_call message (completed (bool false)) = record {
    apply = λ l p s a t e. absurd (cc e);
  }
  Blind-after_env_call message (completed _) = Blind-moved (λ l p s. refl)

  Blind-handled :
      {A B : Type 0} (m : Action W Halt A) {h : Ended Halt A → Run W B}
      → ((r : Ended Halt A) → Blind (h r))
      → Blind (handled (outside m) h)
  unfolding outside
  Blind-handled m rest = record {
    apply =
        λ l p s a t e. (rest (m s.world).0).apply l p (record s { world = (m s.world).1 }) a t e;
  }

  Blind-run_env_assert :
      (message : Exception → String) (fn : Callable W) → Blind (run_env_assert message fn)
  unfolding run_env_assert
  Blind-run_env_assert message fn = search (blind, Blind-handled, Blind-after_env_call) depth 9

  completes_only :
      (b : Bool) (x x' : Halt) (l : List (Step W)) (p : ℕ) (s : Scenario W) (a : Unit {0})
      (t : Scenario W)
      → ◌≡◌ {A = Ended Halt (Unit {0}) × Scenario W}
          (if b then (completed tt, s) else (halted x, s))
          (completed a, t)
      → ◌≡◌ {A = Ended Halt (Unit {0}) × Scenario W}
          (if b then (completed tt, at l p s) else (halted x', at l p s))
          (completed a, at l p t)
  completes_only true x x' l p s a t e = ap (moved l p) e
  completes_only false x x' l p s a t e = absurd (cc e)

  Blind-raise_match_step :
      (kind : String) (r : MatchResult) (spec : Spec) (v : Value)
      → Blind {W = W} (raise_match_step kind r spec v)
  unfolding raise_match_step
  Blind-raise_match_step kind r spec v = record {
    apply = λ l p s a t e. completes_only r.ok _ _ l p s a t e;
  }

  Blind-assert_matches :
      (loads : String → Option Value) (summary : Matcher → Text) (kind : String) (spec : Spec)
      (made : Outcome Spec) (v : Value)
      → Blind {W = W} (assert_matches loads summary kind spec made v)
  unfolding assert_matches
  Blind-assert_matches loads summary kind spec made v =
      search (blind, Blind-raise_match_step) depth 9

  Blind-assert_on :
      (loads : String → Option Value) (summary : Matcher → Text) (kind : String) (spec : Spec)
      (made : Outcome Spec) (checked : List ConversationTurn → Outcome Value)
      → Blind {W = W} (assert_on loads summary kind spec made checked)
  unfolding assert_on
  Blind-assert_on loads summary kind spec made checked =
      search (blind, Blind-assert_matches) depth 9

  -- The steps that a replay leaves as they are.
  abbrev pub IsKept : Step W → Type 0
  IsKept (fuzz_conversation config trials turns) = ⊥
  IsKept (simulate max_turns stop on actor input) = ⊥
  IsKept _ = Unit

  module _ (str_of : Value → String) (decimal : ℕ → String) where
    Blind-raise_agent_errors :
        (errs : List String) → Blind {W = W} (raise_agent_errors decimal errs)
    unfolding raise_agent_errors
    Blind-raise_agent_errors [] = Blind-moved (λ l p s. refl)
    Blind-raise_agent_errors (e ∷ es) = record { apply = λ l p s a t eq. absurd (cc eq) }

    Blind-raise_if_agent_turn_errors :
        (ct : ConversationTurn) → Blind {W = W} (raise_if_agent_turn_errors decimal ct)
    unfolding raise_if_agent_turn_errors
    Blind-raise_if_agent_turn_errors ct = Blind-raise_agent_errors _

    Blind-started :
        (ct : ConversationTurn)
        → Blind {W = W} (modify (λ s. record (hand_over str_of ct s) { simulation_started = true }))
    unfolding other_actor other_actor_exists
    Blind-started ct = Blind-moved (λ l p s. refl)

    Blind-take_reply : (ct : ConversationTurn) → Blind {W = W} (take_reply str_of decimal ct)
    unfolding take_reply
    Blind-take_reply ct = search (blind, Blind-raise_if_agent_turn_errors, Blind-started) depth 9

    pub Blind-dispatch_user_message_text :
        (text : String) → Blind {W = W} (dispatch_user_message_text str_of decimal text)
    unfolding dispatch_user_message_text
    Blind-dispatch_user_message_text text = search (blind, Blind-reply_to, Blind-take_reply) depth 9

    pub Blind-dispatch_step :
        (message : Exception → String) (loads : String → Option Value) (summary : Matcher → Text)
        (step : Step W)
        → IsKept step
        → Blind (dispatch_step str_of message decimal loads summary step)
    unfolding dispatch_step
    Blind-dispatch_step message loads summary (user_message text) k =
        Blind-dispatch_user_message_text text
    Blind-dispatch_step message loads summary (action fn) k =
        Blind-bind (Blind-call_with_fixtures fn) (λ v. Blind-complete tt)
    Blind-dispatch_step message loads summary (env_assert fn) k = Blind-run_env_assert message fn
    Blind-dispatch_step message loads summary (output_assert spec turn actor) k =
        Blind-assert_on loads summary _ _ _ _
    Blind-dispatch_step message loads summary (tool_calls_assert spec in_order extras turn actor)
          k =
        Blind-assert_on loads summary _ _ _ _
    Blind-dispatch_step message loads summary (forbid_tool_calls spec in_order turn actor) k =
        Blind-assert_on loads summary _ _ _ _
    Blind-dispatch_step message loads summary (simulate max_turns stop on actor input) k = absurd k
    Blind-dispatch_step message loads summary (fuzz_conversation config trials turns) k = absurd k

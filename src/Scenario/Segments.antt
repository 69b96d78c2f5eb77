-- ===== src/Scenario/Segments.antt =====
-- scenario_core.py: a turn of an agent, a segment of simulated conversation and a user's message.
-- `str_of` is `str` of a value that is no text, `decimal` how an f-string prints a number.
use agent_spec_kit.Common.{
  ℕ, zero, suc, ◌-◌, String, Bool, true, false, not, ◌&&◌, ◌||◌, Option, none, some, [], ◌∷◌, ◌++◌,
  str_eq, if◌then◌else◌, per_option,
}
use agent_spec_kit.Common.Outcome.{
  type_error, value_error, runtime_error, Outcome, returned, raised,
}
use agent_spec_kit.Common.Action.{
  completed, halted, Action, ◌>>=◌, ◌>>◌, complete, halt, gets, modify,
}
use agent_spec_kit.Match.Value.{Value, null, str}
use agent_spec_kit.Match.Types.{Text}
use agent_spec_kit.Match.Matcher.{Matcher}
use agent_spec_kit.Match.Spec.{Spec, match_async_check}
use agent_spec_kit.Scenario.Events.{TurnResult, ConversationTurn, from_turn}
use agent_spec_kit.Scenario.State.{Halt, threw, Agent, Scenario, Run}
use agent_spec_kit.Scenario.Records.{raise_if_agent_turn_errors}

module _ {W : Type 0} where
  -- What another object does, to the state that it reaches.
  unfoldable pub outside : {A : Type 0} → Action W Halt A → Run W A
  outside m s = ((m s.world).0, record s { world = (m s.world).1 })

  abbrev pub attempt : {A : Type 0} → Outcome A → Run W A
  attempt (returned a) s = (completed a, s)
  attempt (raised e) s = (halted (threw e), s)

  unfoldable pub other_actor_exists : Scenario W → Bool
  other_actor_exists s = elim s.adapted_agent [
    | none ↦ false
    | some a ↦ elim s.user [ none ↦ false | some u ↦ true ]
  ]

  unfoldable pub other_actor : Scenario W → String → String
  unfolding other_actor_exists
  other_actor s actor =
      if other_actor_exists s then (if str_eq actor "agent" then "user" else "agent") else actor

  -- `self.agent.run_turn(...)`, where the agent may be missing.
  unfoldable pub run_turn_of : Option (Agent W) → String → Run W TurnResult
  unfolding outside
  run_turn_of none text = halt (threw type_error)
  run_turn_of (some a) text = outside (a text)

  unfoldable pub run_agent_turn : (actor user_message : String) → Run W ConversationTurn
  run_agent_turn actor text =
      if str_eq actor "agent"
      then (do
        a ← gets (λ s. s.adapted_agent)
        tr ← run_turn_of a text
        complete (from_turn actor tr))
      else if str_eq actor "user"
      then (do u ← gets (λ s. s.user); tr ← run_turn_of u text; complete (from_turn actor tr))
      else halt (threw value_error)

  -- The target of a message: "agent" wherever there is one.
  unfoldable pub route_user_message : Scenario W → Outcome String
  route_user_message s =
      per_option s.adapted_agent (per_option s.user (raised type_error) (λ u. returned "user"))
        (λ a. returned "agent")

  -- The checks of the seed's actor before its turn.
  unfoldable pub check_seed : (actor : String) → Scenario W → Outcome (Unit {0})
  check_seed actor s =
      if str_eq actor "agent"
      then per_option s.adapted_agent (raised type_error) (λ a. returned tt)
      else if str_eq actor "user"
      then per_option s.user (raised type_error) (λ u. returned tt)
      else raised value_error

  -- `not self._simulation_started and not self._turn_results`
  unfoldable pub is_first : Scenario W → Bool
  is_first s = not s.simulation_started && elim s.turn_results [ [] ↦ true | ct ∷ cts ↦ false ]

  abbrev pub add_turn : ConversationTurn → Scenario W → Scenario W
  add_turn ct s = record s { turn_results = s.turn_results ++ ct ∷ [] }

abbrev pub should_check_stop : (stop_on_actor actor : String) → Bool
should_check_stop on actor = str_eq on "any" || str_eq actor on

-- The next actor, which a segment that goes on needs.
unfoldable pub known : Option String → Outcome String
known none = raised runtime_error
known (some actor) = returned actor

-- The actor and the input of the seeds.
unfoldable pub given_seeds : (seed_actor seed_input : Option String) → Outcome (String × String)
given_seeds (some actor) (some input) = returned (actor, input)
given_seeds actor input = raised type_error

module _ (str_of : Value → String) where
  -- The output as the next input: nothing is the empty text.
  unfoldable pub output_text : Value → String
  output_text null = ""
  output_text (str t) = t
  output_text v = str_of v

  -- The output of a segment's first turn, as its stop condition reads it.
  unfoldable pub first_stop_text : Value → String
  first_stop_text (str t) = t
  first_stop_text v = str_of v

module _ {W : Type 0} where
  -- The answer of the target. The message to an agent is a turn of the user.
  unfoldable pub reply_to : (target text : String) → Run W TurnResult
  reply_to target text =
      if str_eq target "agent"
      then (do
        a ← gets (λ s. s.adapted_agent)
        modify (
            add_turn (record {
              actor = "user";
              output = str text;
              events = [];
              status = "ok";
              error = none;
            }))
        run_turn_of a text)
      else (do u ← gets (λ s. s.user); run_turn_of u text)

module _ {W : Type 0} (loads : String → Option Value) (summary : Matcher → Text) where
  -- Whether the stop condition, where there is one and the actor counts, holds of the text.
  unfoldable pub stops : Option Spec → (stop_on_actor actor out : String) → Run W Bool
  stops none on actor out = complete false
  stops (some condition) on actor out =
      if should_check_stop on actor
      then (do r ← attempt (match_async_check loads summary condition (str out)); complete r.ok)
      else complete false

module _ {W : Type 0} (str_of : Value → String) where
  abbrev pub hand_over : ConversationTurn → Scenario W → Scenario W
  hand_over ct s = record s {
    next_input = output_text str_of ct.output;
    next_actor = some (if other_actor_exists s then other_actor s ct.actor else ct.actor);
  }

module _ {W : Type 0} (str_of : Value → String) (decimal : ℕ → String) where
  unfoldable pub append_turn : ConversationTurn → Run W (Unit {0})
  append_turn ct = do
    modify (add_turn ct)
    if str_eq ct.actor "agent" then raise_if_agent_turn_errors decimal ct else complete tt
    modify (hand_over str_of ct)

  unfoldable pub take_reply : ConversationTurn → Run W (Unit {0})
  take_reply ct = do
    modify (add_turn ct)
    if str_eq ct.actor "agent" then raise_if_agent_turn_errors decimal ct else complete tt
    modify (λ s. record (hand_over str_of ct s) { simulation_started = true })

  unfoldable pub dispatch_user_message_text : String → Run W (Unit {0})
  dispatch_user_message_text text = do
    routed ← gets route_user_message
    target ← attempt routed
    tr ← reply_to target text
    take_reply (from_turn target tr)

  unfoldable pub turn_of : (actor input : String) → Run W ConversationTurn
  turn_of actor input = do ct ← run_agent_turn actor input; append_turn ct; complete ct

  -- A turn of the actor that is next.
  unfoldable pub next_turn_of : (actor : String) → Run W ConversationTurn
  next_turn_of actor = do input ← gets (λ s. s.next_input); turn_of actor input

  -- The first turn of a segment that goes on with a conversation.
  unfoldable pub resumed_turn : Run W ConversationTurn
  resumed_turn = do n ← gets (λ s. s.next_actor); actor ← attempt (known n); next_turn_of actor

  unfoldable pub seeded_turn : (seed_actor seed_input : Option String) → Run W ConversationTurn
  seeded_turn seed_actor seed_input = do
    seeds ← attempt (given_seeds seed_actor seed_input)
    modify (λ s. record s { simulation_started = true })
    checked ← gets (check_seed seeds.0)
    attempt checked
    turn_of seeds.0 seeds.1

  module _ (loads : String → Option Value) (summary : Matcher → Text) where
    -- The `while` loop, with the turns that are left of `max_turns`.
    unfoldable pub simulation_loop :
        (stop_condition : Option Spec) (stop_on_actor : String) (left : ℕ) → Run W (Unit {0})
    simulation_loop stop on zero = complete tt
    simulation_loop stop on (suc left) = do
      n ← gets (λ s. s.next_actor)
      per_option n (complete tt) (λ actor. do
        ct ← next_turn_of actor
        stopped ← stops loads summary stop on ct.actor (output_text str_of ct.output)
        if stopped || not (str_eq ct.status "ok")
            then complete tt
            else simulation_loop stop on left)

    unfoldable pub run_simulation_segment :
        (max_turns : ℕ) (stop_condition : Option Spec) (stop_on_actor : String)
        (seed_actor seed_input : Option String)
        → Run W (Unit {0})
    run_simulation_segment max_turns stop on seed_actor seed_input = do
      first ← gets is_first
      ct ← if first then seeded_turn seed_actor seed_input else resumed_turn
      if not (str_eq ct.status "ok") then complete tt else do
        stopped ← stops loads summary stop on ct.actor (first_stop_text str_of ct.output)
        if stopped then complete tt else simulation_loop stop on (max_turns - 1)

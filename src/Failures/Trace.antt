-- ===== src/Failures/Trace.antt =====
-- failures.py: the turns and the events that a failure report shows.
use agent_spec_kit.Common.{
  ℕ, zero, suc, ◌-◌, Bool, false, Option, none, some, List, [], ◌∷◌, ◌++◌, str_eq, if◌then◌else◌,
  length, drop, get_elem?,
}
use agent_spec_kit.Match.Value.{null, end}
use agent_spec_kit.Scenario.Events.{
  Event, agent_turn, user_turn, Events, no_events, and_event, to_events, ConversationTurn,
}

-- The indices of the turns of the agent, from index `i` on.
unfoldable pub agent_idx : (i : ℕ) → List ConversationTurn → List ℕ
agent_idx i [] = []
agent_idx i (t ∷ ts) =
    let rest = agent_idx (suc i) ts in if str_eq t.actor "agent" then i ∷ rest else rest

-- `xs[-n:]`, which is all of `xs` if `n` is 0.
unfoldable pub last_n : {A : Type 0} → ℕ → List A → List A
last_n zero xs = xs
last_n (suc n) xs = drop (length xs - suc n) xs

unfoldable pub is_user : Option ConversationTurn → Bool
is_user none = false
is_user (some t) = str_eq t.actor "user"

-- The `while` loop, with `i_lo`.
unfoldable pub back_over_user : List ConversationTurn → (i_lo : ℕ) → ℕ
unfolding is_user
back_over_user turns zero = zero
back_over_user turns (suc i) =
    let further = back_over_user turns i in if is_user (get_elem? turns i) then further else suc i

-- The turns from the first of the indices on, which ascend, and the user's before it.
unfoldable pub from_first : List ConversationTurn → List ℕ → List ConversationTurn
unfolding back_over_user
from_first turns [] = turns
from_first turns (i ∷ is) = drop (back_over_user turns i) turns

unfoldable pub window_conversation_for_trace :
    List ConversationTurn → (max_agent_turns : ℕ) → List ConversationTurn
unfolding from_first agent_idx last_n
window_conversation_for_trace turns n = from_first turns (last_n n (agent_idx 0 turns))

unfoldable mutual
  pub flatten_root_agent_shells : Events → List Event
  flatten_root_agent_shells no_events = []
  flatten_root_agent_shells (and_event n ns) = flatten_node n ++ flatten_root_agent_shells ns

  pub flatten_node : Event → List Event
  flatten_node (agent_turn input output error [] metadata children) =
      flatten_root_agent_shells children
  flatten_node n = n ∷ []

unfoldable pub children_for_user_turn_trace : List Event → List Event
unfolding flatten_root_agent_shells
children_for_user_turn_trace (agent_turn input output error [] metadata children ∷ []) =
    flatten_root_agent_shells children
children_for_user_turn_trace events = events

-- The roots for a turn of another than the user.
unfoldable pub agent_roots : ConversationTurn → List Event → List Event
agent_roots turn [] = agent_turn null turn.output turn.error [] end no_events ∷ []
agent_roots turn (e ∷ es) = e ∷ es

unfoldable pub turn_roots : ConversationTurn → List Event
unfolding children_for_user_turn_trace agent_roots
turn_roots turn =
    if str_eq turn.actor "user"
    then user_turn turn.output turn.error end (to_events (children_for_user_turn_trace turn.events))
      ∷ []
    else agent_roots turn turn.events

unfoldable pub roots_of : List ConversationTurn → List Event
unfolding turn_roots
roots_of [] = []
roots_of (t ∷ ts) = turn_roots t ++ roots_of ts

unfoldable pub conversation_turns_to_event_trace :
    List ConversationTurn → (max_agent_turns : ℕ) → List Event
unfolding roots_of window_conversation_for_trace
conversation_turns_to_event_trace turns n = roots_of (window_conversation_for_trace turns n)

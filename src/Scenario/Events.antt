-- ===== src/Scenario/Events.antt =====
-- events.py and run.py: the events of a turn, and turns. The ids of events are left out: nothing
-- here reads them.
use Prim.Native.String.{◌++◌ as str_append}
use agent_spec_kit.Common.{String, Option, none, some, List, [], ◌∷◌, ◌++◌, str_eq, if◌then◌else◌}
use agent_spec_kit.Match.Value.{Value, Fields}

mutual
  pub data Event : Type 0 where
    tool_call :
        (tool_name : String) (args result : Value) (error : Option String) (metadata : Fields)
        (children : Events)
        → Event
    agent_turn :
        (user_input agent_output : Value) (error : Option String) (source_path : List String)
        (metadata : Fields) (children : Events)
        → Event
    user_turn :
        (content : Value) (error : Option String) (metadata : Fields) (children : Events) → Event

  pub data Events : Type 0 where
    no_events : Events
    and_event : Event → Events → Events

abbrev pub to_events : List Event → Events
to_events [] = no_events
to_events (e ∷ es) = and_event e (to_events es)

abbrev pub event_list : Events → List Event
event_list no_events = []
event_list (and_event e es) = e ∷ event_list es

-- `", ".join(...)` and the like.
unfoldable pub join : String → List String → String
join sep [] = ""
join sep (s ∷ []) = s
join sep (s ∷ t ∷ ss) = str_append s (str_append sep (join sep (t ∷ ss)))

-- `if node.error`: an empty text counts as none.
unfoldable pub non_empty : Option String → Option String
non_empty none = none
non_empty (some s) = if str_eq s "" then none else some s

unfoldable pub labelled : String → Option String → List String
unfolding non_empty
labelled label error = elim (non_empty error) [
  | none ↦ []
  | some e ↦ (if str_eq label "" then e else str_append label (str_append ": " e)) ∷ []
]

unfoldable mutual
  -- `collect_event_errors` of one root, with tools: depth first.
  unfolding labelled join

  pub collect_event_errors : Event → List String
  collect_event_errors (tool_call name args result error metadata children) =
      labelled (if str_eq name "" then "tool" else name) error ++ collect_each children
  collect_event_errors (agent_turn input output error path metadata children) =
      labelled (join "." path) error ++ collect_each children
  collect_event_errors (user_turn content error metadata children) = collect_each children

  pub collect_each : Events → List String
  collect_each no_events = []
  collect_each (and_event e es) = collect_event_errors e ++ collect_each es

pub record TurnResult : Type 0 where
  pub output : Value
  pub events : List Event
  pub status : String
  pub error : Option String

pub record ConversationTurn : Type 0 where
  pub actor : String
  pub output : Value
  pub events : List Event
  pub status : String
  pub error : Option String

unfoldable pub from_turn : String → TurnResult → ConversationTurn
from_turn actor tr = record {
  actor = actor;
  output = tr.output;
  events = tr.events;
  status = tr.status;
  error = tr.error;
}

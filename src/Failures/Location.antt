-- ===== src/Failures/Location.antt =====
-- failures.py: where a failure report says that a failure is. `decimal` prints a number.
use Prim.Native.String.{◌++◌ as str_append}
use agent_spec_kit.Common.{
  ℕ, zero, suc, ◌+◌, ◌%◌, String, ◌&&◌, Option, none, some, List, [], ◌∷◌, str_eq, if◌then◌else◌,
  leb, get_elem?,
}
use agent_spec_kit.Match.Value.{Value, list, dict, Values, nil, cons, get}
use agent_spec_kit.Match.Types.{PathPart, key, index, FieldPath}
use agent_spec_kit.Scenario.Events.{Event}
use agent_spec_kit.Scenario.State.{FailureRecord}
use agent_spec_kit.Failures.Trace.{conversation_turns_to_event_trace}

unfoldable pub nth : Values → ℕ → Option Value
nth nil i = none
nth (cons v vs) zero = some v
nth (cons v vs) (suc i) = nth vs i

-- One part of a path.
unfoldable pub deref : Value → PathPart → Option Value
unfolding nth
deref (list vs) (index i) = nth vs i
deref (dict fs) (key k) = get k fs
deref v p = none

-- `none` is `_MISSING`.
unfoldable pub deref_match_path : (root : Value) → FieldPath → Option Value
unfolding deref
deref_match_path cur [] = some cur
deref_match_path cur (p ∷ path) = elim (deref cur p) [
  | none ↦ none
  | some v ↦ deref_match_path v path
]

unfoldable pub suffix_of : ℕ → String
suffix_of (suc zero) = "st"
suffix_of (suc (suc zero)) = "nd"
suffix_of (suc (suc (suc zero))) = "rd"
suffix_of n = "th"

-- `labels.get`: the kind of a step in words, and what is looked at.
unfoldable pub label_of : (step_kind : String) → String × String
label_of k =
    if str_eq k "assert_output"
    then ("assert_output", "(final assistant text for that turn)")
    else if str_eq k "assert_tool_calls"
    then ("assert_tool_calls", "(tool call list for that turn)")
    else if str_eq k "forbid_tool_calls"
    then ("forbid_tool_calls", "(forbidden tool call patterns)")
    else if str_eq k "assert_that"
    then ("assert_that", "(environment / fixture check)")
    else if str_eq k "scenario_body"
    then ("scenario body", "(Python assert in test function)")
    else if str_eq k "agent_error"
    then ("agent error", "(runtime error during agent execution)")
    else (k, "")

unfoldable pub turn_actor_for_record : FailureRecord → Option String
turn_actor_for_record r = elim r.turn_index [
  | none ↦ none
  | some i ↦ elim (get_elem? r.turn_results i) [ none ↦ none | some turn ↦ some turn.actor ]
]

-- No turns are `None` in the source, or an empty tuple.
unfoldable pub trace_events_for_record : FailureRecord → Option (List Event)
unfolding conversation_turns_to_event_trace
trace_events_for_record r = elim r.turn_results [
  | [] ↦ r.events
  | t ∷ ts ↦ some (conversation_turns_to_event_trace r.turn_results 5)
]

module _ (decimal : ℕ → String) where
  unfoldable pub ordinal : ℕ → String
  unfolding suffix_of
  ordinal n =
      str_append (decimal n)
        (if leb 10 (n % 100) && leb (n % 100) 20 then "th" else suffix_of (n % 10))

  unfoldable pub kind_with_ordinal : (kind_base : String) → Option ℕ → String
  unfolding ordinal
  kind_with_ordinal kind none = kind
  kind_with_ordinal kind (some zero) = kind
  kind_with_ordinal kind (some (suc n)) = str_append (ordinal (suc n)) (str_append " " kind)

  unfoldable pub role_of : (turn_actor : Option String) → String
  role_of none = ""
  role_of (some actor) =
      if str_eq actor "agent"
      then " (agentturn)"
      else if str_eq actor "user"
      then " (userturn)"
      else ""

  unfoldable pub spaced : String → String
  spaced s = if str_eq s "" then "" else str_append " " s

  unfoldable pub format_scenario_location :
      (step_kind : String) (turn_index assertion_index_after_turn : Option ℕ)
      (turn_actor : Option String)
      → String
  unfolding label_of kind_with_ordinal role_of spaced
  format_scenario_location step_kind none n turn_actor =
      str_append (kind_with_ordinal (label_of step_kind).0 n)
        (str_append " before any completed user turn" (spaced (label_of step_kind).1))
  format_scenario_location step_kind (some i) n turn_actor =
      str_append (kind_with_ordinal (label_of step_kind).0 n) (
        str_append " after turn #" (
          str_append (decimal (i + 1))
            (str_append (role_of turn_actor) (spaced (label_of step_kind).1))))

  unfoldable pub location_of : FailureRecord → String
  location_of r =
      str_append (str_append "step " (decimal r.step_index))
        (elim r.turn_index [ none ↦ "" | some i ↦ str_append ", turn " (decimal i) ])

  unfoldable pub location_detail : FailureRecord → String
  unfolding format_scenario_location turn_actor_for_record
  location_detail r =
      format_scenario_location r.step_kind r.turn_index r.assertion_index_after_turn
        (turn_actor_for_record r)

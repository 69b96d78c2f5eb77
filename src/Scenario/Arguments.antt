-- ===== src/Scenario/Arguments.antt =====
-- scenario_core.py: what the steps of a scenario are given: keyword arguments, specs, and the
-- transcripts of one actor. `str_of` is `str` of a value that is no text.
use agent_spec_kit.Common.{
  String, Bool, true, false, Option, none, some, List, [], ◌∷◌, str_eq, if◌then◌else◌,
}
use mathlib.Core.List.{reverse}
use agent_spec_kit.Common.Outcome.{
  type_error, key_error, assertion_error, Outcome, returned, raised, ◌>>=◌,
}
use agent_spec_kit.Match.Value.{Value, null, str, Fields, end, field, get}
use agent_spec_kit.Match.Lists.Class.{ordered, unordered}
use agent_spec_kit.Match.Matcher.{list_matcher}
use agent_spec_kit.Match.Spec.{Spec, matcher, coerce_each, spec_elements}
use agent_spec_kit.Scenario.Events.{ConversationTurn, join}
use agent_spec_kit.Scenario.Records.{last_of}

-- The keyword arguments of a callable, by its parameters.
unfoldable pub resolve_fixture_kwargs : List (String × Bool) → Fields → Outcome Fields
unfolding get
resolve_fixture_kwargs [] fixtures = returned end
resolve_fixture_kwargs ((name, true) ∷ params) fixtures = raised type_error
resolve_fixture_kwargs ((name, false) ∷ params) fixtures = elim (get name fixtures) [
  | none ↦ raised key_error
  | some v ↦ do rest ← resolve_fixture_kwargs params fixtures; returned (field name v rest)
]

unfoldable pub coerce_tool_calls_list_spec : Spec → (in_order allow_extras : Bool) → Outcome Spec
unfolding coerce_each
coerce_tool_calls_list_spec spec in_order allow_extras = do
  elements ← coerce_each (spec_elements spec)
  returned (matcher (list_matcher elements (if in_order then ordered else unordered) allow_extras))

unfoldable pub default_assert_actor : List ConversationTurn → String
unfolding last_of
default_assert_actor turns = elim (last_of turns) [ none ↦ "agent" | some ct ↦ ct.actor ]

abbrev pub chosen_actor : List ConversationTurn → (actor : Option String) → String
chosen_actor turns none = default_assert_actor turns
chosen_actor turns (some a) = a

-- The first turn of the actor, of the turns from the last back.
unfoldable pub first_of : String → List ConversationTurn → Option ConversationTurn
first_of a [] = none
first_of a (ct ∷ cts) = let rest = first_of a cts in if str_eq ct.actor a then some ct else rest

unfoldable pub conversation_for_assert :
    List ConversationTurn → (actor : Option String) → Outcome ConversationTurn
unfolding default_assert_actor first_of
conversation_for_assert turns actor = elim (first_of (chosen_actor turns actor) (reverse turns)) [
  | none ↦ raised assertion_error
  | some ct ↦ returned ct
]

module _ (str_of : Value → String) where
  -- The texts of the outputs of one actor: nothing is left out.
  unfoldable pub output_chunks : String → List ConversationTurn → List String
  output_chunks actor [] = []
  output_chunks actor (turn ∷ turns) =
      let rest = output_chunks actor turns in
      if str_eq turn.actor actor
      then elim turn.output [ str t ↦ t ∷ rest | null ↦ rest | v ↦ str_of v ∷ rest ]
      else rest

  unfoldable pub outputs_up_to_now : List ConversationTurn → (actor : String) → String
  unfolding join output_chunks
  outputs_up_to_now turns actor = join "\n" (output_chunks actor turns)

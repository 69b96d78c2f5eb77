-- ===== src/Match/Forbidden.antt =====
-- match/forbidden.py: `ForbiddenToolCallsMatcher`.
use agent_spec_kit.Common.{
  ℕ, suc, Bool, true, false, not, ◌||◌, Option, none, some, List, [], ◌∷◌, ◌++◌, map, if◌then◌else◌,
  ◌==◌, length,
}
use agent_spec_kit.Common.Outcome.{Outcome, returned, ◌>>=◌}
use agent_spec_kit.Match.Value.{Value, str, list, dict, to_list, get, type_name}
use agent_spec_kit.Match.Types.{
  FieldPath, lit, num, repr_of, repr_of_str, numbers, tool_names, Text, text, shown, MatchError,
  MatchResult, success, failure,
}
use agent_spec_kit.Match.Protocol.{Check, BaseMatcher}
use agent_spec_kit.Match.Scalars.{plain_error, fails}
use agent_spec_kit.Match.Lists.Payload.{at_index, tool_name}

-- `{fname!r}`: the expected name, or the number of the pattern.
abbrev forbidden_name : BaseMatcher → ℕ → Text
forbidden_name m i = elim m.literal_name [
  | some n ↦ repr_of (str n) ∷ []
  | none ↦ lit "'pattern[" ∷ num i ∷ lit "]'" ∷ []
]

-- `{name!r}` of a tool call.
abbrev quoted_tool_name : Value → Text
quoted_tool_name (dict fs) = elim (get "name" fs) [
  | some v ↦ repr_of_str v ∷ []
  | none ↦ repr_of (str "dict") ∷ []
]
quoted_tool_name v = repr_of (str (type_name v)) ∷ []

unfoldable pub forbidden_call_error : FieldPath → BaseMatcher → ℕ → Value → ℕ → MatchError
forbidden_call_error path m i tool idx =
    plain_error (at_index path idx) "forbidden_tool_call"
      (lit "forbidden tool call "
        ∷ (forbidden_name m i
            ++ lit " found at index "
              ∷ num idx
              ∷ lit " (actual tool "
              ∷ (quoted_tool_name tool ++ lit ")" ∷ [])))
      (lit "no " ∷ forbidden_name m i) (shown tool)

-- The inner loop: the first pattern that the tool call matches.
unfoldable pub first_forbidden :
    List BaseMatcher → ℕ → Value → ℕ → FieldPath → Outcome (Option MatchError)
unfolding forbidden_call_error
first_forbidden [] i tool idx path = returned none
first_forbidden (m ∷ ms) i tool idx path = do
  r ← m.check tool (at_index path idx)
  elim r.ok [
    | true ↦ returned (some (forbidden_call_error path m i tool idx))
    | false ↦ first_forbidden ms (suc i) tool idx path
  ]

unfoldable pub match_any_forbidden :
    List BaseMatcher → List Value → ℕ → FieldPath → Outcome MatchResult
unfolding first_forbidden
match_any_forbidden patterns [] idx path = returned success
match_any_forbidden patterns (tool ∷ tools) idx path = do
  found ← first_forbidden patterns 0 tool idx path
  elim found [
    | some e ↦ returned (failure (e ∷ []))
    | none ↦ match_any_forbidden patterns tools (suc idx) path
  ]

-- The loop over the tool calls: the patterns that are left, and the calls that were matched.
unfoldable pub forbidden_loop :
    List BaseMatcher
    → List Value
    → ℕ
    → FieldPath
    → List (ℕ × Value)
    → Outcome (List BaseMatcher × List (ℕ × Value))
forbidden_loop [] tools idx path matched = returned ([], matched)
forbidden_loop (m ∷ ms) [] idx path matched = returned (m ∷ ms, matched)
forbidden_loop (m ∷ ms) (tool ∷ tools) idx path matched = do
  r ← m.check tool (at_index path idx)
  elim r.ok [
    | true ↦ forbidden_loop ms tools (suc idx) path (matched ++ (idx, tool) ∷ [])
    | false ↦ forbidden_loop (m ∷ ms) tools (suc idx) path matched
  ]

abbrev first_index : List (ℕ × Value) → ℕ
first_index [] = 0
first_index (p ∷ ps) = p.0

abbrev joined_names : List Value → Text
joined_names [] = []
joined_names (v ∷ []) = tool_name v
joined_names (v ∷ vs) = tool_name v ++ lit " -> " ∷ joined_names vs

-- `actual` is the list of the names itself, though the field is declared as a string.
unfoldable pub forbidden_sequence_error : FieldPath → List (ℕ × Value) → MatchError
forbidden_sequence_error path matched =
    let tools = map (λ (p : ℕ × Value). p.1) matched in
    plain_error (at_index path (first_index matched)) "forbidden_tool_sequence"
      (lit "forbidden ordered tool subsequence found at indices "
        ∷ numbers (map (λ (p : ℕ × Value). p.0) matched)
        ∷ lit ": "
        ∷ joined_names tools)
      (text "forbidden sequence absent") (tool_names tools ∷ [])

-- A sequence is found if no pattern is left.
abbrev pub sequence_result : FieldPath → List BaseMatcher × List (ℕ × Value) → MatchResult
sequence_result path ([], matched) = failure (forbidden_sequence_error path matched ∷ [])
sequence_result path (m ∷ ms, matched) = success

unfoldable pub match_forbidden_subsequence :
    List BaseMatcher → List Value → FieldPath → Outcome MatchResult
unfolding forbidden_loop forbidden_sequence_error
match_forbidden_subsequence patterns tools path = do
  state ← forbidden_loop patterns tools 0 path []
  returned (sequence_result path state)

unfoldable pub forbidden_check : List BaseMatcher → (ordered : Bool) → Check
unfolding match_any_forbidden match_forbidden_subsequence
forbidden_check [] ordered (list vs) path = returned success
forbidden_check (m ∷ ms) ordered (list vs) path =
    if length (m ∷ ms) == 1 || not ordered
    then match_any_forbidden (m ∷ ms) (to_list vs) 0 path
    else match_forbidden_subsequence (m ∷ ms) (to_list vs) path
forbidden_check patterns ordered actual path =
    fails path "type_mismatch"
      (lit "expected list of tool dicts, got " ∷ lit (type_name actual) ∷ []) (text "list")
      (shown actual)

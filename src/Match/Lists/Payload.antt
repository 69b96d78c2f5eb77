-- ===== src/Match/Lists/Payload.antt =====
-- match/lists.py: errors about a list as a whole, and the witnesses that they carry.
use agent_spec_kit.Common.{ℕ, String, Bool, Option, none, some, List, [], ◌∷◌, ◌++◌, length, take}
use agent_spec_kit.Common.Outcome.{Outcome}
use agent_spec_kit.Match.Value.{Value, list, dict, of_list, get, type_name}
use agent_spec_kit.Match.Types.{
  FieldPath, index, str_of, Text, text, Json, number, written, value, items, entries, Jsons, done,
  item, Entries, stop, entry, MatchError, MatchResult, failure,
}
use agent_spec_kit.Match.Protocol.{BaseMatcher, error_payload}
use agent_spec_kit.Match.Scalars.{fails}

abbrev pub at_index : FieldPath → ℕ → FieldPath
at_index path i = path ++ index i ∷ []

-- `actual[:n]`
abbrev pub witness_items : ℕ → List Value → Json
witness_items n actual = value (list (of_list (take n actual)))

-- The name of a tool call: `str(item["name"])` of a dict that has one, else the type's name.
unfoldable pub tool_name : Value → Text
tool_name (dict fs) = elim (get "name" fs) [ some v ↦ str_of v ∷ [] | none ↦ text "dict" ]
tool_name v = text (type_name v)

actual_tool_names : List Value → Jsons
unfolding tool_name
actual_tool_names [] = done
actual_tool_names (v ∷ vs) = item (written (tool_name v)) (actual_tool_names vs)

-- The expected names, if every element is an object with a literal name.
expected_tool_names : List BaseMatcher → Option Jsons
expected_tool_names [] = some done
expected_tool_names (m ∷ ms) = elim m.literal_name [
  | none ↦ none
  | some n ↦ elim (expected_tool_names ms) [
    | none ↦ none
    | some names ↦ some (item (written (text n)) names)
  ]
]

abbrev name_entries : Option Jsons → List Value → Entries
name_entries none actual = stop
name_entries (some names) actual =
    entry "expected_tool_names" (items names)
      (entry "actual_tool_names" (items (actual_tool_names actual)) stop)

-- Every caller passes the numbers of elements and of items as the two lengths.
unfoldable pub list_length_witness_payload : String → List BaseMatcher → List Value → Json
unfolding actual_tool_names expected_tool_names
list_length_witness_payload mode elements actual = entries (
    entry "mode" (written (text mode)) (
      entry "expected_len" (number (length elements)) (
        entry "actual_len" (number (length actual)) (
          entry "actual_witness" (witness_items 8 actual)
            (name_entries (expected_tool_names elements) actual)))))

unfoldable pub not_list_error : FieldPath → Value → Outcome MatchResult
not_list_error path actual =
    fails path "list" (text "expected a list") (text "list") (text (type_name actual))

abbrev pub with_inner_error : MatchError → Option MatchError → MatchResult
with_inner_error outer none = failure (outer ∷ [])
with_inner_error outer (some inner) = record { ok = Bool.false; errors = outer ∷ inner ∷ [] }

-- The entries "inner_error" of a witness.
abbrev pub inner_entries : Option MatchError → Entries
inner_entries none = stop
inner_entries (some e) = entry "inner_error" (error_payload e) stop

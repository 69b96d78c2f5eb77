-- ===== src/Match/Protocol.antt =====
-- match/protocol.py: what every matcher offers, and the choice of a representative error, which
-- match/lists.py and match/scalars.py both define.
use agent_spec_kit.Common.{
  ℕ, String, Bool, false, Option, none, some, List, [], ◌∷◌, if◌then◌else◌, ltb, length,
}
use agent_spec_kit.Common.Outcome.{Outcome}
use agent_spec_kit.Match.Value.{Value}
use agent_spec_kit.Match.Types.{
  PathPart, key, index, FieldPath, Text, text, Json, absent, number, written, items, entries, Jsons,
  done, item, stop, entry, MatchError, MatchResult,
}

abbrev pub Check : Type 0
Check = Value → FieldPath → Outcome MatchResult

-- A matcher as its users see it. `is_optional`, `equals` and `literal_name` are the answers to the
-- `isinstance` tests that other matchers make: whether it is an OptionalMatcher, what it expects if
-- it is an EqualityMatcher, and the name that it expects if it is an ObjectMatcher whose property
-- "name" is an EqualityMatcher on a string. `summary` is what `matcher_summary` prints.
pub record BaseMatcher : Type 0 where
  pub check : Check
  pub async_check : Check
  pub is_optional : Bool
  pub equals : Option Value
  pub literal_name : Option String
  pub summary : Text

-- A matcher with a `check` alone: `async_check` delegates to it.
unfoldable pub sync_matcher : Text → Check → BaseMatcher
sync_matcher summary check = record {
  check = check;
  async_check = check;
  is_optional = false;
  equals = none;
  literal_name = none;
  summary = summary;
}

unfoldable pub async_matcher : Text → Check → Check → BaseMatcher
async_matcher summary check async_check = record {
  check = check;
  async_check = async_check;
  is_optional = false;
  equals = none;
  literal_name = none;
  summary = summary;
}

unfoldable pub path_depth : MatchError → ℕ
path_depth e = length e.path

-- `max(errors, key=_path_depth)`: the first of the deepest.
unfoldable pub deepest : MatchError → List MatchError → MatchError
deepest best [] = best
deepest best (e ∷ es) = deepest (if ltb (path_depth best) (path_depth e) then e else best) es

unfoldable pub pick_representative_error : List MatchError → Option MatchError
pick_representative_error [] = none
pick_representative_error (e ∷ es) = some (deepest e es)

json_of_part : PathPart → Json
json_of_part (key k) = written (text k)
json_of_part (index i) = number i

json_of_path : FieldPath → Jsons
json_of_path [] = done
json_of_path (p ∷ ps) = item (json_of_part p) (json_of_path ps)

json_of_option : Option Json → Json
json_of_option none = absent
json_of_option (some j) = j

unfoldable pub error_payload : MatchError → Json
unfolding json_of_path json_of_part json_of_option
error_payload e = entries (
    entry "path" (items (json_of_path e.path)) (
      entry "code" (written (text e.code)) (
        entry "message" (written e.message) (
          entry "expected" (written e.expected) (
            entry "actual" (written e.actual)
              (entry "witness_json" (json_of_option e.witness_json) stop))))))

-- ===== src/Match/Combinators.antt =====
-- match/scalars.py and match/transform.py: the matchers that are built from other matchers.
-- The sync and the async version of a class have the same text, up to the method that they call:
-- each definition takes that method as `run`.
use agent_spec_kit.Common.{
  String, Bool, true, false, Option, none, some, List, [], ◌∷◌, ◌++◌, map, if◌then◌else◌,
}
use agent_spec_kit.Common.Outcome.{Outcome, returned, ◌>>=◌}
use agent_spec_kit.Match.Value.{Value, null}
use agent_spec_kit.Match.Types.{
  FieldPath, lit, Text, text, shown, entries, entry, stop, MatchError, MatchResult, success,
  failure,
}
use agent_spec_kit.Match.Protocol.{Check, BaseMatcher, pick_representative_error, error_payload}
use agent_spec_kit.Match.Scalars.{plain_error, fails}

-- The outer error of a combinator, with the message and the payload of the inner one if there is one.
unfoldable pub combinator_error :
    FieldPath → String → Text → Option MatchError → Text → Text → MatchError
combinator_error path code summary none expected actual =
    plain_error path code summary expected actual
combinator_error path code summary (some inner) expected actual =
    record (plain_error path code (summary ++ lit ": " ∷ inner.message) expected actual) {
      witness_json = some (entries (entry "inner_error" (error_payload inner) stop));
    }

abbrev inner_errors : Bool → Option MatchError → List MatchError
inner_errors true (some e) = e ∷ []
inner_errors include e = []

unfoldable pub combinator_failure :
    (path : FieldPath) (code : String) (summary : Text) (inner : Option MatchError)
    (expected actual : Text) (include_inner_in_errors : Bool) (extra_errors : List MatchError)
    → MatchResult
unfolding combinator_error
combinator_failure path code summary inner expected actual include extra = failure (
    combinator_error path code summary inner expected actual
    ∷ (inner_errors include inner ++ extra))

join_summaries : List BaseMatcher → Text
join_summaries [] = []
join_summaries (m ∷ []) = m.summary
join_summaries (m ∷ ms) = m.summary ++ lit ", " ∷ join_summaries ms

module _ (run : BaseMatcher → Check) where
  -- Whether an option accepts the value, and the errors of the options before it.
  unfoldable pub one_of_loop :
      List BaseMatcher → List MatchError → Value → FieldPath → Outcome (Bool × List MatchError)
  one_of_loop [] errors actual path = returned (false, errors)
  one_of_loop (m ∷ ms) errors actual path = do
    r ← run m actual path
    elim r.ok [
      | true ↦ returned (true, errors)
      | false ↦ one_of_loop ms (errors ++ r.errors) actual path
    ]

  unfoldable pub one_of_with : List BaseMatcher → Check
  unfolding one_of_loop combinator_failure join_summaries
  one_of_with options actual path = do
    (matched, errors) ← one_of_loop options [] actual path
    if matched
        then returned success
        else returned (
            combinator_failure path "one_of" (text "one_of: value does not match any option")
              (pick_representative_error errors)
              (lit "one of (" ∷ (join_summaries options ++ lit ")" ∷ [])) (shown actual) true [])

  unfoldable pub all_of_loop :
      List BaseMatcher → List MatchError → Value → FieldPath → Outcome (List MatchError)
  all_of_loop [] errors actual path = returned errors
  all_of_loop (m ∷ ms) errors actual path = do
    r ← run m actual path
    all_of_loop ms (if r.ok then errors else errors ++ r.errors) actual path

  unfoldable pub all_of_result : List MatchError → Value → FieldPath → MatchResult
  unfolding combinator_failure
  all_of_result [] actual path = success
  all_of_result (e ∷ es) actual path =
      combinator_failure path "all_of" (text "all_of: not all constraints were satisfied")
        (pick_representative_error (e ∷ es)) (text "all constraints to pass") (shown actual) false
        (e ∷ es)

  unfoldable pub all_of_with : List BaseMatcher → Check
  unfolding all_of_loop all_of_result
  all_of_with options actual path = do
    errors ← all_of_loop options [] actual path
    returned (all_of_result errors actual path)

  unfoldable pub not_with : BaseMatcher → Check
  unfolding combinator_failure
  not_with inner actual path = do
    r ← run inner actual path
    if r.ok
        then returned (
            combinator_failure path "not" (text "not: value matched disallowed spec") none
              (lit "not " ∷ inner.summary) (shown actual) false [])
        else returned success

  unfoldable pub optional_with : BaseMatcher → Check
  optional_with inner null path = returned success
  optional_with inner actual path = run inner actual path

-- A user's function: the value that it returns, or the text of the exception that it raises.
pub data Transformed : Type 0 where
  gives : Value → Transformed
  throws : String → Transformed

abbrev pub rewrapped : MatchError → MatchError
rewrapped e = plain_error e.path e.code (lit "after transform: " ∷ e.message) e.expected e.actual

module _ (run : BaseMatcher → Check) where
  -- What follows the call of the user's function on `actual`.
  unfoldable pub transform_outcome :
      BaseMatcher → Value → FieldPath → Transformed → Outcome MatchResult
  transform_outcome inner actual path (throws e) =
      fails path "transform" (lit "transform raised: " ∷ lit e ∷ [])
        (text "transform without exception") (shown actual)
  transform_outcome inner actual path (gives v) = do
    r ← run inner v path
    if r.ok then returned r else returned (failure (map rewrapped r.errors))

  unfoldable pub transform_with : (Value → Transformed) → BaseMatcher → Check
  unfolding transform_outcome
  transform_with fn inner actual path = transform_outcome inner actual path (fn actual)

abbrev pub sync_run : BaseMatcher → Check
sync_run m = m.check

abbrev pub async_run : BaseMatcher → Check
async_run m = m.async_check

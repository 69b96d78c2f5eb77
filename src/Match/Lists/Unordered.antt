-- ===== src/Match/Lists/Unordered.antt =====
-- match/lists.py: the unordered matchers. `run` is the method of a matcher that is called, as in
-- the ordered ones.
use agent_spec_kit.Common.{
  ℕ, String, Bool, Option, none, some, List, [], ◌∷◌, ◌++◌, if◌then◌else◌, ltb,
}
use agent_spec_kit.Match.Value.{Value, list, of_list}
use agent_spec_kit.Match.Types.{
  FieldPath, lit, num, Text, text, shown, number, flag, written, entries, Entries, stop, entry,
  MatchError, MatchResult,
}
use agent_spec_kit.Match.Protocol.{path_depth, pick_representative_error, error_payload}
use agent_spec_kit.Match.Lists.Payload.{witness_items, with_inner_error}

pub record ComparisonFailure : Type 0 where
  pub expected_index : ℕ
  pub actual_index : ℕ
  pub errors : List MatchError

abbrev pub Best : Type 0
Best = Option (ComparisonFailure × MatchError)

-- A later comparison replaces the best one only if its error lies deeper.
unfoldable pub better : Best → ComparisonFailure → Option MatchError → Best
better best f none = best
better none f (some e) = some (f, e)
better (some (g, d)) f (some e) =
    if ltb (path_depth d) (path_depth e) then some (f, e) else some (g, d)

unfoldable pub best_of : Best → List ComparisonFailure → Best
unfolding better
best_of best [] = best
best_of best (f ∷ fs) = best_of (better best f (pick_representative_error f.errors)) fs

unfoldable pub pick_representative_comparison :
    List ComparisonFailure → Option (ComparisonFailure × MatchError)
unfolding best_of
pick_representative_comparison = best_of none

abbrev pub comparison_entries : Best → Entries
comparison_entries none = stop
comparison_entries (some (f, e)) =
    entry "representative_failed_comparison"
      (entries (
        entry "expected_index" (number f.expected_index) (
          entry "actual_index" (number f.actual_index)
            (entry "inner_error" (error_payload e) stop))))
      stop

abbrev pub comparison_message : Best → Text
comparison_message none = []
comparison_message (some (f, e)) =
    (lit "; representative failed comparison was expected element "
      ∷ num f.expected_index
      ∷ lit " against actual item "
      ∷ num f.actual_index
      ∷ lit ": "
      ∷ [])
    ++ e.message

abbrev pub inner_of : Best → Option MatchError
inner_of none = none
inner_of (some (f, e)) = some e

-- The failure of an unordered match: what was wanted, and the best of the failed comparisons.
unfoldable pub unordered_failure :
    (message expected : String)
    → (Entries → Entries)
    → List Value
    → FieldPath
    → List ComparisonFailure
    → MatchResult
unordered_failure message expected head actual path failures =
    let best = pick_representative_comparison failures in
    with_inner_error
      (record {
        path = path;
        code = "unordered_mismatch";
        message = text message ++ comparison_message best;
        expected = text expected;
        actual = shown (list (of_list actual));
        witness_json = some (
            entries
              (head (entry "actual_witness" (witness_items 12 actual) (comparison_entries best))));
      })
      (inner_of best)

abbrev exact_message : String
exact_message =
    "the list does not match when order is ignored: each expected value must correspond to a different position in the list"

unfoldable pub permutation_failure : List Value → FieldPath → List ComparisonFailure → MatchResult
permutation_failure =
    unordered_failure exact_message "each value matched to a different position (order ignored)"
      (entry "mode" (written (text "unordered_permutation")))

unfoldable pub injective_failure :
    Bool → List Value → FieldPath → List ComparisonFailure → MatchResult
injective_failure allow_extras =
    unordered_failure
      (if allow_extras
        then "could not match each expected value to a different item in the list (order does not matter; extra items in the list are allowed)"
        else exact_message)
      (if allow_extras
        then "each value to a different item (order ignored, extras allowed)"
        else "each value to a different position (order ignored)")
      (λ rest.
        entry "mode" (written (text "unordered_injective"))
          (entry "allow_extras" (flag allow_extras) rest))

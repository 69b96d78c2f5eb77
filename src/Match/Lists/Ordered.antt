-- ===== src/Match/Lists/Ordered.antt =====
-- match/lists.py: the ordered matchers. The sync and the async version in the source have one text,
-- up to the method `run` of a matcher that they call.
use agent_spec_kit.Common.{ℕ, suc, true, false, List, [], ◌∷◌, ◌++◌, if◌then◌else◌, ◌==◌, length}
use agent_spec_kit.Common.Outcome.{value_error, Outcome, returned, raised, ◌>>=◌}
use agent_spec_kit.Match.Value.{Value, list, to_list, type_name}
use agent_spec_kit.Match.Types.{FieldPath, text, MatchError, MatchResult, success, failure}
use agent_spec_kit.Match.Protocol.{Check, BaseMatcher, pick_representative_error}
use agent_spec_kit.Match.Scalars.{fails}
use agent_spec_kit.Match.Lists.Payload.{at_index, with_inner_error}
use agent_spec_kit.Match.Lists.Reports.{
  Scan, empty_scan, note, scan_result, exact_texts, list_of_texts, length_error, missing_error,
}

-- How the search for an item that matches ends: the items after it and their first index, or none,
-- with the errors of all attempts.
pub data Sought : Type 0 where
  placed : List Value → ℕ → Sought
  missing : List MatchError → Sought

module _ (run : BaseMatcher → Check) where
  -- The loop over `zip(elements, actual, strict=True)`.
  unfoldable pub exact_loop : List BaseMatcher → List Value → ℕ → FieldPath → Scan → Outcome Scan
  exact_loop [] [] i path s = returned s
  exact_loop [] (v ∷ vs) i path s = raised value_error
  exact_loop (m ∷ ms) [] i path s = raised value_error
  exact_loop (m ∷ ms) (v ∷ vs) i path s = do
    r ← run m v (at_index path i)
    exact_loop ms vs (suc i) path (note i r s)

  unfoldable pub ordered_exact_with :
      List BaseMatcher → List Value → FieldPath → Outcome MatchResult
  unfolding exact_loop length_error
  ordered_exact_with elements actual path =
      if length actual == length elements
      then (do
        s ← exact_loop elements actual 0 path empty_scan
        returned (scan_result exact_texts actual path s))
      else returned (failure (length_error elements actual path ∷ []))

  -- The inner `while` loop: items from index `ai` on are tried until one matches.
  unfoldable pub seek : BaseMatcher → List Value → ℕ → FieldPath → List MatchError → Outcome Sought
  seek m [] ai path errors = returned (missing errors)
  seek m (v ∷ vs) ai path errors = do
    r ← run m v (at_index path ai)
    elim r.ok [
      | true ↦ returned (placed vs (suc ai))
      | false ↦ seek m vs (suc ai) path (errors ++ r.errors)
    ]

  -- The outer loop: `rest` holds the items of `actual` from index `ai` on.
  unfoldable pub subsequence_loop :
      List BaseMatcher → (actual rest : List Value) → ℕ → ℕ → FieldPath → Outcome MatchResult
  unfolding seek missing_error
  subsequence_loop [] actual rest expected_index ai path = returned success
  subsequence_loop (m ∷ ms) actual rest expected_index ai path = do
    found ← seek m rest ai path []
    elim found [
      | placed rest' ai' ↦ subsequence_loop ms actual rest' (suc expected_index) ai' path
      | missing errors ↦
          let inner = pick_representative_error errors in
          returned (
            with_inner_error (missing_error actual path expected_index ai (length rest) inner)
              inner)
    ]

  unfoldable pub ordered_subsequence_with :
      List BaseMatcher → List Value → FieldPath → Outcome MatchResult
  unfolding subsequence_loop
  ordered_subsequence_with elements actual path = subsequence_loop elements actual actual 0 0 path

  unfoldable pub list_of_loop : BaseMatcher → List Value → ℕ → FieldPath → Scan → Outcome Scan
  list_of_loop inner [] i path s = returned s
  list_of_loop inner (v ∷ vs) i path s = do
    r ← run inner v (at_index path i)
    list_of_loop inner vs (suc i) path (note i r s)

  unfoldable pub list_of_with : BaseMatcher → Check
  unfolding list_of_loop
  list_of_with inner (list vs) path = do
    s ← list_of_loop inner (to_list vs) 0 path empty_scan
    returned (scan_result list_of_texts (to_list vs) path s)
  list_of_with inner actual path =
      fails path "list_of" (text "expected a list") (text "list") (text (type_name actual))

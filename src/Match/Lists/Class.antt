-- ===== src/Match/Lists/Class.antt =====
-- match/lists.py: `ListMatcher`, which chooses among the ordered and the unordered matchers.
use agent_spec_kit.Common.{
  ℕ, Bool, true, false, some, List, [], ◌∷◌, if◌then◌else◌, ◌==◌, ltb, leb, length, not,
}
use agent_spec_kit.Common.Outcome.{Outcome, returned}
use agent_spec_kit.Match.Value.{Value, list, of_list, to_list}
use agent_spec_kit.Match.Types.{
  FieldPath, lit, num, number, value, entries, stop, entry, MatchError, MatchResult, success,
  failure,
}
use agent_spec_kit.Match.Protocol.{Check, BaseMatcher}
use agent_spec_kit.Match.Lists.Payload.{not_list_error, list_length_witness_payload}
use agent_spec_kit.Match.Lists.Ordered.{ordered_exact_with, ordered_subsequence_with}
use agent_spec_kit.Match.Lists.Search.{multiset_by_permutation_with, unordered_injective_dfs_with}

pub data Mode : Type 0 where
  ordered unordered : Mode

-- `_MAX_PERM`
abbrev pub max_perm : ℕ
max_perm = 9

unfoldable pub unordered_length_error : List BaseMatcher → List Value → FieldPath → MatchError
unordered_length_error elements actual path = record {
  path = path;
  code = "list_length_mismatch";
  message =
      lit "wrong list length: expected exactly "
      ∷ num (length elements)
      ∷ lit " value(s) when order is ignored, found "
      ∷ num (length actual)
      ∷ [];
  expected = num (length elements) ∷ [];
  actual = num (length actual) ∷ [];
  witness_json = some (list_length_witness_payload "unordered_exact" elements actual);
}

unfoldable pub too_short_error : List BaseMatcher → List Value → FieldPath → MatchError
too_short_error elements actual path = record {
  path = path;
  code = "list_too_short";
  message =
      lit "list is too short: need at least "
      ∷ num (length elements)
      ∷ lit " item(s) to match all expected values (order does not matter)"
      ∷ [];
  expected = lit ">= " ∷ num (length elements) ∷ [];
  actual = num (length actual) ∷ [];
  witness_json = some (
      entries (
        entry "expected_min" (number (length elements)) (
          entry "actual_len" (number (length actual))
            (entry "actual_witness" (value (list (of_list actual))) stop))));
}

module _ (run : BaseMatcher → Check) where
  unfoldable pub unordered_exact_with :
      List BaseMatcher → List Value → FieldPath → Outcome MatchResult
  unfolding unordered_length_error
  unordered_exact_with elements actual path =
      if not (length actual == length elements)
      then returned (failure (unordered_length_error elements actual path ∷ []))
      else if length elements == 0
      then returned success
      else if leb (length elements) max_perm
      then multiset_by_permutation_with run actual path elements
      else unordered_injective_dfs_with run actual path false elements

  unfoldable pub unordered_extras_with :
      List BaseMatcher → List Value → FieldPath → Outcome MatchResult
  unfolding too_short_error
  unordered_extras_with elements actual path =
      if ltb (length actual) (length elements)
      then returned (failure (too_short_error elements actual path ∷ []))
      else if length elements == 0
      then returned success
      else unordered_injective_dfs_with run actual path true elements

  -- The four cases of `check`, by mode and by whether extra items are allowed.
  unfoldable pub list_items_with :
      List BaseMatcher → Mode → Bool → List Value → FieldPath → Outcome MatchResult
  list_items_with elements ordered false actual path = ordered_exact_with run elements actual path
  list_items_with elements ordered true actual path =
      ordered_subsequence_with run elements actual path
  list_items_with elements unordered false actual path = unordered_exact_with elements actual path
  list_items_with elements unordered true actual path = unordered_extras_with elements actual path

  unfoldable pub list_matcher_with : List BaseMatcher → Mode → Bool → Check
  unfolding list_items_with
  list_matcher_with elements mode allow_extras (list vs) path =
      list_items_with elements mode allow_extras (to_list vs) path
  list_matcher_with elements mode allow_extras actual path = not_list_error path actual

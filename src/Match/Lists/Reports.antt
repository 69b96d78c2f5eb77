-- ===== src/Match/Lists/Reports.antt =====
-- match/lists.py: the errors of the ordered matchers.
use agent_spec_kit.Common.{
  ℕ, zero, suc, ◌+◌, String, Option, none, some, List, [], ◌∷◌, ◌++◌, if◌then◌else◌, length,
}
use agent_spec_kit.Match.Value.{Value, list, of_list}
use agent_spec_kit.Match.Types.{
  FieldPath, lit, num, Text, text, shown, Json, absent, number, written, items, entries, Jsons,
  done, item, entry, MatchError, MatchResult, success, failure, path_to_str,
}
use agent_spec_kit.Match.Protocol.{BaseMatcher, pick_representative_error}
use agent_spec_kit.Match.Lists.Payload.{
  at_index, witness_items, list_length_witness_payload, inner_entries,
}

-- What a pass over the positions gathers: the errors, and the first index that failed with its
-- representative error.
pub record Scan : Type 0 where
  pub errors : List MatchError
  pub first_failed : Option (ℕ × Option MatchError)

unfoldable pub empty_scan : Scan
empty_scan = record { errors = []; first_failed = none }

abbrev keep_first :
    Option (ℕ × Option MatchError) → ℕ → MatchResult → Option (ℕ × Option MatchError)
keep_first (some f) i r = some f
keep_first none i r = some (i, pick_representative_error r.errors)

unfoldable pub note : ℕ → MatchResult → Scan → Scan
note i r s =
    if r.ok
    then s
    else record { errors = s.errors ++ r.errors; first_failed = keep_first s.first_failed i r }

abbrev failed_index_json : Option (ℕ × Option MatchError) → Json
failed_index_json none = absent
failed_index_json (some f) = number f.0

abbrev scan_inner : Option (ℕ × Option MatchError) → Option MatchError
scan_inner none = none
scan_inner (some f) = f.1

abbrev scan_path : FieldPath → Option (ℕ × Option MatchError) → FieldPath
scan_path path none = path
scan_path path (some f) = at_index path f.0

-- The fixed texts of the two kinds of scan.
pub record ScanTexts : Type 0 where
  pub mode : String
  pub code : String
  pub not_matching : String
  pub some_not_matching : String
  pub representative : ℕ → Text
  pub expected : String

abbrev scan_message : ScanTexts → Option (ℕ × Option MatchError) → Text
scan_message t none = text t.some_not_matching
scan_message t (some (i, none)) = lit "list item at index " ∷ num i ∷ lit t.not_matching ∷ []
scan_message t (some (i, some e)) =
    (lit "list item at index " ∷ num i ∷ lit t.not_matching ∷ [])
    ++ (t.representative i ++ e.message)

-- The error for the list, in front of the errors of its items.
unfoldable pub scan_error : ScanTexts → List Value → FieldPath → Scan → MatchError
scan_error t actual path s = record {
  path = scan_path path s.first_failed;
  code = t.code;
  message = scan_message t s.first_failed;
  expected = text t.expected;
  actual = shown (list (of_list actual));
  witness_json = some (
      entries (
        entry "mode" (written (text t.mode)) (
          entry "first_failed_index" (failed_index_json s.first_failed) (
            entry "actual_witness" (witness_items 12 actual)
              (inner_entries (scan_inner s.first_failed))))));
}

unfoldable pub scan_result : ScanTexts → List Value → FieldPath → Scan → MatchResult
unfolding scan_error
scan_result t actual path s = elim s.errors [
  | [] ↦ success
  | e ∷ es ↦ failure (scan_error t actual path s ∷ e ∷ es)
]

abbrev pub exact_texts : ScanTexts
exact_texts = record {
  mode = "ordered_exact";
  code = "ordered_element_mismatch";
  not_matching = " did not match the expected matcher for that position";
  some_not_matching = "one or more list items did not match their expected positions";
  representative = λ i.
      lit "; representative mismatch at expected index "
      ∷ num i
      ∷ lit " (actual index "
      ∷ num i
      ∷ lit "): "
      ∷ [];
  expected = "each list item to match the expected matcher at the same index";
}

abbrev pub list_of_texts : ScanTexts
list_of_texts = record {
  mode = "list_of";
  code = "list_of_element_mismatch";
  not_matching = " did not match the list_of matcher";
  some_not_matching = "one or more list items did not match the list_of matcher";
  representative = λ i. lit "; representative mismatch at index " ∷ num i ∷ lit ": " ∷ [];
  expected = "every list item to match the inner matcher";
}

unfoldable pub length_error : List BaseMatcher → List Value → FieldPath → MatchError
length_error elements actual path = record {
  path = path;
  code = "list_length_mismatch";
  message =
      lit "wrong list length: expected exactly "
      ∷ num (length elements)
      ∷ lit " value(s) in this order, found "
      ∷ num (length actual)
      ∷ [];
  expected = num (length elements) ∷ [];
  actual = num (length actual) ∷ [];
  witness_json = some (list_length_witness_payload "ordered_exact" elements actual);
}

-- What is said of an expected element that no remaining item matches.
abbrev searched : Option (ℕ × ℕ) → Text
searched none = text "\nno actual items were left to search"
searched (some (a, b)) = lit "\nsearched actual positions " ∷ num a ∷ lit " through " ∷ num b ∷ []

abbrev closest : Option MatchError → Text
closest none = []
closest (some e) =
    lit "\nclosest underlying mismatch was (at " ∷ (path_to_str e.path ++ lit "): " ∷ e.message)

abbrev positions_json : ℕ → ℕ → Jsons
positions_json from zero = done
positions_json from (suc n) = item (number from) (positions_json (suc from) n)

-- The items tried for one expected element stand side by side: from `from`, `tried` of them.
unfoldable pub missing_error : List Value → FieldPath → ℕ → ℕ → ℕ → Option MatchError → MatchError
missing_error actual path expected_index from tried inner = record {
  path = at_index path expected_index;
  code = "missing_element";
  message =
      (lit "could not match expected element at index "
        ∷ num expected_index
        ∷ lit " while preserving order"
        ∷ [])
      ++ (searched (elim tried [ zero ↦ none | suc k ↦ some (from, from + k) ]) ++ closest inner);
  expected = text "expected value to appear after the previous match";
  actual = shown (list (of_list actual));
  witness_json = some (
      entries (
        entry "mode" (written (text "ordered_subsequence")) (
          entry "expected_index" (number expected_index) (
            entry "searched_actual_positions" (items (positions_json from tried))
              (entry "actual_witness" (witness_items 12 actual) (inner_entries inner))))));
}

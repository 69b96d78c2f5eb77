-- ===== src/Match/Examples.antt =====
-- The matchers at work on small values: tests of the definitions, and the theorems applied.
use agent_spec_kit.Common.{
  ℕ, ◌≤◌, ◌≡◌, refl, Bool, true, false, not, Option, none, some, List, [], ◌∷◌, All, Any, In,
  length, String,
}
use agent_spec_kit.Common.Int.{pos}
use agent_spec_kit.Common.Outcome.{returned}
use agent_spec_kit.Match.Value.{
  Value, int, float, nan, list, dict, Values, Fields, end, field, get, of_list, to_list,
}
use agent_spec_kit.Match.Types.{Text, MatchResult, success, failure}
use agent_spec_kit.Match.Compare.{py_eq}
use agent_spec_kit.Match.Protocol.{BaseMatcher}
use agent_spec_kit.Match.Scalars.{equality_check, any_value_check, number_check}
use agent_spec_kit.Match.Combinators.{sync_run, one_of_with, all_of_with, not_with}
use agent_spec_kit.Match.Lists.Ordered.{ordered_exact_with, ordered_subsequence_with, list_of_with}
use agent_spec_kit.Match.Lists.Search.{multiset_by_permutation_with, unordered_injective_dfs_with}
use agent_spec_kit.Match.Lists.Class.{
  ordered, unordered, unordered_exact_with, unordered_extras_with, list_matcher_with,
}
use agent_spec_kit.Match.Numbers.{float_lt}
use agent_spec_kit.Match.Rules.{evaluate, require_rule, field_equals}
use agent_spec_kit.Match.Object.{forbid, object_with, is_declared, ObjectSpec, fields_with}
use agent_spec_kit.Match.Mapping.{actual_as_mapping}
use agent_spec_kit.Match.Forbidden.{forbidden_check}
use agent_spec_kit.Match.Matcher.{
  Matcher, equality, any_value, number, list_matcher, object, optional, nil, cons, prop, interpret,
}
use agent_spec_kit.Match.Matcher.{end as no_props}
use agent_spec_kit.Match.Laws.Report.{IsReport, Honors}
use agent_spec_kit.Match.Laws.Assignment.{accepted, Hits, Assignable}
use agent_spec_kit.Match.Laws.Unordered.{AllCalm, unordered_injective_dfs_iff}
use agent_spec_kit.Match.Laws.Exhaustive.{multiset_by_permutation_iff}
use agent_spec_kit.Match.Laws.Verdicts.{
  Answers, searches_agree, unordered_exact_iff, unordered_extras_iff,
}
use agent_spec_kit.Match.Laws.Subsequence.{Embeds, ordered_subsequence_iff}
use agent_spec_kit.Match.Laws.Forbidden.{forbidden_sequence_iff, forbidden_any_iff, forbidden_dual}
use agent_spec_kit.Match.Laws.Combinators.{AllHonor}
use agent_spec_kit.Match.Laws.Gathering.{IsCalm-Honors}
use agent_spec_kit.Match.Laws.Pointwise.{Pairwise, Everywhere, ordered_exact_iff, list_of_iff}
use agent_spec_kit.Match.Laws.Choices.{Accepts, every_option_iff, one_of_iff, not_iff}
use agent_spec_kit.Match.Laws.ObjectVerdict.{
  ExtrasHold, RuleHolds, HookHolds, PropHolds, fields_iff,
}
use agent_spec_kit.Match.Laws.Contract.{
  HonorsBoth, Allowed, AllAllowed, interpret-Honors, check-IsReport, async_check-IsReport,
  matcher-HonorsBoth,
}

abbrev no_json : String → Option Value
no_json s = none

abbrev no_summary : Matcher → Text
no_summary m = []

abbrev made : Matcher → BaseMatcher
made m = interpret no_json no_summary m

abbrev one : Value
one = int (pos 1)

abbrev two : Value
two = int (pos 2)

abbrev three : Value
three = int (pos 3)

abbrev accepts_value : Matcher → Value → Bool
accepts_value m v = accepted ((made m).check v [])

abbrev any_and_one : Matcher
any_and_one = list_matcher (cons any_value (cons (equality one) nil)) unordered false

-- The first element first takes the item that the second one needs.
backtracks : accepts_value any_and_one (list (of_list (one ∷ two ∷ []))) ≡ true
unfolding interpret list_matcher_with unordered_exact_with multiset_by_permutation_with
    any_value_check equality_check py_eq success failure
backtracks = refl

abbrev a_and_b : Matcher
a_and_b =
    object (prop "a" (equality one) (prop "b" (optional any_value) no_props)) forbid
      (require_rule "a" (field_equals "b" two) ∷ []) []

abbrev only_a : Fields
only_a = field "a" one end

optional_key : accepts_value a_and_b (dict only_a) ≡ true
unfolding interpret object_with actual_as_mapping get equality_check py_eq success is_declared
    evaluate
optional_key = refl

extra_key_fails : accepts_value a_and_b (dict (field "c" one only_a)) ≡ false
unfolding interpret object_with actual_as_mapping get equality_check py_eq success is_declared
    failure
extra_key_fails = refl

-- Neither bound excludes the value that is not a number.
nan_passes :
    accepts_value (number (record { min = some one; max = some two; int_only = false })) (float nan)
    ≡ true
unfolding interpret number_check float_lt success
nan_passes = refl

honest : (m : Matcher) → Allowed ⊥ m → Honors ⊥ (sync_run (made m))
honest m a = (interpret-Honors ⊥ no_json no_summary m a).0

abbrev specs : List BaseMatcher
specs = made any_value ∷ made (equality one) ∷ []

abbrev fixed : List BaseMatcher
fixed = made (equality one) ∷ made (equality two) ∷ []

abbrev values : Values
values = of_list (one ∷ two ∷ [])

specs-Honors : AllHonor ⊥ sync_run specs
unfolding Allowed
specs-Honors = (honest any_value tt, (honest (equality one) tt, tt))

specs_calm : AllCalm sync_run (to_list values) [] specs
unfolding Allowed
specs_calm =
    (IsCalm-Honors _ (honest any_value tt), (IsCalm-Honors _ (honest (equality one) tt), tt))

check-IsReport_example :
    (r : MatchResult) × ((interpret no_json no_summary any_and_one).check (list values) []
      ≡ returned r)
    × IsReport [] r
unfolding Allowed AllAllowed
check-IsReport_example =
    check-IsReport no_json no_summary any_and_one (list values) [] (tt, (tt, tt))

async_check-IsReport_example :
    (r : MatchResult) × ((interpret no_json no_summary any_and_one).async_check (list values) []
      ≡ returned r)
    × IsReport [] r
unfolding Allowed AllAllowed
async_check-IsReport_example =
    async_check-IsReport no_json no_summary any_and_one (list values) [] (tt, (tt, tt))

matcher-HonorsBoth_example : HonorsBoth Unit (
    interpret no_json no_summary (number (record { min = some one; max = none; int_only = false })))
unfolding Allowed
matcher-HonorsBoth_example =
    matcher-HonorsBoth no_json no_summary
      (number (record { min = some one; max = none; int_only = false })) tt

abbrev a_spec : ObjectSpec
a_spec = record {
  props = ("a", made (equality one)) ∷ [];
  extra = forbid;
  rules = require_rule "a" (field_equals "b" two) ∷ [];
  where_hooks = [];
}

fields_iff_example : Answers (fields_with sync_run a_spec only_a []) (
    (All (PropHolds sync_run only_a []) a_spec.props × ExtrasHold a_spec.extra a_spec.props only_a)
    × (All (RuleHolds only_a) a_spec.rules × (All (HookHolds only_a) a_spec.where_hooks × Unit)))
unfolding Allowed
fields_iff_example = fields_iff sync_run a_spec only_a [] (honest (equality one) tt, tt) (tt, tt)

unordered_exact_iff_example :
    Answers
      (unordered_exact_with sync_run specs (to_list values) [])
      ((length (to_list values) ≡ length specs) × Assignable sync_run (to_list values) [] specs)
unordered_exact_iff_example = unordered_exact_iff sync_run (to_list values) [] specs specs_calm

unordered_extras_iff_example :
    Answers
      (unordered_extras_with sync_run specs (to_list values) [])
      (Assignable sync_run (to_list values) [] specs)
unordered_extras_iff_example = unordered_extras_iff sync_run (to_list values) [] specs specs_calm

searches_agree_example :
    accepted (multiset_by_permutation_with sync_run (to_list values) [] specs)
    ≡ accepted (unordered_injective_dfs_with sync_run (to_list values) [] false specs)
searches_agree_example = searches_agree sync_run (to_list values) [] specs specs_calm refl

ordered_subsequence_iff_example :
    Answers
      (ordered_subsequence_with sync_run specs (to_list values) [])
      (Embeds sync_run (to_list values) [] 0 specs)
ordered_subsequence_iff_example =
    ordered_subsequence_iff sync_run (to_list values) [] specs specs_calm

ordered_exact_iff_example :
    Answers
      (ordered_exact_with sync_run specs (to_list values) [])
      ((length (to_list values) ≡ length specs) × Pairwise sync_run [] specs (to_list values) 0)
ordered_exact_iff_example = ordered_exact_iff sync_run [] specs (to_list values) specs-Honors

list_of_iff_example :
    Answers
      (list_of_with sync_run (made (equality one)) (list values) [])
      (Everywhere sync_run [] (made (equality one)) (to_list values) 0)
unfolding Allowed
list_of_iff_example =
    list_of_iff sync_run [] (made (equality one)) values (honest (equality one) tt)

every_option_iff_example :
    Answers (all_of_with sync_run specs two []) (All (Accepts sync_run two []) specs)
every_option_iff_example = every_option_iff sync_run two [] specs specs-Honors

one_of_iff_example :
    Answers (one_of_with sync_run specs two []) (Any (Accepts sync_run two []) specs)
one_of_iff_example =
    one_of_iff sync_run two [] specs (specs_calm.0 two [], (specs_calm.1.0 two [], tt))

not_iff_example :
    Answers (not_with sync_run (made any_value) two []) (¬ Accepts sync_run two [] (made any_value))
not_iff_example = not_iff sync_run two [] (made any_value) (specs_calm.0 two [])

forbidden_sequence_iff_example :
    Answers
      (forbidden_check specs true (list values) [])
      (¬ Embeds sync_run (to_list values) [] 0 specs)
forbidden_sequence_iff_example =
    forbidden_sequence_iff [] values (made any_value) (made (equality one)) [] specs_calm

forbidden_any_iff_example :
    Answers
      (forbidden_check specs false (list values) [])
      ((m : BaseMatcher) → In m specs → (k : ℕ) → 0 ≤ k → ¬ Hits sync_run (to_list values) [] m k)
forbidden_any_iff_example = forbidden_any_iff [] values specs specs_calm

forbidden_dual_example :
    accepted (forbidden_check specs true (list values) [])
    ≡ not (accepted (list_matcher_with sync_run specs ordered true (list values) []))
forbidden_dual_example =
    forbidden_dual [] values (made any_value) (made (equality one)) [] specs_calm

multiset_by_permutation_iff_example :
    Answers
      (multiset_by_permutation_with sync_run (to_list values) [] specs)
      (Assignable sync_run (to_list values) [] specs)
multiset_by_permutation_iff_example =
    multiset_by_permutation_iff sync_run (to_list values) [] specs specs_calm refl

unordered_injective_dfs_iff_example :
    Answers
      (unordered_injective_dfs_with sync_run (to_list values) [] true specs)
      (Assignable sync_run (to_list values) [] specs)
unordered_injective_dfs_iff_example =
    unordered_injective_dfs_iff sync_run (to_list values) [] true specs specs_calm

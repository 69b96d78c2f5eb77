-- ===== src/Match/Lists/Search.antt =====
-- match/lists.py: the two searches for an assignment of the expected elements to different items.
use agent_spec_kit.Common.{
  ℕ, suc, Bool, true, false, Option, none, some, List, [], ◌∷◌, ◌++◌, length, get_elem?, set,
  replicate,
}
use agent_spec_kit.Common.Outcome.{other_error, Outcome, returned, raised, ◌>>=◌}
use agent_spec_kit.Match.Value.{Value}
use agent_spec_kit.Match.Types.{FieldPath, MatchResult, success}
use agent_spec_kit.Match.Protocol.{Check, BaseMatcher}
use agent_spec_kit.Match.Lists.Payload.{at_index}
use agent_spec_kit.Match.Lists.Unordered.{ComparisonFailure, permutation_failure, injective_failure}
use agent_spec_kit.Match.Lists.Permutations.{permutations, positions}

abbrev pub failed_comparison : ℕ → ℕ → MatchResult → ComparisonFailure
failed_comparison i j r = record { expected_index = i; actual_index = j; errors = r.errors }

-- Where the depth-first search stands: the flags `used`, and the failed comparisons so far.
pub record Progress : Type 0 where
  pub used : List Bool
  pub failures : List ComparisonFailure

abbrev pub log_failure : ComparisonFailure → Progress → Progress
log_failure f s = record s { failures = s.failures ++ f ∷ [] }

abbrev pub mark : ℕ → Bool → Progress → Progress
mark j b s = record s { used = set s.used j b }

-- `used[j]`: an index out of range does not occur.
unfoldable pub is_used : List Bool → ℕ → Bool
is_used used j = elim (get_elem? used j) [ none ↦ true | some b ↦ b ]

module _ (run : BaseMatcher → Check) (actual : List Value) (path : FieldPath) where
  -- One permutation: the first comparison that fails, if any.
  unfoldable pub try_permutation :
      List BaseMatcher → List ℕ → ℕ → Outcome (Option ComparisonFailure)
  try_permutation [] js i = returned none
  try_permutation (m ∷ ms) [] i = returned none
  try_permutation (m ∷ ms) (j ∷ js) i = elim (get_elem? actual j) [
    | none ↦ raised (other_error "IndexError")
    | some v ↦ do
      r ← run m v (at_index path j)
      elim r.ok [
        | true ↦ try_permutation ms js (suc i)
        | false ↦ returned (some (failed_comparison i j r))
      ]
  ]

  unfoldable pub permutation_loop :
      List BaseMatcher → List (List ℕ) → List ComparisonFailure → Outcome MatchResult
  unfolding try_permutation permutation_failure
  permutation_loop specs [] failures = returned (permutation_failure actual path failures)
  permutation_loop specs (p ∷ ps) failures = do
    failed ← try_permutation specs p 0
    elim failed [
      | none ↦ returned success
      | some f ↦ permutation_loop specs ps (failures ++ f ∷ [])
    ]

  unfoldable pub multiset_by_permutation_with : List BaseMatcher → Outcome MatchResult
  unfolding permutation_loop permutations positions
  multiset_by_permutation_with specs =
      permutation_loop specs (permutations (length specs) (positions 0 (length specs))) []

  -- The loop over `j` of one call of `dfs`: `items` are the items from index `j` on, and `deeper`
  -- is the call for the next expected element. A flag that was set is reset when it comes back.
  unfoldable pub try_items :
      BaseMatcher
      → ℕ
      → (Progress → Outcome (Bool × Progress))
      → List Value
      → ℕ
      → Progress
      → Outcome (Bool × Progress)
  try_items m i deeper [] j s = returned (false, s)
  try_items m i deeper (v ∷ vs) j s = elim (is_used s.used j) [
    | true ↦ try_items m i deeper vs (suc j) s
    | false ↦ do
      r ← run m v (at_index path j)
      elim r.ok [
        | false ↦ try_items m i deeper vs (suc j) (log_failure (failed_comparison i j r) s)
        | true ↦ do
          (found, s') ← deeper (mark j true s)
          elim found [
            | true ↦ returned (true, s')
            | false ↦ try_items m i deeper vs (suc j) (mark j false s')
          ]
      ]
  ]

  unfoldable pub dfs : List BaseMatcher → ℕ → Progress → Outcome (Bool × Progress)
  unfolding try_items
  dfs [] i s = returned (true, s)
  dfs (m ∷ ms) i s = try_items m i (dfs ms (suc i)) actual 0 s

  unfoldable pub unordered_injective_dfs_with : Bool → List BaseMatcher → Outcome MatchResult
  unfolding dfs injective_failure
  unordered_injective_dfs_with allow_extras specs = do
    (found, s) ← dfs specs 0 (record { used = replicate (length actual) false; failures = [] })
    elim found [
      | true ↦ returned success
      | false ↦ returned (injective_failure allow_extras actual path s.failures)
    ]

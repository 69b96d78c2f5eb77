-- ===== src/Params/Axes.antt =====
-- fixture_graph.py: the parameter axes of the fixtures of a scenario, merged, and all combinations
-- of their cases. `merged` is an association list in the order of insertion, which is `name_order`.
use agent_spec_kit.Common.{
  Bool, true, false, Option, none, some, List, [], ◌∷◌, ◌++◌, map, String, str_eq, if◌then◌else◌,
  ◌&&◌,
}
use agent_spec_kit.Common.Outcome.{value_error, Outcome, returned, raised, ◌>>=◌}
use agent_spec_kit.Params.Cases.{Case}

-- `FixtureParamAxis`, and an entry of `merged`: a name with its cases.
abbrev pub Axis : Type 0 → Type 0
Axis V = String × List (Case V)

-- A case for each axis.
abbrev pub Combination : Type 0 → Type 0
Combination V = List (String × Case V)

module _ {V : Type 0} where
  unfoldable pub find_axis : String → List (Axis V) → Option (List (Case V))
  find_axis name [] = none
  find_axis name ((k, cs) ∷ merged) = if str_eq k name then some cs else find_axis name merged

  -- The same ids in the same order, which covers the comparison of the lengths.
  unfoldable pub same_ids : List (Case V) → List (Case V) → Bool
  same_ids [] [] = true
  same_ids (c ∷ cs) (d ∷ ds) = str_eq c.id d.id && same_ids cs ds
  same_ids cs ds = false

  -- One axis, by what `merged` has under its name.
  unfoldable pub merge_found :
      Option (List (Case V)) → Axis V → List (Axis V) → Outcome (List (Axis V))
  unfolding same_ids
  merge_found none ax merged = returned (merged ++ ax ∷ [])
  merge_found (some cs) ax merged = if same_ids cs ax.1 then returned merged else raised value_error

  -- The axes of all fixtures, in the topological order.
  unfoldable pub merge_param_axes : List (Axis V) → List (Axis V) → Outcome (List (Axis V))
  unfolding find_axis merge_found
  merge_param_axes [] merged = returned merged
  merge_param_axes (ax ∷ axes) merged = do
    next ← merge_found (find_axis ax.0 merged) ax merged
    merge_param_axes axes next

  unfoldable pub combine_each : String → List (Case V) → List (Combination V) → List (Combination V)
  combine_each k [] rest = []
  combine_each k (c ∷ cs) rest = map (λ t. (k, c) ∷ t) rest ++ combine_each k cs rest

  -- `itertools.product` over the cases of the axes, with the names: the last axis varies first.
  unfoldable pub combinations : List (Axis V) → List (Combination V)
  unfolding combine_each
  combinations [] = [] ∷ []
  combinations ((k, cs) ∷ merged) = combine_each k cs (combinations merged)

  unfoldable pub iter_param_case_combinations : List (Axis V) → Outcome (List (Combination V))
  unfolding merge_param_axes combinations
  iter_param_case_combinations axes = do
    merged ← merge_param_axes axes []
    returned (combinations merged)

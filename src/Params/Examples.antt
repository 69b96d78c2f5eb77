-- ===== src/Params/Examples.antt =====
-- Cases and axes at work.
use agent_spec_kit.Common.{ℕ, ◌≡◌, ◌⊎◌, ◌↔◌, none, String, List, [], ◌∷◌, map, In, All}
use agent_spec_kit.Common.Outcome.{value_error, Ensures, returned, raised}
use agent_spec_kit.Match.Value.{end}
use agent_spec_kit.Params.Cases.{Case, CaseSource, plain, normalize_case, normalize_cases}
use agent_spec_kit.Params.Axes.{Axis, Combination, combinations, merge_param_axes}
use agent_spec_kit.Params.Laws.Ids.{DistinctIds, normalize_cases_cases}
use agent_spec_kit.Params.Laws.Merge.{Agrees, Keeps, merge_param_axes-Agrees}
use agent_spec_kit.Params.Laws.Product.{Picks, combinations_iff}

abbrev numbers : List (CaseSource ℕ)
numbers = plain 1 "1" ∷ plain 2 "2" ∷ []

abbrev case_of : ℕ → String → Case ℕ
case_of n i = record { value = n; id = i; name = none; meta = end }

abbrev two_axes : List (Axis ℕ)
two_axes = ("size", case_of 1 "1" ∷ case_of 2 "2" ∷ []) ∷ ("depth", case_of 3 "3" ∷ []) ∷ []

abbrev one_choice : Combination ℕ
one_choice = ("size", case_of 2 "2") ∷ ("depth", case_of 3 "3") ∷ []

normalize_cases_cases_example :
    (DistinctIds (map normalize_case numbers)
      × (normalize_cases numbers ≡ returned (map normalize_case numbers)))
    ⊎ ((¬ DistinctIds (map normalize_case numbers))
        × (normalize_cases numbers ≡ raised value_error))
normalize_cases_cases_example = normalize_cases_cases numbers

combinations_iff_example : In one_choice (combinations two_axes) ↔ Picks two_axes one_choice
combinations_iff_example = combinations_iff two_axes one_choice

-- Two fixtures share an axis.
abbrev shared_axes : List (Axis ℕ)
shared_axes = ("size", case_of 1 "1" ∷ []) ∷ ("depth", []) ∷ ("size", case_of 7 "1" ∷ []) ∷ []

merge_param_axes-Agrees_example :
    Ensures Unit
      (λ out. All (Agrees out) shared_axes × Keeps [] out)
      (merge_param_axes shared_axes [])
merge_param_axes-Agrees_example = merge_param_axes-Agrees shared_axes []

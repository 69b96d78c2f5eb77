-- ===== src/Fixtures/Resolve.antt =====
-- fixture_graph.py: the values of the fixtures and the stack of teardowns.
use agent_spec_kit.Common.{
  String, Bool, true, false, ◌&&◌, ◌||◌, Option, none, some, List, [], ◌∷◌, ◌++◌, str_eq,
  if◌then◌else◌,
}
use mathlib.Core.List.{reverse}
use agent_spec_kit.Common.Outcome.{
  Exception, value_error, key_error, assertion_error, other_error, Outcome, returned, raised,
}
use agent_spec_kit.Common.Action.{
  Ended, completed, halted, Action, ◌>>=◌, ◌>>◌, complete, halt, handled,
}
use agent_spec_kit.Match.Value.{Value, Fields, end, field, get}
use agent_spec_kit.Params.Cases.{Case}
use agent_spec_kit.Params.Axes.{Axis, Combination, merge_param_axes, iter_param_case_combinations}
use agent_spec_kit.Fixtures.Registry.{
  yielded, stopped, Generator, FixtureFn, async_generator, generator, plain, FixtureDef,
  get_fixture, ScenarioDef,
}
use agent_spec_kit.Fixtures.Graph.{collect_needed_fixture_names, topo_fixture_order}

unfoldable pub case_of : String → Combination Value → Option (Case Value)
case_of k [] = none
case_of k ((j, c) ∷ cs) = if str_eq j k then some c else case_of k cs

-- `_dep_value`, by what `param_case` and `values` have.
unfoldable pub choose_value : Option (Case Value) → Option Value → Outcome Value
choose_value (some c) (some v) = raised value_error
choose_value (some c) none = returned c.value
choose_value none (some v) = returned v
choose_value none none = raised key_error

unfoldable pub dep_value :
    String → (values : Fields) (param_case : Combination Value) → Outcome Value
unfolding choose_value case_of get
dep_value dep values case = choose_value (case_of dep case) (get dep values)

-- `values[name] = value`
unfoldable pub set_value : String → Value → Fields → Fields
set_value k v end = field k v end
set_value k v (field j w fs) = if str_eq j k then field j v fs else field j w (set_value k v fs)

abbrev pub Teardown : Type 0 → Type 0
Teardown W = Action W Exception (Unit {0})

abbrev pub push_teardown :
    {W : Type 0} → List (Teardown W) → Option (Teardown W) → List (Teardown W)
push_teardown tds none = tds
push_teardown tds (some td) = tds ++ td ∷ []

-- The keyword arguments of a fixture.
unfoldable pub dep_values :
    (dep_names : List String) (values : Fields) (param_case : Combination Value) → Outcome Fields
unfolding dep_value
dep_values [] values case = returned end
dep_values (dep ∷ deps) values case = elim (dep_value dep values case) [
  | raised e ↦ raised e
  | returned v ↦ elim (dep_values deps values case) [
    | raised e ↦ raised e
    | returned rest ↦ returned (field dep v rest)
  ]
]

unfoldable pub has_axis : String → List (Axis Value) → Bool
has_axis k [] = false
has_axis k ((j, cs) ∷ axes) = str_eq j k || has_axis k axes

unfoldable pub all_axes : Combination Value → List (Axis Value) → Bool
unfolding has_axis
all_axes [] axes = true
all_axes ((k, c) ∷ case) axes = has_axis k axes && all_axes case axes

unfoldable pub all_cases : List (Axis Value) → Combination Value → Bool
unfolding case_of
all_cases [] case = true
all_cases ((k, cs) ∷ axes) case = elim (case_of k case) [
  | none ↦ false
  | some c ↦ all_cases axes case
]

-- The cases are given under the names of the merged axes, and no others.
unfoldable pub check_case : List (Axis Value) → Combination Value → Outcome (Unit {0})
unfolding all_axes all_cases
check_case axes case =
    if all_axes case axes && all_cases axes case then returned tt else raised value_error

-- The axes of the fixtures, in the order.
unfoldable pub axes_of : {W : Type 0} → List (FixtureDef W) → List String → List (Axis Value)
unfolding get_fixture
axes_of fixtures [] = []
axes_of fixtures (name ∷ order) = elim (get_fixture fixtures name) [
  | none ↦ axes_of fixtures order
  | some fd ↦ fd.param_axes ++ axes_of fixtures order
]

-- Before the loop: the order of the fixtures, if the cases fit; `none` is fuel that ran out.
unfoldable pub checked_order :
    {W : Type 0}
    → List (FixtureDef W)
    → Combination Value
    → Option (List String)
    → Outcome (Option (List String))
unfolding merge_param_axes check_case axes_of
checked_order fixtures case none = returned none
checked_order fixtures case (some order) = elim (merge_param_axes (axes_of fixtures order) []) [
  | raised e ↦ raised e
  | returned merged ↦ elim (check_case merged case) [
    | raised e ↦ raised e
    | returned u ↦ returned (some order)
  ]
]

-- The combinations of the cases of a scenario; `none` is fuel that ran out.
unfoldable pub scenario_case_runs :
    {W : Type 0}
    → List (FixtureDef W)
    → (iterate : List String → List String) → ScenarioDef
    → Outcome (Option (List (Combination Value)))
unfolding collect_needed_fixture_names topo_fixture_order iter_param_case_combinations axes_of
scenario_case_runs fixtures iterate scenario =
    elim (collect_needed_fixture_names fixtures iterate scenario) [
      | none ↦ returned none
      | some (raised e) ↦ raised e
      | some (returned needed) ↦ elim (topo_fixture_order fixtures iterate needed) [
        | raised e ↦ raised e
        | returned none ↦ returned none
        | returned (some order) ↦ elim (iter_param_case_combinations (axes_of fixtures order)) [
          | raised e ↦ raised e
          | returned combos ↦ returned (some combos)
        ]
      ]
    ]

unfoldable pub fixture_order :
    {W : Type 0}
    → List (FixtureDef W)
    → (iterate : List String → List String) → ScenarioDef
    → Combination Value
    → Outcome (Option (List String))
unfolding collect_needed_fixture_names topo_fixture_order checked_order
fixture_order fixtures iterate scenario case =
    elim (collect_needed_fixture_names fixtures iterate scenario) [
      | none ↦ returned none
      | some (raised e) ↦ raised e
      | some (returned needed) ↦ elim (topo_fixture_order fixtures iterate needed) [
        | raised e ↦ raised e
        | returned order ↦ checked_order fixtures case order
      ]
    ]

module _ {W : Type 0} where
  abbrev pub attempted : {A : Type 0} → Outcome A → Action W Exception A
  attempted (returned a) w = (completed a, w)
  attempted (raised e) w = (halted e, w)

  -- The teardown of a generator: it goes on once, and is closed unless that raises.
  unfoldable pub teardown_of : Generator W → Teardown W
  teardown_of g = g.resume >> handled g.close (λ r. complete tt)

  -- `_run_teardowns`: the last first, whatever they raise.
  unfoldable pub run_each : List (Teardown W) → W → W
  run_each [] w = w
  run_each (td ∷ tds) w = run_each tds (td w).1

  unfoldable pub run_teardowns : List (Teardown W) → W → W
  unfolding run_each
  run_teardowns tds w = run_each (reverse tds) w

  -- The value of a fixture, and its teardown if it has one. An async generator that stops at once
  -- raises, since a StopAsyncIteration has no attribute `value`.
  unfoldable pub call_fixture :
      FixtureFn W → Fields → Action W Exception (Value × Option (Teardown W))
  unfolding teardown_of
  call_fixture (plain fn) kwargs = do v ← fn kwargs; complete (v, none)
  call_fixture (generator fn) kwargs = do
    g ← fn kwargs
    r ← g.resume
    elim r [ yielded v ↦ complete (v, some (teardown_of g)) | stopped v ↦ complete (v, none) ]
  call_fixture (async_generator fn) kwargs = do
    g ← fn kwargs
    r ← g.resume
    elim r [
      | yielded v ↦ complete (v, some (teardown_of g))
      | stopped v ↦ halt (other_error "AttributeError")
    ]

  -- What the `try` around the loop does when a call inside it ends.
  abbrev pub guarded :
      {A B : Type 0}
      → List (Teardown W)
      → (A → Action W Exception B)
      → Ended Exception A
      → Action W Exception B
  guarded tds k (completed a) w = k a w
  guarded tds k (halted e) w = (halted e, run_teardowns tds w)

  -- The arguments and the call of one fixture.
  unfoldable pub resolve_one :
      Option (FixtureDef W)
      → (values : Fields) (param_case : Combination Value)
      → Action W Exception (Value × Option (Teardown W))
  unfolding dep_values call_fixture
  resolve_one none values case = halt assertion_error
  resolve_one (some fd) values case = do
    kwargs ← attempted (dep_values fd.dep_names values case)
    call_fixture fd.fn kwargs

  module _ (fixtures : List (FixtureDef W)) (param_case : Combination Value) where
    unfoldable pub resolve_each :
        (order : List String) (values : Fields) (teardowns : List (Teardown W))
        → Action W Exception (Fields × List (Teardown W))
    unfolding get_fixture resolve_one run_teardowns set_value
    resolve_each [] values tds = complete (values, tds)
    resolve_each (name ∷ order) values tds =
        handled (resolve_one (get_fixture fixtures name) values param_case) (
          guarded tds (λ r. resolve_each order (set_value name r.0 values) (push_teardown tds r.1)))

    abbrev resolve_order :
        Option (List String) → Action W Exception (Option (Fields × List (Teardown W)))
    resolve_order none = complete none
    resolve_order (some order) = do resolved ← resolve_each order end []; complete (some resolved)

    unfoldable pub resolve_fixtures :
        (iterate : List String → List String)
        → ScenarioDef
        → Action W Exception (Option (Fields × List (Teardown W)))
    unfolding fixture_order resolve_each
    resolve_fixtures iterate scenario = do
      order ← attempted (fixture_order fixtures iterate scenario param_case)
      resolve_order order

-- ===== src/Fixtures/Graph.antt =====
-- fixture_graph.py: the fixtures that a scenario needs and their topological order. A set is the list
-- of its members in the order of insertion; `iterate` is the order in which Python goes through it.
use agent_spec_kit.Common.{
  ℕ, zero, suc, ◌+◌, ◌-◌, String, Bool, true, false, not, ◌&&◌, Option, none, some, List, [], ◌∷◌,
  ◌++◌, map, str_eq, if◌then◌else◌, ◌==◌, length, contains,
}
use agent_spec_kit.Common.Outcome.{key_error, runtime_error, Outcome, returned, raised, ◌>>=◌}
use agent_spec_kit.Fixtures.Registry.{FixtureDef, ScenarioDef, get_fixture}

-- `needed.add(name)`
unfoldable pub add : List String → String → List String
unfolding contains
add names n = if contains names n then names else names ++ n ∷ []

unfoldable pub add_option : List String → Option String → List String
unfolding add
add_option names none = names
add_option names (some n) = add names n

module _ {W : Type 0} (fixtures : List (FixtureDef W)) where
  unfoldable pub is_fixture : String → Bool
  unfolding get_fixture
  is_fixture n = elim (get_fixture fixtures n) [ none ↦ false | some fd ↦ true ]

  -- The registered ones of the names, added to a set.
  unfoldable pub add_fixtures : List String → List String → List String
  unfolding add is_fixture
  add_fixtures names [] = names
  add_fixtures names (n ∷ ns) = add_fixtures (if is_fixture n then add names n else names) ns

  unfoldable pub initially_needed : ScenarioDef → List String
  unfolding add_fixtures add_option
  initially_needed s =
      add_option (add_option (add_fixtures [] s.fixture_param_names) s.agent_fixture) s.user_fixture

  -- The loop over `fd.dep_names`, which adds the new ones to `needed` and to the queue.
  unfoldable pub visit : (deps needed queue : List String) → List String × List String
  unfolding is_fixture contains
  visit [] needed queue = (needed, queue)
  visit (dep ∷ deps) needed queue =
      let is_new = is_fixture dep && not (contains needed dep) in
      visit deps (if is_new then needed ++ dep ∷ [] else needed)
        (if is_new then queue ++ dep ∷ [] else queue)

  -- The `while` loop, on fuel: `none` is a loop that had too little.
  unfoldable pub collect : (fuel : ℕ) (queue needed : List String) → Option (Outcome (List String))
  unfolding visit get_fixture
  collect zero queue needed = none
  collect (suc fuel) [] needed = some (returned needed)
  collect (suc fuel) (name ∷ queue) needed = elim (get_fixture fixtures name) [
    | none ↦ some (raised key_error)
    | some fd ↦ collect fuel (visit fd.dep_names needed queue).1 (visit fd.dep_names needed queue).0
  ]

  -- Enough fuel: every registered fixture is queued once, and two names that may not be registered.
  abbrev pub enough : ScenarioDef → ℕ
  enough s = suc (length fixtures + length (initially_needed s))

  unfoldable pub collect_needed_fixture_names :
      (iterate : List String → List String) → ScenarioDef → Option (Outcome (List String))
  unfolding initially_needed collect
  collect_needed_fixture_names iterate s =
      collect (enough s) (iterate (initially_needed s)) (initially_needed s)

-- A dict from names.
module _ {ℓ} {V : Type ℓ} where
  unfoldable pub get_or : V → List (String × V) → String → V
  get_or v [] k = v
  get_or v ((j, w) ∷ m) k = if str_eq j k then w else get_or v m k

  unfoldable pub change : (V → V) → List (String × V) → String → List (String × V)
  change f [] k = []
  change f ((j, w) ∷ m) k = if str_eq j k then (j, f w) ∷ m else (j, w) ∷ change f m k

-- `dependents` and `in_degree`.
abbrev pub Degrees : Type 0
Degrees = List (String × List String) × List (String × ℕ)

module _ {W : Type 0} (fixtures : List (FixtureDef W)) (iterate : List String → List String) where
  -- The loop over the dependencies of one fixture.
  unfoldable pub count_deps :
      (needed : List String) (name : String) → List String → Degrees → Outcome Degrees
  unfolding is_fixture contains change add
  count_deps needed name [] d = returned d
  count_deps needed name (dep ∷ deps) d =
      let rest = count_deps needed name deps in
      if not (is_fixture fixtures dep)
      then rest d
      else if not (contains needed dep)
      then raised key_error
      else rest (change (λ s. add s name) d.0 dep, change suc d.1 name)

  -- The loop over the fixtures; a name that is not registered is a KeyError.
  unfoldable pub count_all : (needed names : List String) → Degrees → Outcome Degrees
  unfolding get_fixture count_deps
  count_all needed [] d = returned d
  count_all needed (name ∷ names) d = elim (get_fixture fixtures name) [
    | none ↦ raised key_error
    | some fd ↦ do next ← count_deps needed name fd.dep_names d; count_all needed names next
  ]

  unfoldable pub of_degree_zero : List (String × ℕ) → List String → List String
  unfolding get_or
  of_degree_zero degrees [] = []
  of_degree_zero degrees (n ∷ ns) =
      let rest = of_degree_zero degrees ns in if get_or 0 degrees n == 0 then n ∷ rest else rest

  -- The loop over the dependents of a fixture that is done: a degree is 0 after the decrement if it
  -- was 1 before.
  unfoldable pub release :
      List String
      → (degrees : List (String × ℕ)) (ready : List String) → List (String × ℕ) × List String
  unfolding change get_or
  release [] degrees ready = (degrees, ready)
  release (m ∷ ms) degrees ready =
      release ms (change (λ n. n - 1) degrees m)
        (if get_or 0 degrees m == 1 then ready ++ m ∷ [] else ready)

  -- The `while` loop, on fuel.
  unfoldable pub sort_ready :
      (fuel : ℕ) (dependents : List (String × List String)) (degrees : List (String × ℕ))
      (ready order : List String)
      → Option (List String)
  unfolding release get_or
  sort_ready zero dependents degrees ready order = none
  sort_ready (suc fuel) dependents degrees [] order = some order
  sort_ready (suc fuel) dependents degrees (n ∷ ready) order =
      let next = release (iterate (get_or [] dependents n)) degrees ready in
      sort_ready fuel dependents next.0 next.1 (order ++ n ∷ [])

  -- With one round for each fixture and one more.
  unfoldable pub topo_fixture_order : (needed : List String) → Outcome (Option (List String))
  unfolding count_all of_degree_zero sort_ready
  topo_fixture_order needed = do
    d ← count_all needed (iterate needed) (map (λ n. (n, [])) needed, map (λ n. (n, 0)) needed)
    elim (sort_ready (suc (length needed)) d.0 d.1 (of_degree_zero d.1 (iterate needed)) []) [
      | none ↦ returned none
      | some order ↦
          if length order == length needed then returned (some order) else raised runtime_error
    ]

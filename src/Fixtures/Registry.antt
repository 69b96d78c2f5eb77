-- ===== src/Fixtures/Registry.antt =====
-- registries.py: what the decorators register. `W` is the state that fixtures reach.
use agent_spec_kit.Common.{
  String, ◌&&◌, Option, none, some, List, [], ◌∷◌, ◌++◌, str_eq, if◌then◌else◌,
}
use agent_spec_kit.Common.Outcome.{Exception, runtime_error, Outcome, returned, raised}
use agent_spec_kit.Common.Action.{Action}
use agent_spec_kit.Match.Value.{Value, Fields}
use agent_spec_kit.Params.Axes.{Axis}

-- How a generator goes on: it yields a value or stops with one.
pub data Resumed : Type 0 where
  yielded : Value → Resumed
  stopped : Value → Resumed

-- A generator that a call made, and its `close`.
pub record Generator (W : Type 0) : Type 0 where
  pub resume : Action W Exception Resumed
  pub close : Action W Exception (Unit {0})

-- The function of a fixture: an async generator, a generator, or another function, awaited if need be.
pub data FixtureFn (W : Type 0) : Type 0 where
  async_generator : (Fields → Action W Exception (Generator W)) → FixtureFn W
  generator : (Fields → Action W Exception (Generator W)) → FixtureFn W
  plain : (Fields → Action W Exception Value) → FixtureFn W

pub record FixtureDef (W : Type 0) : Type 0 where
  pub name : String
  pub fn : FixtureFn W
  pub dep_names : List String
  pub param_axes : List (Axis Value)

-- The fields of a scenario that say which fixtures it needs, and those by which it is found.
pub record ScenarioDef : Type 0 where
  pub name : String
  pub module_name : String
  pub agent_fixture : Option String
  pub user_fixture : Option String
  pub fixture_param_names : List String

-- `_fixtures`, by the order of registration, and `_scenarios`.
pub record Registries (W : Type 0) : Type 0 where
  pub fixtures : List (FixtureDef W)
  pub scenarios : List ScenarioDef

unfoldable pub reset_registries : {W : Type 0} → Registries W
reset_registries = record { fixtures = []; scenarios = [] }

module _ {W : Type 0} where
  unfoldable pub get_fixture : List (FixtureDef W) → String → Option (FixtureDef W)
  get_fixture [] name = none
  get_fixture (fd ∷ fds) name = if str_eq fd.name name then some fd else get_fixture fds name

  unfoldable pub register_fixture : FixtureDef W → Registries W → Outcome (Registries W)
  unfolding get_fixture
  register_fixture fd r = elim (get_fixture r.fixtures fd.name) [
    | some existing ↦ raised runtime_error
    | none ↦ returned (record r { fixtures = r.fixtures ++ fd ∷ [] })
  ]

  unfoldable pub register_scenario : ScenarioDef → Registries W → Registries W
  register_scenario s r = record r { scenarios = r.scenarios ++ s ∷ [] }

unfoldable pub find_scenario : (module_name name : String) → List ScenarioDef → Option ScenarioDef
find_scenario m n [] = none
find_scenario m n (s ∷ ss) =
    if str_eq s.module_name m && str_eq s.name n then some s else find_scenario m n ss

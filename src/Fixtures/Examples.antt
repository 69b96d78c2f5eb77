-- ===== src/Fixtures/Examples.antt =====
-- The graph of two fixtures, of which one needs the other.
use agent_spec_kit.Common.{ℕ, ◌+◌, ◌≡◌, refl, String, none, some, List, [], ◌∷◌}
use agent_spec_kit.Common.Outcome.{returned}
use agent_spec_kit.Common.Action.{completed}
use agent_spec_kit.Match.Value.{str, null}
use agent_spec_kit.Fixtures.Registry.{yielded, Generator, generator, plain, FixtureDef, ScenarioDef}
use agent_spec_kit.Fixtures.Graph.{collect_needed_fixture_names}
use agent_spec_kit.Fixtures.Resolve.{fixture_order}
use agent_spec_kit.Fixtures.Laws.Roots.{IsNamed}
use agent_spec_kit.Fixtures.Laws.Needed.{
  Iterates, IsClosure, collect_needed_fixture_names-IsClosure,
}

abbrev in_order : List String → List String
in_order names = names

in_order-Iterates : Iterates in_order
in_order-Iterates = record {
  same_members = λ names x. (λ m. m, λ m. m);
  same_length = λ names. refl;
}

-- A database that is closed behind the test, and an agent that uses it. The world counts the calls.
abbrev counted : Generator ℕ
counted = record {
  resume = λ n. (completed (yielded (str "connection")), n + 1);
  close = λ n. (completed tt, n + 1);
}

abbrev database : FixtureDef ℕ
database = record {
  name = "database";
  fn = generator (λ kwargs n. (completed counted, n));
  dep_names = [];
  param_axes = [];
}

abbrev assistant : FixtureDef ℕ
assistant = record {
  name = "assistant";
  fn = plain (λ kwargs n. (completed null, n));
  dep_names = "database" ∷ [];
  param_axes = [];
}

abbrev both : List (FixtureDef ℕ)
both = assistant ∷ database ∷ []

abbrev chat : ScenarioDef
chat = record {
  name = "chat";
  module_name = "tests";
  agent_fixture = some "assistant";
  user_fixture = none;
  fixture_param_names = [];
}

collect_needed_fixture_names-IsClosure_example :
    IsClosure both (IsNamed both chat) (collect_needed_fixture_names both in_order chat)
collect_needed_fixture_names-IsClosure_example =
    collect_needed_fixture_names-IsClosure both in_order chat in_order-Iterates

chat_order : fixture_order both in_order chat [] ≡ returned (some ("database" ∷ "assistant" ∷ []))
unfolding fixture_order
chat_order = refl

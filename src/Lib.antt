-- ===== src/Lib.antt =====
-- A model of the core of agent-spec-kit, a library for tests of agents: specifications of values,
-- in particular of the tool calls of an agent, and the matchers that check them
-- (src/agent_spec_kit/match); scenarios, which queue and run the steps of a conversation and check its
-- turns (scenario_core.py, events.py, run.py); the shrinking of conversations that reproduce a failure
-- (src/agent_spec_kit/shrink_engine.py); and the fixtures with their
-- dependencies and parameter cases (src/agent_spec_kit/registries.py, fixture_graph.py,
-- param_cases.py).
--
-- A matcher is a pair of methods, `check` and `async_check`, that take a value and the path to it,
-- and return a result: `ok`, and errors with paths. Matchers hold other matchers and call the same
-- method of them. In the source the two methods have the same text, but for the calls of the inner
-- method and one message; each definition whose name ends in `_with` therefore takes the method
-- `run` that it calls, and stands for both (`sync_run`, `async_run`). An `await` in them has no
-- effect on state that two of them share, so that an outcome is a value or an exception.
--
-- Files, by the part of the source that they model:
--   * Common: lists and tests over the native natural numbers, integers, outcomes.
--   * Match.Value, Match.Numbers, Match.Compare: the Python values that the matchers look at, the
--     conversion of an int to a float (round half to even, overflow), `==` and the order.
--     A float is a dyadic number, an infinity or a NaN. Values have no identity but that of an
--     object: a NaN in a list equals no element. A pydantic model carries what `model_dump` gives.
--   * Match.Types: types.py. A text keeps the values whose `repr` or `str` the source prints.
--   * Match.Protocol: protocol.py, and the choice of a representative error (lists.py, scalars.py).
--   * Match.Scalars, Match.Combinators: scalars.py and transform.py.
--   * Match.Lists.Payload, .Reports, .Ordered, .Unordered, .Permutations, .Search, .Class: lists.py.
--     `Permutations` enumerates as `itertools.permutations` does; `Search` is the exhaustive and
--     the depth-first search, whose nested function and flags are explicit state.
--   * Match.Rules, Match.Mapping, Match.Object, Match.Forbidden: rules.py, mapping.py, object.py,
--     forbidden.py.
--   * Match.Matcher: the matcher classes as one data type, and the methods of each (`interpret`).
--   * Match.Spec: what a user may write for a matcher, its coercion (`coerce_any`), and api.py.
--   * Match.Laws: what is proved, by topic. `Report` states the contract of a check, `Assignment`
--     and `Subsequence` the abstract specifications of the list matchers.
--   * Match.Examples: tests, and the theorems applied to small values.
--
-- The shrinking of conversations is apart from the matchers, but for `str.strip`:
--   * Shrink.Turns: the candidates of the passes and the choice of the lightest.
--   * Shrink.Engine, Shrink.Passes: the loops, and the sequence of the passes with the one limit that
--     they share; shrink/llm_simplify.py. `verify_batch` and the call of a model are functions that
--     change the state of the world and may raise.
--   * Shrink.Laws, Shrink.Examples: what is proved, by topic; tests, and the theorems applied.
--
-- The parameters of fixtures:
--   * Params.Cases: param_cases.py. Params.Axes: the merge of the axes and the combinations of cases
--     of fixture_graph.py; an association list is `merged` and `name_order` at once.
--   * Params.Laws, Params.Examples: what is proved; the theorems applied.
--
-- Scenarios:
--   * Scenario.Events: events.py and run.py. Scenario.ToolCalls: the tool calls of a turn as dicts, from
--     its events and from the JSON of a stored transcript (cli.py, `_to_jsonable`), in which
--     "children" and "events" are lists or missing and "metadata" is a dict or missing.
--   * Scenario.State: the steps, the object `Scenario` and failure records. Scenario.Records: the
--     records that the checks raise. Scenario.Arguments: what a check looks at.
--   * Scenario.Segments: turns, user messages, simulation. Scenario.Checked: what the
--     steps that check turns look at. Scenario.Steps: `_dispatch_step` and
--     `materialise`. Scenario.Build: the methods that queue steps, and the checks of a body.
--   * Scenario.Laws: what is proved, by topic. Scenario.Examples: tests, and the theorems applied.
-- A method is an `Action` (Common.Action): it completes or halts, and what it wrote before stays
-- written. `W` is the state of what agents and callables reach; they do not reach the scenario itself.
-- An `await` lets nothing else change the scenario. `str` of values and exceptions and the decimal
-- print of a number are parameters. The loop of a simulation recurs on the turns that are left of
-- `max_turns`, and that of `materialise` on the steps that are left.
--
-- Fixtures:
--   * Fixtures.Registry: registries.py. Fixtures.Graph: the needed fixtures and the topological order of
--     fixture_graph.py. A set is the list of its members by insertion, and `iterate` the order in which
--     Python goes through it; both `while` loops run on fuel. Fixtures.Resolve: values and teardowns.
--   * Fixtures.Laws, Fixtures.Examples: what is proved; the theorems applied.
--
-- Generated conversations:
--   * Generative.Context: fuzz_context.py. Generative.Trials: isolated_generative.py, the steps of a
--     trial and the merged steps, from the scenario that is made for the trial on. A strategy is a
--     parameter: whether it makes all messages at once, and the method that makes them, with the
--     number that the trial and the segment add to the seed.
--     Generative.Probe: what a probe does after the recording: its mode, the guard on the numbers of
--     trials, and the messages that the trials are given.
--   * Generative.Laws, Generative.Examples: what is proved; the theorems applied.
--
-- Failure reports (failures.py):
--   * Failures.Trace: the turns and the events that are shown. Failures.Location: the step and the
--     turn in words, and the value at a path. Absent turns and no turns are the same list, as the
--     source treats them alike here.
--   * Failures.Laws, Failures.Examples: what is proved; tests and the theorem applied.
--
-- User code is a parameter: a predicate, a hook and a transformation return a value or raise with a
-- text; a user's matcher is `custom` with its two methods; `json.loads` is a function into optional
-- values; a regular expression is its source and a function into truth values; the printer of
-- matchers is a function into texts. In Match every recursion is structural. The loops of Shrink run
-- on fuel, and `none` is a loop that had too little: one more than the number of turns suffices for
-- the removal of turns, and one more than the limit for any pass under a limit.
-- The bound `_MAX_PERM` is 9.
--
-- Not modelled: the printer of specifications, the summaries of a counterexample, the fixtures and the
-- shrinking of a generated run, and the other parts of the package: the runner, the extraction of tool
-- calls, the store of results with its SQL, the command line but for one function, the web interface,
-- adapters of other libraries, and calls of remote models.
pub mod Common
pub mod Failures
pub mod Fixtures
pub mod Generative
pub mod Match
pub mod Params
pub mod Scenario
pub mod Shrink

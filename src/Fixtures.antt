-- ===== src/Fixtures.antt =====
-- registries.py and fixture_graph.py: the registry of fixtures and scenarios, and the graph of the
-- fixtures that a scenario needs.
pub mod Registry
pub mod Graph
pub mod Resolve
pub mod Laws
mod Examples

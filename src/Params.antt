-- ===== src/Params.antt =====
-- param_cases.py, and the parameter axes of fixture_graph.py.
pub mod Cases
pub mod Axes
pub mod Laws
mod Examples

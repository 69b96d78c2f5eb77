-- ===== src/Scenario.antt =====
-- events.py, run.py and scenario_core.py: the turns of a conversation and the scenario that queues
-- and runs steps.
pub mod Events
pub mod ToolCalls
pub mod State
pub mod Records
pub mod Segments
pub mod Arguments
pub mod Checked
pub mod Steps
pub mod Build
pub mod Laws
mod Examples

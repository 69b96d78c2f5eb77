-- ===== src/Shrink.antt =====
-- shrink_engine.py: smaller conversations that still reproduce a failure.
pub mod Turns
pub mod Engine
pub mod Passes
pub mod Laws
mod Examples

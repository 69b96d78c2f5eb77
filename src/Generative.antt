-- ===== src/Generative.antt =====
-- isolated_generative.py, fuzz_context.py and generative.py: the trials of a generated conversation.
pub mod Context
pub mod Trials
pub mod Probe
pub mod Laws
mod Examples

-- ===== src/Shrink/Laws.antt =====
-- What is proved of the shrink passes, by topic.
pub mod Winners
pub mod Reproduction
pub mod Limits
pub mod Termination
pub mod Minimality

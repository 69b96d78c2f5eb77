-- ===== src/Scenario/Laws.antt =====
-- What is proved of scenarios, by topic.
pub mod Transcripts
pub mod Frame
pub mod Turns
pub mod Progress
pub mod Choice
pub mod PostChecks
pub mod Asserts
pub mod Clean
pub mod Errors

-- ===== src/Generative/Laws.antt =====
-- What is proved of trials.
pub mod Blind
pub mod TrialCount
pub mod Probe
pub mod Replay

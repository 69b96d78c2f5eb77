-- ===== src/Failures/Laws.antt =====
-- What is proved of failure reports.
pub mod Window

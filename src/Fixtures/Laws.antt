-- ===== src/Fixtures/Laws.antt =====
-- What is proved of the graph of fixtures.
pub mod Roots
pub mod Visit
pub mod Needed

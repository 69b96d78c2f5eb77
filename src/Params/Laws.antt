-- ===== src/Params/Laws.antt =====
-- What is proved of cases and axes.
pub mod Ids
pub mod Product
pub mod Merge

-- ===== src/Match/Lists.antt =====
-- match/lists.py: matchers of lists.
pub mod Payload
pub mod Reports
pub mod Ordered
pub mod Unordered
pub mod Permutations
pub mod Search
pub mod Class

-- ===== src/Match/Laws.antt =====
-- What the matchers guarantee.
pub mod Assignment
pub mod Search
pub mod Unordered
pub mod Permutations
pub mod Exhaustive
pub mod Verdicts
pub mod Subsequence
pub mod Forbidden
pub mod Report
pub mod Scalars
pub mod Combinators
pub mod OrderedReport
pub mod UnorderedReport
pub mod ObjectReport
pub mod ForbiddenReport
pub mod Contract
pub mod Gathering
pub mod Pointwise
pub mod Choices
pub mod ObjectVerdict

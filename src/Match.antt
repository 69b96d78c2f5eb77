-- ===== src/Match.antt =====
-- The package match: values, results, matchers, and the matcher classes.
pub mod Value
pub mod Numbers
pub mod Compare
pub mod Types
pub mod Protocol
pub mod Scalars
pub mod Combinators
pub mod Lists
pub mod Rules
pub mod Mapping
pub mod Object
pub mod Forbidden
pub mod Matcher
pub mod Spec
pub mod Laws
mod Examples

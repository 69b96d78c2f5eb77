-- ===== src/Failures.antt =====
-- failures.py: what a failure report shows of a conversation, and where it says the failure is.
pub mod Trace
pub mod Location
pub mod Laws
mod Examples

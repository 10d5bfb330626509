-- ===== src/Backtester.antt =====
-- The backtester, services/backtester.
pub mod Models
pub mod Portfolio
pub mod Execution
pub mod Lifecycle
pub mod Slicing
pub mod Runtime
pub mod Exits
pub mod Entries
pub mod Engine
pub mod Outcome
pub mod Keeps
pub mod Consistent
pub mod Books
pub mod Causal
mod Tests

-- ===== src/PaperTrading.antt =====
-- The paper trading orchestrator, services/paper_trading.
pub mod Enums
pub mod Transitions
pub mod Fairness
mod Tests

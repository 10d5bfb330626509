-- ===== src/RiskEngine.antt =====
-- The risk engine, services/risk_engine, with services/trading_constraints.
pub mod Models
pub mod Rounding
pub mod Constraints
pub mod Validation
pub mod LossLimits
pub mod Sizing
pub mod Portfolio
pub mod Step
pub mod Engine
mod Tests

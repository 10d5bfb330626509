-- ===== src/StrategyEngine.antt =====
-- The strategy engine, services/strategy_engine.
pub mod Codes
pub mod Models
pub mod Filters
pub mod Readings
pub mod Outcome
pub mod Engine
pub mod Validation
pub mod Indicators
pub mod Stops
mod Tests

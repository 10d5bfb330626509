-- ===== src/MarketData.antt =====
-- services/market_data: the calendar of candles, their validation, gaps and the merge of two sources.
pub mod Models
pub mod Timeframes
pub mod Validation
pub mod Series
pub mod Gaps
pub mod Merge
pub mod Aggregation
mod Tests

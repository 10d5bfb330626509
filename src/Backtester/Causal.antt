-- ===== src/Backtester/Causal.antt =====
-- A history, extended by what comes later.
pub mod Slices
pub mod Steps
pub mod Days
use save_money_trading_bot.Prelude.{◌≤◌, ◌<◌, String, List, ◌++◌, All}
use save_money_trading_bot.StrategyEngine.Models.{Time, Candle}
use save_money_trading_bot.Backtester.Models.{HistoricalDataBundle, FundingEvent}
use save_money_trading_bot.Backtester.Slicing.{evaluation_time_for_daily}

-- The bundle with the candles and the funding events of another behind its own.
abbrev pub extended : HistoricalDataBundle → HistoricalDataBundle → HistoricalDataBundle
extended bundle late = record {
  daily = λ s. bundle.daily s ++ late.daily s;
  weekly = λ s. bundle.weekly s ++ late.weekly s;
  monthly = λ s. bundle.monthly s ++ late.monthly s;
  funding = λ s. bundle.funding s ++ late.funding s;
}

-- A daily candle that opens, and is evaluated, up to the horizon.
pub record IsDue (horizon : Time) (c : Candle) : Type 0 where
  pub opened : c.open_time ≤ horizon
  pub evaluated : evaluation_time_for_daily c ≤ horizon

-- Every daily candle of the bundle is due.
abbrev pub IsPast : Time → HistoricalDataBundle → Type 0
IsPast horizon bundle = (s : String) → All (IsDue horizon) (bundle.daily s)

-- What the bundle has is later than the horizon: daily candles open after it, candles of all timeframes
-- close after it, and funding events come after it.
pub record IsLater (horizon : Time) (late : HistoricalDataBundle) : Type 0 where
  pub opens : (s : String) → All (λ (c : Candle). horizon < c.open_time) (late.daily s)
  pub daily : (s : String) → All (λ (c : Candle). horizon < c.close_time) (late.daily s)
  pub weekly : (s : String) → All (λ (c : Candle). horizon < c.close_time) (late.weekly s)
  pub monthly : (s : String) → All (λ (c : Candle). horizon < c.close_time) (late.monthly s)
  pub funding : (s : String) → All (λ (ev : FundingEvent). horizon < ev.timestamp) (late.funding s)

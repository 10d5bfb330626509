-- ===== src/MarketData/Models.antt =====
-- services/market_data/models.py: symbols, timeframes, candles, gaps, conflicts and reports. The
-- connection of the service and its snapshots are left out.
use save_money_trading_bot.Prelude.{ℕ, String, Bool, true, false, Option, List, any, ◌==◌}
use save_money_trading_bot.Decimal.{Decimal}
use save_money_trading_bot.StrategyEngine.Models.{Time}

pub data MarketSymbol : Type 0 where
  btc eth sol : MarketSymbol

abbrev pub same_symbol : MarketSymbol → MarketSymbol → Bool
same_symbol btc btc = true
same_symbol eth eth = true
same_symbol sol sol = true
same_symbol _ _ = false

pub data MarketTimeframe : Type 0 where
  market_daily market_weekly market_monthly : MarketTimeframe

abbrev pub same_market_timeframe : MarketTimeframe → MarketTimeframe → Bool
same_market_timeframe market_daily market_daily = true
same_market_timeframe market_weekly market_weekly = true
same_market_timeframe market_monthly market_monthly = true
same_market_timeframe _ _ = false

pub data DataQualityStatus : Type 0 where
  status_valid status_stale status_incomplete status_invalid status_disconnected : DataQualityStatus

pub data MarketDataReasonCode : Type 0 where
  md_valid md_stale md_incomplete md_invalid md_disconnected md_duplicate_identical :
      MarketDataReasonCode
  md_duplicate_conflict md_gap_detected md_backfill_failed md_open_candle_excluded :
      MarketDataReasonCode
  md_future_candle md_invalid_ohlc md_invalid_volume md_invalid_timeframe md_unknown_symbol :
      MarketDataReasonCode

-- The position of a code in the enumeration, to compare codes.
abbrev pub code_index : MarketDataReasonCode → ℕ
code_index md_valid = 0
code_index md_stale = 1
code_index md_incomplete = 2
code_index md_invalid = 3
code_index md_disconnected = 4
code_index md_duplicate_identical = 5
code_index md_duplicate_conflict = 6
code_index md_gap_detected = 7
code_index md_backfill_failed = 8
code_index md_open_candle_excluded = 9
code_index md_future_candle = 10
code_index md_invalid_ohlc = 11
code_index md_invalid_volume = 12
code_index md_invalid_timeframe = 13
code_index md_unknown_symbol = 14

-- `c in codes`
abbrev pub has_code : MarketDataReasonCode → List MarketDataReasonCode → Bool
has_code c = any (λ d. code_index d == code_index c)

pub record RawCandle : Type 0 where
  pub provider_symbol : String
  pub timeframe : MarketTimeframe
  pub open_time : Time
  pub close_time : Time
  pub open_price : Decimal
  pub high : Decimal
  pub low : Decimal
  pub close : Decimal
  pub volume : Decimal
  pub is_closed : Bool

pub record NormalizedCandle : Type 0 where
  pub symbol : MarketSymbol
  pub timeframe : MarketTimeframe
  pub open_time : Time
  pub close_time : Time
  pub open_price : Decimal
  pub high : Decimal
  pub low : Decimal
  pub close : Decimal
  pub volume : Decimal
  pub is_closed : Bool

pub record CandleKey : Type 0 where
  pub symbol : MarketSymbol
  pub timeframe : MarketTimeframe
  pub open_time : Time

pub record CandleGap : Type 0 where
  pub symbol : MarketSymbol
  pub timeframe : MarketTimeframe
  pub missing_open_time : Time
  pub expected_close_time : Time

pub record CandleConflict : Type 0 where
  pub key : CandleKey
  pub existing : NormalizedCandle
  pub incoming : NormalizedCandle

-- The messages are left out.
pub record DataQualityReport : Type 0 where
  pub status : DataQualityStatus
  pub reason_codes : List MarketDataReasonCode
  pub gaps : List CandleGap
  pub conflicts : List CandleConflict
  pub missing_ranges : List (Time × Time)
  pub last_known_candle : Option NormalizedCandle
  pub expected_next_open : Option Time
  pub evaluation_time : Time

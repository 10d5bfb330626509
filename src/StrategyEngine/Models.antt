-- ===== src/StrategyEngine/Models.antt =====
-- services/strategy_engine/models.py and constants.py. Times are whole numbers of microseconds since
-- an epoch, which keeps their order; `StrategyError` keeps its code and message.
use save_money_trading_bot.Prelude.{ℕ, String, Bool, Option, List, length}
use save_money_trading_bot.Decimal.{Decimal, dec}
use save_money_trading_bot.StrategyEngine.Codes.{
  ReasonCode, EntryType, SignalIntentKind, Timeframe, DataQualityStatus,
}

-- A `datetime`.
abbrev pub Time : Type 0
Time = ℕ

-- The prices `open` and so on carry their word, since `open` is a keyword.
pub record Candle : Type 0 where
  pub symbol : String
  pub timeframe : Timeframe
  pub open_time : Time
  pub close_time : Time
  pub open_price : Decimal
  pub high : Decimal
  pub low : Decimal
  pub close : Decimal
  pub volume : Decimal
  pub is_closed : Bool

pub record CandleSeries : Type 0 where
  pub symbol : String
  pub timeframe : Timeframe
  pub candles : List Candle

abbrev pub series_length : CandleSeries → ℕ
series_length s = length s.candles

-- The integer periods; the indicators refuse a period of zero.
pub record StrategyParameters : Type 0 where
  pub version : String
  pub monthly_ema_period : ℕ
  pub weekly_ema_fast : ℕ
  pub weekly_ema_slow : ℕ
  pub daily_ema_period : ℕ
  pub breakout_lookback : ℕ
  pub atr_period : ℕ
  pub volume_sma_period : ℕ
  pub volume_ratio_min : Decimal
  pub pullback_ema_tolerance : Decimal
  pub stop_initial_atr_mult : Decimal
  pub trail_atr_mult : Decimal

-- constants.py
abbrev pub strategy_version : String
strategy_version = "1.0.0"

-- `StrategyParameters()`
abbrev pub default_parameters : StrategyParameters
default_parameters = record {
  version = strategy_version;
  monthly_ema_period = 20;
  weekly_ema_fast = 20;
  weekly_ema_slow = 50;
  daily_ema_period = 20;
  breakout_lookback = 20;
  atr_period = 14;
  volume_sma_period = 20;
  volume_ratio_min = dec 100 2;
  pullback_ema_tolerance = dec 5 3;
  stop_initial_atr_mult = dec 25 1;
  trail_atr_mult = dec 30 1;
}

-- The index -1 of an evaluation that computed no indicator is `none`.
pub record IndicatorSnapshot : Type 0 where
  pub evaluation_index : Option ℕ
  pub ema20_daily : Option Decimal
  pub ema20_weekly : Option Decimal
  pub ema50_weekly : Option Decimal
  pub ema20_monthly : Option Decimal
  pub atr14_daily : Option Decimal
  pub volume_sma20 : Option Decimal
  pub volume_ratio : Option Decimal
  pub high20 : Option Decimal
  pub monthly_close : Option Decimal

pub record RegimeResult : Type 0 where
  pub regime_long : Bool
  pub monthly_close : Option Decimal
  pub ema20_monthly : Option Decimal
  pub reason_code : Option ReasonCode

pub record TrendResult : Type 0 where
  pub trend_confirmed : Bool
  pub ema20_weekly : Option Decimal
  pub ema50_weekly : Option Decimal
  pub reason_code : Option ReasonCode

pub record PullbackConditions : Type 0 where
  pub p1_close_above_ema : Bool
  pub p2_low_touches_ema : Bool
  pub p3_prior_close_above_ema : Bool
  pub p4_regime_long : Bool
  pub p5_trend_confirmed : Bool
  pub p6_volume_ok : Bool

pub record EntrySetupResult : Type 0 where
  pub breakout_entry : Bool
  pub pullback_entry : Bool
  pub breakout_price_condition : Bool
  pub close_above_ema20 : Bool
  pub volume_ok : Bool
  pub pullback_conditions : PullbackConditions
  pub high20 : Option Decimal
  pub ema_touch_upper : Option Decimal

pub record SignalIntent : Type 0 where
  pub kind : SignalIntentKind
  pub entry_type : Option EntryType
  pub entry_price : Option Decimal
  pub stop_initial : Option Decimal
  pub primary_reason_code : Option ReasonCode

pub record StrategyError : Type 0 where
  pub code : ReasonCode
  pub message : String

pub record StrategyEvaluation : Type 0 where
  pub symbol : String
  pub evaluation_time : Time
  pub version : String
  pub parameters : StrategyParameters
  pub monthly_regime : RegimeResult
  pub weekly_trend : TrendResult
  pub breakout_result : EntrySetupResult
  pub pullback_result : EntrySetupResult
  pub indicators : IndicatorSnapshot
  pub volume_ratio : Option Decimal
  pub atr : Option Decimal
  pub selected_entry_type : Option EntryType
  pub signal_intent : SignalIntent
  pub reason_codes : List ReasonCode
  pub data_quality_status : DataQualityStatus
  pub errors : List StrategyError

pub record TrailingStopState : Type 0 where
  pub entry_price : Decimal
  pub stop_initial : Decimal
  pub highest_close : Decimal
  pub trail_stop : Decimal
  pub effective_stop : Decimal

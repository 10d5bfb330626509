-- ===== src/Backtester/Models.antt =====
-- services/backtester/models.py. A dictionary of the configuration or the bundle that is only read by
-- `get` is a function; the core metadata, the version texts and the metrics are left out.
use save_money_trading_bot.Prelude.{ℕ, String, Bool, Option, List}
use save_money_trading_bot.Prelude.Int.{ℤ}
use save_money_trading_bot.Decimal.{Decimal}
use save_money_trading_bot.StrategyEngine.Codes.{ReasonCode, EntryType}
use save_money_trading_bot.StrategyEngine.Models.{
  Time, Candle, StrategyParameters, StrategyEvaluation,
}
use save_money_trading_bot.RiskEngine.Models.{RiskParameters, SymbolConstraints}

pub data OrderStatus : Type 0 where
  order_pending order_filled order_rejected order_cancelled : OrderStatus

pub data ExitReason : Type 0 where
  stop_initial_hit stop_trailing_hit stop_gap_hit end_of_backtest : ExitReason

pub record FeeModel : Type 0 where
  pub entry_fee_rate : Decimal
  pub exit_fee_rate : Decimal

pub record SlippageModel : Type 0 where
  pub slippage_bps : Decimal

pub record FundingEvent : Type 0 where
  pub timestamp : Time
  pub funding_rate : Decimal

pub record FundingModel : Type 0 where
  pub enabled : Bool
  pub assumed_rate : Option Decimal

pub record BacktestConfig : Type 0 where
  pub symbols : List String
  pub initial_cash : Decimal
  pub strategy_params : StrategyParameters
  pub risk_params : RiskParameters
  pub fee_model : FeeModel
  pub slippage_model : SlippageModel
  pub funding_model : FundingModel
  pub symbol_constraints : String → Option SymbolConstraints
  pub initial_processed_intent_ids : List String

-- A symbol that the bundle does not have has no candles and no events.
pub record HistoricalDataBundle : Type 0 where
  pub daily : String → List Candle
  pub weekly : String → List Candle
  pub monthly : String → List Candle
  pub funding : String → List FundingEvent

pub record PendingIntent : Type 0 where
  pub client_intent_id : String
  pub symbol : String
  pub strategy_version : String
  pub entry_type : EntryType
  pub strategy_reason_codes : List ReasonCode
  pub signal_time : Time
  pub order_time : Time
  pub signal_close_price : Decimal
  pub stop_price : Decimal
  pub atr14 : Decimal
  pub strategy_evaluation : StrategyEvaluation

pub record SimulatedOrder : Type 0 where
  pub client_intent_id : String
  pub symbol : String
  pub status : OrderStatus
  pub quantity : Option Decimal
  pub reference_price : Option Decimal

pub record TrailingStopSnapshot : Type 0 where
  pub time : Time
  pub trail_stop : Decimal
  pub effective_stop : Decimal

pub record SimulatedPosition : Type 0 where
  pub symbol : String
  pub quantity : Decimal
  pub entry_price : Decimal
  pub entry_time : Time
  pub initial_stop : Decimal
  pub trail_stop : Decimal
  pub effective_stop : Decimal
  pub highest_close : Decimal
  pub entry_atr14 : Decimal
  pub client_intent_id : String
  pub margin_reserved : Decimal

pub record BacktestTrade : Type 0 where
  pub symbol : String
  pub client_intent_id : String
  pub strategy_version : String
  pub entry_type : EntryType
  pub strategy_reason_codes : List ReasonCode
  pub risk_reason_codes : List ReasonCode
  pub signal_time : Time
  pub order_time : Time
  pub entry_time : Time
  pub entry_reference_price : Decimal
  pub entry_fill_price : Decimal
  pub quantity : Decimal
  pub initial_stop : Decimal
  pub trailing_stop_history : List TrailingStopSnapshot
  pub exit_time : Option Time
  pub exit_reason : Option ExitReason
  pub exit_reference_price : Option Decimal
  pub exit_fill_price : Option Decimal
  pub gross_pnl : Option Decimal
  pub fees : Decimal
  pub funding : Decimal
  pub slippage_cost : Decimal
  pub net_pnl : Option Decimal
  pub initial_risk_usd : Option Decimal
  pub r_multiple : Option Decimal
  pub holding_period_days : Option ℤ

pub record EquitySnapshot : Type 0 where
  pub time : Time
  pub cash : Decimal
  pub equity : Decimal
  pub unrealized_pnl : Decimal
  pub open_positions : ℕ

pub record DrawdownSnapshot : Type 0 where
  pub time : Time
  pub equity : Decimal
  pub peak_equity : Decimal
  pub drawdown_pct : Decimal

pub record RiskRejectionRecord : Type 0 where
  pub time : Time
  pub symbol : String
  pub client_intent_id : String
  pub reason_codes : List ReasonCode
  pub strategy_reason_codes : List ReasonCode

-- ===== src/RiskEngine/Models.antt =====
-- services/risk_engine/models.py and constants.py. The fields that pydantic types as `Decimal` are
-- finite decimals. `RiskError` keeps its code and message; its `details` only repeat inputs as text.
use save_money_trading_bot.Prelude.{ℕ, String, Bool, Option, List}
use save_money_trading_bot.Decimal.{Decimal, dec}
use save_money_trading_bot.StrategyEngine.Codes.{ReasonCode, SignalIntentKind}

-- constants.py
abbrev pub risk_specification_version : String
risk_specification_version = "1.0.0"

abbrev pub default_risk_per_trade_pct : Decimal
default_risk_per_trade_pct = dec 5 3

abbrev pub default_max_portfolio_risk_pct : Decimal
default_max_portfolio_risk_pct = dec 2 2

abbrev pub default_max_open_positions : ℕ
default_max_open_positions = 3

abbrev pub default_max_leverage : Decimal
default_max_leverage = dec 20 1

abbrev pub default_risk_rounding_tolerance : Decimal
default_risk_rounding_tolerance = dec 1 3

pub data TradeSide : Type 0 where
  long short : TradeSide

pub data MarketDataStatus : Type 0 where
  market_ok market_invalid market_stale market_incomplete : MarketDataStatus

pub data BotSystemState : Type 0 where
  off warmup active paused degraded error unknown : BotSystemState

pub record LossLimitConfig : Type 0 where
  pub daily_loss_limit_enabled : Bool
  pub max_daily_loss_pct : Option Decimal
  pub weekly_loss_limit_enabled : Bool
  pub max_weekly_loss_pct : Option Decimal
  pub drawdown_limit_enabled : Bool
  pub max_drawdown_pct : Option Decimal

-- `max_open_positions` is an int; a negative one is refused like 0, so it is a natural number.
pub record RiskParameters : Type 0 where
  pub spec_version : String
  pub strategy_version : String
  pub risk_per_trade_pct : Decimal
  pub max_portfolio_risk_pct : Decimal
  pub max_open_positions : ℕ
  pub max_leverage : Decimal
  pub risk_rounding_tolerance : Decimal
  pub loss_limits : LossLimitConfig

pub record SymbolConstraints : Type 0 where
  pub quantity_step : Decimal
  pub minimum_quantity : Decimal
  pub minimum_notional : Decimal
  pub price_tick_size : Decimal

pub record AccountState : Type 0 where
  pub equity_usd : Decimal
  pub available_margin_usd : Decimal
  pub daily_realized_pnl_usd : Decimal
  pub weekly_realized_pnl_usd : Decimal
  pub peak_equity_usd : Option Decimal

pub record PositionState : Type 0 where
  pub symbol : String
  pub entry_price : Decimal
  pub position_size : Decimal
  pub stop_initial : Decimal
  pub trail_stop : Decimal
  pub mark_price : Decimal

pub record OpenOrderState : Type 0 where
  pub symbol : String
  pub client_intent_id : String
  pub side : TradeSide
  pub is_entry : Bool

pub record TradeProposal : Type 0 where
  pub symbol : String
  pub side : TradeSide
  pub entry_price : Decimal
  pub stop_price : Decimal
  pub client_intent_id : String
  pub signal_intent_kind : SignalIntentKind
  pub strategy_approved : Bool
  pub market_data_status : MarketDataStatus
  pub bot_system_state : BotSystemState
  pub atr14 : Option Decimal

pub record PositionSizingResult : Type 0 where
  pub risk_budget_usd : Decimal
  pub stop_distance_usd : Decimal
  pub raw_quantity : Decimal
  pub rounded_quantity : Decimal
  pub actual_trade_risk_usd : Decimal
  pub actual_trade_risk_pct : Decimal

pub record PortfolioRiskSnapshot : Type 0 where
  pub current_open_risk_usd : Decimal
  pub current_open_risk_pct : Decimal
  pub projected_portfolio_risk_usd : Decimal
  pub projected_portfolio_risk_pct : Decimal
  pub total_notional_usd : Decimal
  pub projected_notional_usd : Decimal
  pub effective_leverage : Decimal

pub record RiskError : Type 0 where
  pub code : ReasonCode
  pub message : String

pub record RiskDecision : Type 0 where
  pub approved : Bool
  pub symbol : String
  pub requested_entry_price : Decimal
  pub requested_stop_price : Decimal
  pub raw_quantity : Option Decimal
  pub rounded_quantity : Option Decimal
  pub actual_trade_risk_usd : Option Decimal
  pub actual_trade_risk_pct : Option Decimal
  pub current_open_risk_usd : Option Decimal
  pub projected_portfolio_risk_usd : Option Decimal
  pub projected_portfolio_risk_pct : Option Decimal
  pub required_margin_usd : Option Decimal
  pub effective_leverage : Option Decimal
  pub reason_codes : List ReasonCode
  pub strategy_version : String
  pub spec_version : String
  pub errors : List RiskError

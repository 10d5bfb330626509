-- ===== src/StrategyEngine/Codes.antt =====
-- The string enumerations of services/strategy_engine/models.py that other services share.
use save_money_trading_bot.Prelude.{Bool, true, false}

-- `class ReasonCode`
pub data ReasonCode : Type 0 where
  rc_entry_breakout_20d rc_entry_pullback_ema20 : ReasonCode
  rc_exit_stop_initial rc_exit_stop_trailing rc_exit_stop_gap : ReasonCode
  rc_exit_regime_monthly rc_exit_manual : ReasonCode
  rc_reject_regime rc_reject_trend rc_reject_volume rc_reject_warmup rc_reject_data : ReasonCode
  rc_reject_duplicate_symbol rc_reject_risk_trade rc_reject_risk_portfolio : ReasonCode
  rc_reject_max_positions rc_reject_leverage rc_reject_no_signal rc_risk_approved : ReasonCode

-- `class EntryType`
pub data EntryType : Type 0 where
  breakout pullback : EntryType

-- `class SignalIntentKind`
pub data SignalIntentKind : Type 0 where
  long_entry no_entry invalid_data insufficient_history : SignalIntentKind

abbrev pub is_long_entry : SignalIntentKind → Bool
is_long_entry long_entry = true
is_long_entry _ = false

-- `class Timeframe`
pub data Timeframe : Type 0 where
  daily weekly monthly : Timeframe

abbrev pub same_timeframe : Timeframe → Timeframe → Bool
same_timeframe daily daily = true
same_timeframe weekly weekly = true
same_timeframe monthly monthly = true
same_timeframe _ _ = false

-- `class DataQualityStatus`
pub data DataQualityStatus : Type 0 where
  data_ok data_invalid data_insufficient : DataQualityStatus

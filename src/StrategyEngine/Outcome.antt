-- ===== src/StrategyEngine/Outcome.antt =====
-- services/strategy_engine/engine.py: the evaluations that `StrategyEngine.evaluate` builds.
use save_money_trading_bot.Prelude.{
  Bool, true, false, not, Option, none, some, List, [], ◌∷◌, ◌++◌, if◌then◌else◌,
}
use save_money_trading_bot.Decimal.{Decimal}
use save_money_trading_bot.StrategyEngine.Codes.{
  ReasonCode, rc_reject_warmup, rc_reject_volume, rc_reject_no_signal, EntryType, SignalIntentKind,
  long_entry, no_entry, DataQualityStatus, data_ok,
}
use save_money_trading_bot.StrategyEngine.Models.{
  strategy_version, IndicatorSnapshot, RegimeResult, TrendResult, EntrySetupResult, SignalIntent,
  StrategyError, StrategyEvaluation,
}
use save_money_trading_bot.StrategyEngine.Filters.{
  evaluate_monthly_regime, evaluate_weekly_trend, evaluate_volume_ok, evaluate_breakout_setup,
  evaluate_pullback_setup, empty_setup,
}
use save_money_trading_bot.StrategyEngine.Readings.{Request, Readings, Values}

abbrev pub empty_regime : RegimeResult
empty_regime = record {
  regime_long = false;
  monthly_close = none;
  ema20_monthly = none;
  reason_code = some rc_reject_warmup;
}

abbrev pub empty_trend : TrendResult
empty_trend = record {
  trend_confirmed = false;
  ema20_weekly = none;
  ema50_weekly = none;
  reason_code = some rc_reject_warmup;
}

abbrev pub empty_indicators : IndicatorSnapshot
empty_indicators = record {
  evaluation_index = none;
  ema20_daily = none;
  ema20_weekly = none;
  ema50_weekly = none;
  ema20_monthly = none;
  atr14_daily = none;
  volume_sma20 = none;
  volume_ratio = none;
  high20 = none;
  monthly_close = none;
}

-- `_build_no_entry_evaluation` with its defaults, for one reason code.
unfoldable pub no_entry_evaluation :
    Request
    → DataQualityStatus
    → SignalIntentKind
    → ReasonCode
    → List StrategyError
    → StrategyEvaluation
no_entry_evaluation r status kind reason errors = record {
  symbol = r.daily_series.symbol;
  evaluation_time = r.evaluation_time;
  version = strategy_version;
  parameters = r.params;
  monthly_regime = empty_regime;
  weekly_trend = empty_trend;
  breakout_result = empty_setup;
  pullback_result = empty_setup;
  indicators = empty_indicators;
  volume_ratio = none;
  atr = none;
  selected_entry_type = none;
  signal_intent = record {
    kind = kind;
    entry_type = none;
    entry_price = none;
    stop_initial = none;
    primary_reason_code = some reason;
  };
  reason_codes = reason ∷ [];
  data_quality_status = status;
  errors = errors;
}

abbrev pub reason_if : Bool → Option ReasonCode → List ReasonCode
reason_if true (some code) = code ∷ []
reason_if _ _ = []

-- The last code of a list that is not empty.
abbrev pub last_code : ReasonCode → List ReasonCode → ReasonCode
last_code c [] = c
last_code c (d ∷ ds) = last_code d ds

-- Why there is no entry: each filter that failed, or that there was no signal.
unfoldable pub rejection_codes : RegimeResult → TrendResult → Bool → ReasonCode × List ReasonCode
rejection_codes regime trend volume_ok =
    elim (reason_if (not regime.regime_long) regime.reason_code
      ++ (reason_if (not trend.trend_confirmed) trend.reason_code
          ++ (if volume_ok then [] else rc_reject_volume ∷ []))) [
            | [] ↦ (rc_reject_no_signal, [])
            | code ∷ codes ↦ (code, codes)
          ]

-- The results of the filters and the two setups.
pub record Assessment : Type 0 where
  pub regime : RegimeResult
  pub trend : TrendResult
  pub volume_ok : Bool
  pub by_breakout : EntrySetupResult
  pub by_pullback : EntrySetupResult

unfoldable pub assess : Request → Readings → Values → Assessment
assess r x v =
    let regime = evaluate_monthly_regime x.indicators.monthly_close (some v.ema20_monthly) in
    let trend = evaluate_weekly_trend (some v.ema20_weekly) (some v.ema50_weekly) in
    let volume_ok = evaluate_volume_ok (some v.volume_ratio) r.params.volume_ratio_min in
    record {
      regime = regime;
      trend = trend;
      volume_ok = volume_ok;
      by_breakout =
          evaluate_breakout_setup x.candle_t.close x.indicators.high20 (some v.ema20_daily) regime
            trend volume_ok;
      by_pullback =
          evaluate_pullback_setup x.candle_t.close x.candle_t.low x.close_prev (some v.ema20_daily)
            x.ema20_daily_prev regime trend volume_ok r.params;
    }

-- An evaluation that reports its readings, with a given signal and codes.
abbrev pub evaluation_with :
    Request
    → Readings
    → Values
    → Assessment
    → List StrategyError
    → Option EntryType
    → SignalIntent
    → List ReasonCode
    → StrategyEvaluation
evaluation_with r x v a errors selected signal codes = record {
  symbol = r.daily_series.symbol;
  evaluation_time = r.evaluation_time;
  version = strategy_version;
  parameters = r.params;
  monthly_regime = a.regime;
  weekly_trend = a.trend;
  breakout_result = a.by_breakout;
  pullback_result = a.by_pullback;
  indicators = x.indicators;
  volume_ratio = some v.volume_ratio;
  atr = some v.atr14;
  selected_entry_type = selected;
  signal_intent = signal;
  reason_codes = codes;
  data_quality_status = data_ok;
  errors = errors;
}

abbrev pub no_signal : ReasonCode → SignalIntent
no_signal code = record {
  kind = no_entry;
  entry_type = none;
  entry_price = none;
  stop_initial = none;
  primary_reason_code = some code;
}

abbrev pub entry_signal :
    EntryType → (entry_price stop_initial : Decimal) → ReasonCode → SignalIntent
entry_signal entry_type entry_price stop_initial code = record {
  kind = long_entry;
  entry_type = some entry_type;
  entry_price = some entry_price;
  stop_initial = some stop_initial;
  primary_reason_code = some code;
}

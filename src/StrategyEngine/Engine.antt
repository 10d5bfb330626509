-- ===== src/StrategyEngine/Engine.antt =====
-- services/strategy_engine/engine.py: `StrategyEngine.evaluate`, in the stages of its source.
pub mod Setups
pub mod Entry
pub mod Returns
use save_money_trading_bot.Prelude.{
  Bool, true, false, not, ◌||◌, ◌&&◌, Option, none, some, List, [], ◌∷◌, ◌++◌, str_eq,
  if◌then◌else◌,
}
use save_money_trading_bot.Decimal.{Decimal, Exc, ok, ◌>>=◌, le}
use save_money_trading_bot.StrategyEngine.Codes.{
  ReasonCode, rc_reject_data, rc_reject_warmup, EntryType, invalid_data, insufficient_history,
  daily, weekly, monthly, DataQualityStatus, data_ok, data_invalid, data_insufficient,
}
use save_money_trading_bot.StrategyEngine.Models.{series_length, StrategyError, StrategyEvaluation}
use save_money_trading_bot.StrategyEngine.Filters.{
  evaluate_monthly_regime, evaluate_weekly_trend, resolve_entry_priority,
}
use save_money_trading_bot.StrategyEngine.Stops.{compute_initial_stop}
use save_money_trading_bot.StrategyEngine.Validation.{validate_candle_series, check_warmup_complete}
use save_money_trading_bot.StrategyEngine.Readings.{
  Request, Readings, Values, values_of, values_in, read_indicators,
}
use save_money_trading_bot.StrategyEngine.Outcome.{
  no_entry_evaluation, last_code, rejection_codes, Assessment, assess, evaluation_with, no_signal,
  entry_signal,
}

-- The end of `evaluate`: an entry by priority, unless its stop is not below the price.
unfoldable pub select_entry :
    Request
    → Readings
    → Values
    → Assessment
    → (stop_initial : Decimal) → List StrategyError
    → Option (EntryType × ReasonCode)
    → StrategyEvaluation
unfolding rejection_codes
select_entry r x v a stop_initial errors (some (entry_type, code)) =
    if le x.candle_t.close stop_initial
    then evaluation_with r x v a errors none (no_signal rc_reject_data) (rc_reject_data ∷ [])
    else evaluation_with r x v a errors (some entry_type)
        (entry_signal entry_type x.candle_t.close stop_initial code) (code ∷ [])
select_entry r x v a stop_initial errors none =
    let (code, codes) = rejection_codes a.regime a.trend a.volume_ok in
    evaluation_with r x v a errors none (no_signal (last_code code codes)) (code ∷ codes)

-- A missing indicator ends the evaluation, with the readings reported.
unfoldable pub missing_indicator : Request → Readings → List StrategyError → StrategyEvaluation
unfolding no_entry_evaluation
missing_indicator r x errors =
    record (no_entry_evaluation r data_insufficient insufficient_history rc_reject_warmup errors) {
      monthly_regime =
          evaluate_monthly_regime x.indicators.monthly_close x.indicators.ema20_monthly;
      weekly_trend = evaluate_weekly_trend x.indicators.ema20_weekly x.indicators.ema50_weekly;
      indicators = x.indicators;
      volume_ratio = x.indicators.volume_ratio;
      atr = x.indicators.atr14_daily;
    }

unfoldable pub decide : Request → Readings → List StrategyError → Exc StrategyEvaluation
unfolding missing_indicator values_of assess select_entry
decide r x errors = elim (values_in x.indicators) [
  | none ↦ ok (missing_indicator r x errors)
  | some v ↦ (do
    let a = assess r x v
    stop_initial ← compute_initial_stop x.candle_t.close v.atr14 r.params none
    ok (
        select_entry r x v a stop_initial errors
          (resolve_entry_priority a.by_breakout a.by_pullback)))
]

abbrev pub is_invalid : DataQualityStatus → Bool
is_invalid data_invalid = true
is_invalid _ = false

abbrev pub is_insufficient : DataQualityStatus → Bool
is_insufficient data_insufficient = true
is_insufficient _ = false

abbrev pub is_ok : DataQualityStatus → Bool
is_ok data_ok = true
is_ok _ = false

-- The quality of the three series and their errors, in order.
pub record Quality : Type 0 where
  pub daily_status : DataQualityStatus
  pub weekly_status : DataQualityStatus
  pub monthly_status : DataQualityStatus
  pub errors : List StrategyError

unfoldable pub quality_of : Request → Quality
quality_of r =
    let (daily_status, daily_errors) =
      validate_candle_series r.daily_series r.evaluation_time daily in
    let (weekly_status, weekly_errors) =
      validate_candle_series r.weekly_series r.evaluation_time weekly in
    let (monthly_status, monthly_errors) =
      validate_candle_series r.monthly_series r.evaluation_time monthly in
    record {
      daily_status = daily_status;
      weekly_status = weekly_status;
      monthly_status = monthly_status;
      errors = daily_errors ++ (weekly_errors ++ monthly_errors);
    }

-- The warm-up is tested only where a series is not OK.
abbrev pub lacks_history : Request → Quality → Bool
lacks_history r q =
    (is_insufficient q.daily_status
      || (not (is_ok q.weekly_status) || not (is_ok q.monthly_status)))
    && not (
        check_warmup_complete (series_length r.daily_series) (series_length r.weekly_series)
          (series_length r.monthly_series) r.params)

abbrev pub same_symbols : Request → Bool
same_symbols r =
    str_eq r.weekly_series.symbol r.daily_series.symbol
    && str_eq r.monthly_series.symbol r.daily_series.symbol

-- `StrategyEngine.evaluate`
unfoldable pub evaluate : Request → Exc StrategyEvaluation
unfolding no_entry_evaluation quality_of read_indicators decide
evaluate r =
    let q = quality_of r in
    if not (same_symbols r)
    then ok (
        no_entry_evaluation r data_invalid invalid_data rc_reject_data
          (record { code = rc_reject_data; message = "Symbol mismatch across timeframes" } ∷ []))
    else if is_invalid q.daily_status || (is_invalid q.weekly_status || is_invalid q.monthly_status)
    then ok (no_entry_evaluation r data_invalid invalid_data rc_reject_data q.errors)
    else if lacks_history r q
    then ok (no_entry_evaluation r data_insufficient insufficient_history rc_reject_warmup q.errors)
    else (do x ← read_indicators r; decide r x q.errors)

-- ===== src/StrategyEngine/Tests.antt =====
-- The strategy engine's theorems at concrete inputs.
use save_money_trading_bot.Prelude.{ℕ, ◌+◌, ◌*◌, ◌≡◌, ◌≢◌, refl, true, List, [], ◌∷◌}
use save_money_trading_bot.Decimal.{
  Decimal, Exc, ok, raised, of_ℕ, dec, sub, mul, add, div, quotient, truncate, fix, digits, lt, le,
  eq, nonpos, negative, is_finite, max_dec, absolute, sum_from,
}
use save_money_trading_bot.StrategyEngine.Codes.{
  Timeframe, daily, weekly, monthly, is_long_entry, data_invalid, invalid_data, rc_reject_data,
}
use save_money_trading_bot.StrategyEngine.Models.{
  Candle, CandleSeries, default_parameters, StrategyEvaluation, TrailingStopState,
}
use save_money_trading_bot.StrategyEngine.Filters.{
  evaluate_monthly_regime, evaluate_weekly_trend, evaluate_volume_ok, evaluate_breakout_setup,
  evaluate_pullback_setup, resolve_entry_priority,
}
use save_money_trading_bot.StrategyEngine.Validation.{
  validate_ohlc, validate_levels, first_not_finite, candle_errors, series_errors, series_status,
  validate_candle_series, min_candles_for_warmup, check_warmup_complete,
}
use save_money_trading_bot.StrategyEngine.Validation.Series.{
  SeriesAccepted, validate_candle_series-SeriesAccepted,
}
use save_money_trading_bot.StrategyEngine.Indicators.{
  compute_ema, compute_wilder_atr, compute_volume_ratio, compute_volume_sma, compute_high20,
  ema_from, true_range, true_ranges, wilder_from, windows, means, ratio_entry, ratios, max_from,
  max_of,
}
use save_money_trading_bot.StrategyEngine.Stops.{compute_initial_stop, on_tick}
use save_money_trading_bot.StrategyEngine.Indicators.{Series}
use save_money_trading_bot.StrategyEngine.Indicators.Causal.{compute_ema-append}
use save_money_trading_bot.Prelude.{◌++◌}
use save_money_trading_bot.StrategyEngine.Readings.Returns.{PeriodsPositive}
use save_money_trading_bot.StrategyEngine.Engine.Returns.{evaluate_returns}
use save_money_trading_bot.Prelude.{arith}
use save_money_trading_bot.StrategyEngine.Stops.Trailing.{
  Follows, IsEffective, run_updates, run_updates-Follows,
}
use save_money_trading_bot.StrategyEngine.Readings.{Request, values_of, read_indicators}
use save_money_trading_bot.StrategyEngine.Outcome.{no_entry_evaluation, assess, rejection_codes}
use save_money_trading_bot.StrategyEngine.Engine.{
  select_entry, missing_indicator, decide, quality_of, evaluate,
}
use save_money_trading_bot.StrategyEngine.Engine.Entry.{IsEntry, evaluate-IsEntry}

-- A candle of one unit of time that opens one below its close, with wicks of two.
abbrev candle : Timeframe → (time close volume : ℕ) → Candle
candle timeframe time close volume = record {
  symbol = "BTC";
  timeframe = timeframe;
  open_time = time;
  close_time = time + 1;
  open_price = of_ℕ close;
  high = of_ℕ (close + 2);
  low = dec (close * 10) 1;
  close = of_ℕ close;
  volume = of_ℕ volume;
  is_closed = true;
}

abbrev series : Timeframe → List Candle → CandleSeries
series timeframe candles = record { symbol = "BTC"; timeframe = timeframe; candles = candles }

abbrev daily_series : CandleSeries
daily_series =
    series daily (candle daily 0 100 10 ∷ candle daily 1 110 10 ∷ candle daily 2 130 20 ∷ [])

-- Three days with periods of two, which the warm-up of these parameters accepts.
abbrev request : Request
request = record {
  daily_series = daily_series;
  weekly_series = series weekly (candle weekly 0 100 1 ∷ candle weekly 1 110 1 ∷ []);
  monthly_series = series monthly (candle monthly 0 100 1 ∷ candle monthly 1 120 1 ∷ []);
  evaluation_time = 10;
  params = record default_parameters {
    monthly_ema_period = 2;
    weekly_ema_fast = 1;
    weekly_ema_slow = 2;
    daily_ema_period = 2;
    breakout_lookback = 2;
    atr_period = 2;
    volume_sma_period = 2;
  };
}

unfoldable evaluation_or : StrategyEvaluation → Exc StrategyEvaluation → StrategyEvaluation
evaluation_or e (ok e') = e'
evaluation_or e (raised f) = e

abbrev entry_evaluation : StrategyEvaluation
entry_evaluation =
    evaluation_or (no_entry_evaluation request data_invalid invalid_data rc_reject_data [])
      (evaluate request)

evaluate_enters : evaluate request ≡ ok entry_evaluation
unfolding evaluation_or evaluate quality_of validate_candle_series series_status series_errors
    candle_errors validate_ohlc validate_levels first_not_finite min_candles_for_warmup
    check_warmup_complete read_indicators compute_ema ema_from compute_wilder_atr true_range
    true_ranges wilder_from compute_volume_ratio compute_volume_sma windows means ratio_entry ratios
    compute_high20 max_from max_of decide values_of assess evaluate_monthly_regime
    evaluate_weekly_trend evaluate_volume_ok evaluate_breakout_setup evaluate_pullback_setup
    compute_initial_stop on_tick resolve_entry_priority select_entry missing_indicator
    no_entry_evaluation rejection_codes is_finite nonpos negative lt le eq sub add mul div quotient
    truncate fix digits max_dec absolute sum_from
evaluate_enters = refl

enters_long : is_long_entry entry_evaluation.signal_intent.kind ≡ true
unfolding evaluation_or evaluate quality_of validate_candle_series series_status series_errors
    candle_errors validate_ohlc validate_levels first_not_finite min_candles_for_warmup
    check_warmup_complete read_indicators compute_ema ema_from compute_wilder_atr true_range
    true_ranges wilder_from compute_volume_ratio compute_volume_sma windows means ratio_entry ratios
    compute_high20 max_from max_of decide values_of assess evaluate_monthly_regime
    evaluate_weekly_trend evaluate_volume_ok evaluate_breakout_setup evaluate_pullback_setup
    compute_initial_stop on_tick resolve_entry_priority select_entry missing_indicator
    no_entry_evaluation rejection_codes is_finite nonpos negative lt le eq sub add mul div quotient
    truncate fix digits max_dec absolute sum_from
enters_long = refl

evaluate-IsEntry_example : IsEntry request entry_evaluation
evaluate-IsEntry_example = evaluate-IsEntry request entry_evaluation evaluate_enters enters_long

daily_not_invalid : (validate_candle_series daily_series 10 daily).0 ≢ data_invalid
unfolding validate_candle_series series_status series_errors candle_errors validate_ohlc
    validate_levels first_not_finite min_candles_for_warmup is_finite nonpos negative lt le eq
daily_not_invalid = λ e. cc

validate_candle_series-SeriesAccepted_example : SeriesAccepted daily_series 10 daily
validate_candle_series-SeriesAccepted_example =
    validate_candle_series-SeriesAccepted daily_series 10 daily daily_not_invalid

-- A position at 100 with its stop at 90.
abbrev position : TrailingStopState
position = record {
  entry_price = of_ℕ 100;
  stop_initial = of_ℕ 90;
  highest_close = of_ℕ 100;
  trail_stop = of_ℕ 85;
  effective_stop = of_ℕ 90;
}

abbrev days : List (Decimal × Decimal)
days = (of_ℕ 120, of_ℕ 5) ∷ (of_ℕ 110, of_ℕ 6) ∷ []

position-IsEffective : IsEffective position
unfolding max_dec lt
position-IsEffective = refl

run_updates-Follows_example :
    (s' : TrailingStopState) × (run_updates position default_parameters days ≡ ok s')
    × Follows position s'
run_updates-Follows_example =
    run_updates-Follows position default_parameters days position-IsEffective

unfoldable series_or : Exc Series → Series
series_or (ok s) = s
series_or (raised f) = []

abbrev three_closes : List Decimal
three_closes = of_ℕ 100 ∷ of_ℕ 110 ∷ of_ℕ 130 ∷ []

abbrev three_emas : Series
three_emas = series_or (compute_ema three_closes 2)

ema_of_three : compute_ema three_closes 2 ≡ ok three_emas
unfolding series_or compute_ema ema_from sub add mul div quotient fix digits sum_from
ema_of_three = refl

compute_ema-append_example :
    (rest : Series) × (compute_ema (three_closes ++ of_ℕ 90 ∷ []) 2 ≡ ok (three_emas ++ rest))
compute_ema-append_example =
    compute_ema-append three_closes (of_ℕ 90 ∷ []) 2 three_emas ema_of_three

request_periods : PeriodsPositive request.params
request_periods = record {
  monthly_ema = omega arith;
  weekly_fast = omega arith;
  weekly_slow = omega arith;
  daily_ema = omega arith;
  lookback = omega arith;
  atr = omega arith;
  volume_sma = omega arith;
}

evaluate_returns_example : (e : StrategyEvaluation) × (evaluate request ≡ ok e)
evaluate_returns_example = evaluate_returns request request_periods

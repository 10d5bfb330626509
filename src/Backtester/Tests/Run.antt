-- ===== src/Backtester/Tests/Run.antt =====
-- A run of four days, with an entry on the fourth.
use save_money_trading_bot.Prelude.{
  ℕ, ◌+◌, ◌*◌, ◌≡◌, refl, String, true, false, none, some, Option, List, [], ◌∷◌, map, All, any,
  arith, ◌≤◌, ◌↔◌, ◌⊎◌, str_eq, Bool, not, ◌&&◌,
}
use save_money_trading_bot.Decimal.{
  digits, half_even, scaled, fix, lt, le, eq, nonpos, negative, max_dec, min_dec, add, sub, mul,
  absolute, quotient, div, truncate, to_integral_value, sum_from, is_finite, Exc, ok, raised, of_ℕ,
  dec, ◌>>=◌,
}
use save_money_trading_bot.StrategyEngine.Outcome.{no_entry_evaluation, rejection_codes, assess}
use save_money_trading_bot.StrategyEngine.Indicators.{
  ema_from, compute_ema, true_range, true_ranges, wilder_from, compute_wilder_atr, windows, means,
  compute_volume_sma, ratio_entry, ratios, compute_volume_ratio, max_from, max_of, compute_high20,
}
use save_money_trading_bot.StrategyEngine.Engine.{
  select_entry, missing_indicator, decide, quality_of, evaluate as evaluate_strategy,
}
use save_money_trading_bot.StrategyEngine.Filters.{
  evaluate_monthly_regime, evaluate_weekly_trend, evaluate_volume_ok, evaluate_breakout_setup,
  evaluate_pullback_setup, resolve_entry_priority,
}
use save_money_trading_bot.StrategyEngine.Validation.{
  first_not_finite, validate_levels, validate_ohlc, min_candles_for_warmup, candle_errors,
  series_errors, series_status, validate_candle_series, check_warmup_complete,
}
use save_money_trading_bot.StrategyEngine.Readings.{read_indicators, values_of}
use save_money_trading_bot.StrategyEngine.Stops.{
  round_to_tick, on_tick, compute_initial_stop, initialize_trailing_stop, update_trailing_stop,
}
use save_money_trading_bot.RiskEngine.LossLimits.{
  check_loss_limit, check_drawdown, when_enabled, ◌or_else◌, check_loss_limits,
}
use save_money_trading_bot.RiskEngine.Portfolio.{
  open_risk_usd, current_open_risk_usd, total_notional_usd, build_portfolio_snapshot,
}
use save_money_trading_bot.RiskEngine.Validation.{
  validate_account, validate_constraints, first_bad_limit, validate_parameters, first_bad_value,
  validate_position, validate_positions_from, validate_open_positions, validate_proposal,
  validate_long_stop, seen,
}
use save_money_trading_bot.RiskEngine.Sizing.{
  trade_limit, within_risk, step_down, cap_loop, rounds, apply_risk_cap_after_rounding, sized,
  compute_position_sizing, cap_quantity_for_leverage, cap_quantity_for_margin,
}
use save_money_trading_bot.RiskEngine.Engine.{
  reject_decision, check_inputs, rounded_stop, check_slots, sized_quantity, check_minima,
  capped_quantity, check_portfolio, approve, evaluate as evaluate_risk,
}
use save_money_trading_bot.RiskEngine.Constraints.{
  is_step_aligned, first_not_positive, check_notional_and_step, validate_symbol_constraints_core,
}
use save_money_trading_bot.RiskEngine.Rounding.{floor_to_step, round_to_tick as round_risk_to_tick}
use save_money_trading_bot.Backtester.Portfolio.{
  mark_at_open, resolve_marks_at_open, compute_used_margin, unrealized_from, compute_unrealized_pnl,
  compute_equity, compute_available_margin, position_margin, to_position_states, prior_from,
  prior_close, to_open_orders, mark_prices_from_candles, build_account_state, Marks,
}
use save_money_trading_bot.Backtester.Execution.{
  apply_entry_slippage, apply_exit_slippage, compute_fee, compute_slippage_cost,
  compute_funding_payment,
}
use save_money_trading_bot.Backtester.Runtime.{
  Runtime, initial_runtime, get_constraints, mark_terminal_intent, reject_intent, days_between,
  for_each,
}
use save_money_trading_bot.Backtester.Lifecycle.{
  compute_entry_fill_prices, entry_request, evaluate_entry_risk_decision, compute_entry_accounting,
  without_approval, filter_rejection_reason_codes, compute_gap_stop_at_open, compute_intraday_stop,
  compute_stop_trigger, compute_exit_accounting, compute_trailing_stop_update,
  build_simulated_position_from_entry, StopTriggerResult,
}
use save_money_trading_bot.Backtester.Exits.{
  safe_r, closed_trade, close_trade, exit_position, stop_trigger, check_stop_exit, pay_funding,
  pay_events, apply_funding, last_evaluation, trail_position, update_trailing,
}
use save_money_trading_bot.Backtester.Slicing.{
  slice_closed_candles, build_candle_series, evaluation_time_for_daily, put_time, by_open_time_from,
  by_open_time, add_time, add_times, build_timeline_from, build_timeline, validate_chronological,
}
use save_money_trading_bot.Backtester.Entries.{
  intents_of, opened_trade, open_position, enter, fill_intent, fill_pending_at_open,
  build_client_intent_id, queue_intent, queue_evaluation, strategy_and_queue, strategy_request,
}
use save_money_trading_bot.Backtester.Engine.{
  day_candles_of, prior_closes_of, record_equity, trade_day, run_day, run_timeline,
}
use save_money_trading_bot.StrategyEngine.Codes.{
  Timeframe, daily, weekly, monthly, breakout, data_invalid, invalid_data, rc_reject_data,
}
use save_money_trading_bot.StrategyEngine.Models.{Time, Candle, default_parameters}
use save_money_trading_bot.RiskEngine.Models.{
  risk_specification_version, default_risk_per_trade_pct, default_max_portfolio_risk_pct,
  default_max_open_positions, default_max_leverage, default_risk_rounding_tolerance,
}
use save_money_trading_bot.Backtester.Models.{
  BacktestConfig, HistoricalDataBundle, PendingIntent, SimulatedPosition, stop_trailing_hit,
}
use save_money_trading_bot.Backtester.Consistent.{IsConsistent}
use save_money_trading_bot.Backtester.Consistent.Days.{run_timeline-IsConsistent}
use save_money_trading_bot.Backtester.Books.{IsBook, Books, book_of}
use save_money_trading_bot.Backtester.Books.Refines.Days.{run_timeline-Books, run_timeline-IsBook}
use save_money_trading_bot.Backtester.Books.Served.{fill_pending_at_open-serves}
use save_money_trading_bot.Backtester.Causal.{extended, IsDue, IsPast, IsLater}
use save_money_trading_bot.Backtester.Causal.Days.{run_timeline-extended}
use save_money_trading_bot.Backtester.Outcome.{Outcome, fill_intent-Outcome}
use save_money_trading_bot.Backtester.Slicing.Timeline.{
  Ascending, has, opens_at, build_timeline-Ascending,
}
use save_money_trading_bot.Backtester.Slicing.Chronological.{
  IsChronological, validate_chronological-none,
}
use save_money_trading_bot.Backtester.Lifecycle.Stops.{
  LowBounds, compute_stop_trigger-none, compute_stop_trigger-le,
}

abbrev day : ℕ → Time
day n = n * 10000000

-- A candle that opens on a day, at its close less one.
abbrev candle : Timeframe → (n close volume : ℕ) → Candle
candle timeframe n close volume = record {
  symbol = "BTC";
  timeframe = timeframe;
  open_time = day n;
  close_time = day n + 1;
  open_price = of_ℕ close;
  high = of_ℕ (close + 2);
  low = dec (close * 10) 1;
  close = of_ℕ close;
  volume = of_ℕ volume;
  is_closed = true;
}

-- `BacktestConfig` with a fee of 0.04 % and a slippage of 2 basis points, and periods of two.
abbrev config : BacktestConfig
config = record {
  symbols = "BTC" ∷ [];
  initial_cash = of_ℕ 100000;
  strategy_params = record default_parameters {
    monthly_ema_period = 2;
    weekly_ema_fast = 1;
    weekly_ema_slow = 2;
    daily_ema_period = 2;
    breakout_lookback = 2;
    atr_period = 2;
    volume_sma_period = 2;
  };
  risk_params = record {
    spec_version = risk_specification_version;
    strategy_version = "1.0.0";
    risk_per_trade_pct = default_risk_per_trade_pct;
    max_portfolio_risk_pct = default_max_portfolio_risk_pct;
    max_open_positions = default_max_open_positions;
    max_leverage = default_max_leverage;
    risk_rounding_tolerance = default_risk_rounding_tolerance;
    loss_limits = record {
      daily_loss_limit_enabled = false;
      max_daily_loss_pct = none;
      weekly_loss_limit_enabled = false;
      max_weekly_loss_pct = none;
      drawdown_limit_enabled = false;
      max_drawdown_pct = none;
    };
  };
  fee_model = record { entry_fee_rate = dec 4 4; exit_fee_rate = dec 4 4 };
  slippage_model = record { slippage_bps = of_ℕ 2 };
  funding_model = record { enabled = false; assumed_rate = none };
  symbol_constraints = λ s. some (record {
    quantity_step = dec 1 3;
    minimum_quantity = dec 1 3;
    minimum_notional = of_ℕ 10;
    price_tick_size = dec 1 1;
  });
  initial_processed_intent_ids = [];
}

abbrev bundle : HistoricalDataBundle
bundle = record {
  daily = λ s.
      candle daily 0 100 10
      ∷ candle daily 1 110 10
      ∷ candle daily 2 130 20
      ∷ candle daily 3 131 10
      ∷ [];
  weekly = λ s. candle weekly 0 100 1 ∷ candle weekly 1 110 1 ∷ [];
  monthly = λ s. candle monthly 0 100 1 ∷ candle monthly 1 120 1 ∷ [];
  funding = λ s. [];
}

-- A text for a time, in place of `strftime`.
abbrev format_time : Time → String
format_time t = "day"

unfoldable runtime_or : Runtime → Exc Runtime → Runtime
runtime_or rt (ok rt') = rt'
runtime_or rt (raised f) = rt

abbrev final : Runtime
final = runtime_or (initial_runtime config) (run_timeline format_time config bundle)

-- The first three days, and the fourth.
abbrev three_days : HistoricalDataBundle
three_days = record bundle {
  daily = λ s. candle daily 0 100 10 ∷ candle daily 1 110 10 ∷ candle daily 2 130 20 ∷ [];
}

abbrev fourth_day : HistoricalDataBundle
fourth_day = record {
  daily = λ s. candle daily 3 131 10 ∷ [];
  weekly = λ s. [];
  monthly = λ s. [];
  funding = λ s. [];
}

-- The state before the fourth day: the intent is pending.
abbrev waiting : Runtime
waiting = runtime_or (initial_runtime config) (run_timeline format_time config three_days)

abbrev no_marks : Marks
no_marks s = none

abbrev day_candles : String → Option Candle
day_candles s = some (candle daily 3 131 10)

abbrev filled : Runtime
filled =
    runtime_or waiting
      (fill_pending_at_open config "BTC" (candle daily 3 131 10) day_candles no_marks waiting)

abbrev intent : PendingIntent
intent = record {
  client_intent_id = "btc-1";
  symbol = "BTC";
  strategy_version = "1.0.0";
  entry_type = breakout;
  strategy_reason_codes = [];
  signal_time = day 2;
  order_time = day 2;
  signal_close_price = of_ℕ 130;
  stop_price = of_ℕ 100;
  atr14 = of_ℕ 12;
  strategy_evaluation =
      no_entry_evaluation (strategy_request config bundle "BTC" 0) data_invalid invalid_data
        rc_reject_data [];
}

abbrev after_intent : Runtime
after_intent = runtime_or waiting (
    fill_intent config "BTC" (candle daily 3 131 10) day_candles no_marks intent
      (initial_runtime config))

-- The symbols that are held.
abbrev held : Runtime → List String
held rt = map (λ (e : String × SimulatedPosition). e.0) rt.positions

-- The run ends with the symbol held: the signal of the third day is filled at the open of the fourth.
runs :
    (run_timeline format_time config bundle ≡ ok final)
    × (held final ≡ "BTC" ∷ [])
    × (final.processed_intent_ids ≡ "BTC:1.0.0:day:BREAKOUT" ∷ [])
    × (fill_pending_at_open config "BTC" (candle daily 3 131 10) day_candles no_marks waiting
        ≡ ok filled)
    × (fill_intent config "BTC"
          (candle daily 3 131 10)
          day_candles
          no_marks
          intent
          (initial_runtime config)
        ≡ ok after_intent)
    × (held after_intent ≡ "BTC" ∷ [])
unfolding digits half_even scaled fix lt le eq nonpos negative max_dec min_dec add sub mul absolute
    quotient div truncate to_integral_value sum_from is_finite no_entry_evaluation rejection_codes
    assess ema_from compute_ema true_range true_ranges wilder_from compute_wilder_atr windows means
    compute_volume_sma ratio_entry ratios compute_volume_ratio max_from max_of compute_high20
    select_entry missing_indicator decide quality_of evaluate_strategy evaluate_monthly_regime
    evaluate_weekly_trend evaluate_volume_ok evaluate_breakout_setup evaluate_pullback_setup
    resolve_entry_priority first_not_finite validate_levels validate_ohlc min_candles_for_warmup
    candle_errors series_errors series_status validate_candle_series check_warmup_complete
    read_indicators values_of round_to_tick on_tick compute_initial_stop initialize_trailing_stop
    update_trailing_stop check_loss_limit check_drawdown when_enabled ◌or_else◌ check_loss_limits
    open_risk_usd current_open_risk_usd total_notional_usd build_portfolio_snapshot validate_account
    validate_constraints first_bad_limit validate_parameters first_bad_value validate_position
    validate_positions_from validate_open_positions validate_proposal validate_long_stop trade_limit
    within_risk step_down cap_loop rounds apply_risk_cap_after_rounding sized
    compute_position_sizing cap_quantity_for_leverage cap_quantity_for_margin reject_decision
    check_inputs rounded_stop check_slots sized_quantity check_minima capped_quantity
    check_portfolio approve evaluate_risk is_step_aligned first_not_positive check_notional_and_step
    validate_symbol_constraints_core floor_to_step round_risk_to_tick mark_at_open
    resolve_marks_at_open compute_used_margin unrealized_from compute_unrealized_pnl compute_equity
    compute_available_margin position_margin to_position_states prior_from prior_close
    to_open_orders mark_prices_from_candles build_account_state apply_entry_slippage
    apply_exit_slippage compute_fee compute_slippage_cost compute_funding_payment initial_runtime
    get_constraints mark_terminal_intent reject_intent days_between for_each
    compute_entry_fill_prices entry_request evaluate_entry_risk_decision compute_entry_accounting
    without_approval filter_rejection_reason_codes compute_gap_stop_at_open compute_intraday_stop
    compute_stop_trigger compute_exit_accounting compute_trailing_stop_update
    build_simulated_position_from_entry safe_r closed_trade close_trade exit_position stop_trigger
    check_stop_exit pay_funding pay_events apply_funding last_evaluation trail_position
    update_trailing slice_closed_candles build_candle_series evaluation_time_for_daily put_time
    by_open_time_from by_open_time add_time add_times build_timeline_from build_timeline intents_of
    opened_trade open_position enter fill_intent fill_pending_at_open build_client_intent_id
    queue_intent queue_evaluation strategy_and_queue day_candles_of prior_closes_of record_equity
    trade_day run_day run_timeline runtime_or
runs = (refl, refl, refl, refl, refl, refl)

run_timeline-IsConsistent_example : IsConsistent final
run_timeline-IsConsistent_example = run_timeline-IsConsistent format_time config bundle final runs.0

run_timeline-Books_example : Books (book_of (initial_runtime config)) (book_of final)
run_timeline-Books_example = run_timeline-Books format_time config bundle final runs.0

run_timeline-IsBook_example : IsBook (book_of final)
run_timeline-IsBook_example = run_timeline-IsBook format_time config bundle final runs.0

-- The evaluation time of the third day.
abbrev horizon : Time
horizon = day 2 + 5000001

due : (n close volume : ℕ) → n ≤ 2 → IsDue horizon (candle daily n close volume)
unfolding evaluation_time_for_daily
due n close volume h = record { opened = omega arith; evaluated = omega arith }

three_days-IsPast : IsPast horizon three_days
three_days-IsPast s =
    (due 0 100 10 (omega arith), (due 1 110 10 (omega arith), (due 2 130 20 (omega arith), tt)))

fourth_day-IsLater : IsLater horizon fourth_day
fourth_day-IsLater = record {
  opens = λ s. (omega arith, tt);
  daily = λ s. (omega arith, tt);
  weekly = λ s. tt;
  monthly = λ s. tt;
  funding = λ s. tt;
}

run_timeline-extended_example :
    run_timeline format_time config (extended three_days fourth_day) ≡ (do
      rt ← run_timeline format_time config three_days
      for_each
          (run_day format_time config (extended three_days fourth_day))
          (build_timeline fourth_day.daily config.symbols)
          rt)
run_timeline-extended_example =
    run_timeline-extended horizon three_days fourth_day three_days-IsPast fourth_day-IsLater
      format_time config

fill_pending_at_open-serves_example :
    All
      (λ (p : PendingIntent).
        str_eq p.symbol "BTC" ≡ true → seen p.client_intent_id filled.processed_intent_ids ≡ true)
      waiting.pending_intents
    × ((f : PendingIntent → Bool)
        → any f filled.pending_intents
          ≡ any (λ p. f p && not (str_eq p.symbol "BTC")) waiting.pending_intents)
    × ((id : String)
        → seen id waiting.processed_intent_ids ≡ true
        → seen id filled.processed_intent_ids ≡ true)
fill_pending_at_open-serves_example =
    fill_pending_at_open-serves config "BTC" (candle daily 3 131 10) day_candles no_marks waiting
      filled runs.3

fill_intent-Outcome_example :
    Outcome config "BTC"
      (candle daily 3 131 10)
      day_candles
      no_marks
      intent
      (initial_runtime config)
      after_intent
fill_intent-Outcome_example =
    fill_intent-Outcome config "BTC" (candle daily 3 131 10) day_candles no_marks intent
      (initial_runtime config) after_intent runs.4

build_timeline-Ascending_example :
    Ascending (build_timeline bundle.daily config.symbols)
    × ((t : Time)
        → has t (build_timeline bundle.daily config.symbols)
          ≡ any (λ s. opens_at t (bundle.daily s)) config.symbols)
build_timeline-Ascending_example = build_timeline-Ascending bundle.daily config.symbols

-- A stop at 120 on a candle from 131 with a low of 119.
abbrev falling : Candle
falling = record (candle daily 3 131 10) { low = of_ℕ 119 }

falling_bounds : LowBounds falling
unfolding le
falling_bounds = refl

compute_stop_trigger-none_example :
    (compute_stop_trigger falling (of_ℕ 120) (of_ℕ 110) (of_ℕ 120) ≡ none)
    ↔ (lt (of_ℕ 120) falling.low ≡ true)
compute_stop_trigger-none_example =
    compute_stop_trigger-none falling (of_ℕ 120) (of_ℕ 110) (of_ℕ 120) falling_bounds

abbrev trigger : StopTriggerResult
trigger = record { exit_reason = stop_trailing_hit; exit_reference = of_ℕ 120 }

falling_fires : compute_stop_trigger falling (of_ℕ 120) (of_ℕ 110) (of_ℕ 120) ≡ some trigger
unfolding digits half_even scaled fix lt le eq nonpos negative max_dec min_dec add sub mul absolute
    quotient div truncate to_integral_value sum_from is_finite no_entry_evaluation rejection_codes
    assess ema_from compute_ema true_range true_ranges wilder_from compute_wilder_atr windows means
    compute_volume_sma ratio_entry ratios compute_volume_ratio max_from max_of compute_high20
    select_entry missing_indicator decide quality_of evaluate_strategy evaluate_monthly_regime
    evaluate_weekly_trend evaluate_volume_ok evaluate_breakout_setup evaluate_pullback_setup
    resolve_entry_priority first_not_finite validate_levels validate_ohlc min_candles_for_warmup
    candle_errors series_errors series_status validate_candle_series check_warmup_complete
    read_indicators values_of round_to_tick on_tick compute_initial_stop initialize_trailing_stop
    update_trailing_stop check_loss_limit check_drawdown when_enabled ◌or_else◌ check_loss_limits
    open_risk_usd current_open_risk_usd total_notional_usd build_portfolio_snapshot validate_account
    validate_constraints first_bad_limit validate_parameters first_bad_value validate_position
    validate_positions_from validate_open_positions validate_proposal validate_long_stop trade_limit
    within_risk step_down cap_loop rounds apply_risk_cap_after_rounding sized
    compute_position_sizing cap_quantity_for_leverage cap_quantity_for_margin reject_decision
    check_inputs rounded_stop check_slots sized_quantity check_minima capped_quantity
    check_portfolio approve evaluate_risk is_step_aligned first_not_positive check_notional_and_step
    validate_symbol_constraints_core floor_to_step round_risk_to_tick mark_at_open
    resolve_marks_at_open compute_used_margin unrealized_from compute_unrealized_pnl compute_equity
    compute_available_margin position_margin to_position_states prior_from prior_close
    to_open_orders mark_prices_from_candles build_account_state apply_entry_slippage
    apply_exit_slippage compute_fee compute_slippage_cost compute_funding_payment initial_runtime
    get_constraints mark_terminal_intent reject_intent days_between for_each
    compute_entry_fill_prices entry_request evaluate_entry_risk_decision compute_entry_accounting
    without_approval filter_rejection_reason_codes compute_gap_stop_at_open compute_intraday_stop
    compute_stop_trigger compute_exit_accounting compute_trailing_stop_update
    build_simulated_position_from_entry safe_r closed_trade close_trade exit_position stop_trigger
    check_stop_exit pay_funding pay_events apply_funding last_evaluation trail_position
    update_trailing slice_closed_candles build_candle_series evaluation_time_for_daily put_time
    by_open_time_from by_open_time add_time add_times build_timeline_from build_timeline intents_of
    opened_trade open_position enter fill_intent fill_pending_at_open build_client_intent_id
    queue_intent queue_evaluation strategy_and_queue day_candles_of prior_closes_of record_equity
    trade_day run_day run_timeline
falling_fires = refl

compute_stop_trigger-le_example :
    (le trigger.exit_reference (of_ℕ 120) ≡ true)
    × (le trigger.exit_reference falling.open_price ≡ true)
    × ((trigger.exit_reference ≡ falling.open_price) ⊎ (trigger.exit_reference ≡ of_ℕ 120))
compute_stop_trigger-le_example =
    compute_stop_trigger-le falling (of_ℕ 120) (of_ℕ 110) (of_ℕ 120) trigger falling_fires

validate_chronological-none_example :
    (validate_chronological (bundle.daily "BTC") ≡ []) ↔ IsChronological (bundle.daily "BTC")
validate_chronological-none_example = validate_chronological-none (bundle.daily "BTC")

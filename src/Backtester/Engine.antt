-- ===== src/Backtester/Engine.antt =====
-- services/backtester/engine.py: `BacktestEngine.run`, a day at a time.
use save_money_trading_bot.Prelude.{
  String, false, none, some, List, [], ◌∷◌, ◌++◌, any, length, str_eq, if◌then◌else◌,
}
use save_money_trading_bot.Prelude.Dict.{Dict, lookup, values}
use save_money_trading_bot.Decimal.{Decimal, Exc, ok, ◌>>=◌, add, sub, div, eq, max_dec, zero_dec}
use save_money_trading_bot.StrategyEngine.Models.{Time, Candle}
use save_money_trading_bot.Backtester.Models.{
  BacktestConfig, HistoricalDataBundle, EquitySnapshot, DrawdownSnapshot,
}
use save_money_trading_bot.Backtester.Portfolio.{
  Marks, candle_at, prior_close, mark_prices_from_candles, compute_unrealized_pnl,
}
use save_money_trading_bot.Backtester.Slicing.{
  evaluation_time_for_daily, by_open_time, build_timeline,
}
use save_money_trading_bot.Backtester.Runtime.{Runtime, initial_runtime, for_each}
use save_money_trading_bot.Backtester.Exits.{check_stop_exit, apply_funding, update_trailing}
use save_money_trading_bot.Backtester.Entries.{fill_pending_at_open, strategy_and_queue}

-- The candles of a day: for each symbol that has one, in the order of the symbols.
unfoldable pub day_candles_of :
    HistoricalDataBundle → (symbols : List String) (open_time : Time) → Dict Candle
day_candles_of bundle [] open_time = []
day_candles_of bundle (sym ∷ syms) open_time =
    let rest = day_candles_of bundle syms open_time in
    elim (candle_at (by_open_time (bundle.daily sym)) open_time) [
      | none ↦ rest
      | some c ↦ (sym, c) ∷ rest
    ]

-- `prior_closes_from_timeline`: the closes of the configured symbols.
unfoldable pub prior_closes_of :
    HistoricalDataBundle → (symbols : List String) (before_open : Time) → Marks
prior_closes_of bundle symbols before_open sym =
    if any (str_eq sym) symbols
    then prior_close (by_open_time (bundle.daily sym)) before_open
    else none

-- `{s: c.close for s, c in day_candles.items()}`
abbrev pub closes_of : Dict Candle → Marks
closes_of candles sym = elim (lookup sym candles) [ some c ↦ some c.close | none ↦ none ]

-- The end of a day: the equity at the closes.
unfoldable pub record_equity : (closes : Marks) (eval_time : Time) → Runtime → Runtime
record_equity closes eval_time rt =
    let ps = values rt.positions in
    let unrealized = compute_unrealized_pnl ps (mark_prices_from_candles ps closes) in
    let equity = add rt.cash unrealized in
    record rt {
      peak_equity = max_dec rt.peak_equity equity;
      equity_curve =
          rt.equity_curve
          ++ record {
            time = eval_time;
            cash = rt.cash;
            equity = equity;
            unrealized_pnl = unrealized;
            open_positions = length ps;
          }
            ∷ [];
    }

-- `_apply_funding` where the model is enabled.
abbrev pub fund_day :
    BacktestConfig → HistoricalDataBundle → String × Candle → Runtime → Exc Runtime
fund_day config bundle (sym, c) rt =
    if config.funding_model.enabled then ok (apply_funding config bundle sym c rt) else ok rt

module _ (format_time : Time → String) (config : BacktestConfig)
    (bundle : HistoricalDataBundle) where
  -- The steps of a day over one symbol.
  abbrev pub fill_step :
      (candles : Dict Candle) (open_time : Time) → String × Candle → Runtime → Exc Runtime
  fill_step candles open_time e =
      fill_pending_at_open config e.0 e.1 (λ s. lookup s candles)
        (prior_closes_of bundle config.symbols open_time)

  abbrev pub stop_step : String × Candle → Runtime → Exc Runtime
  stop_step e = check_stop_exit config false e.0 e.1

  abbrev pub signal_step : String × Candle → Runtime → Exc Runtime
  signal_step e = strategy_and_queue format_time config bundle e.0 (evaluation_time_for_daily e.1)

  abbrev pub trail_step : (now : Time) → String × Candle → Runtime → Exc Runtime
  trail_step now e = update_trailing config bundle e.0 e.1 now

  -- The steps of a day with candles, each over the symbols that have one: fills at the open, stops,
  -- funding, signals, trailing stops, and the equity. The evaluation time of the trailing stops and of
  -- the equity is that of the first candle.
  unfoldable pub trade_day :
      (open_time : Time) (first : String × Candle) (others : Dict Candle) → Runtime → Exc Runtime
  unfolding record_equity prior_closes_of
  trade_day open_time first others rt =
      let candles = first ∷ others in
      let eval_time = evaluation_time_for_daily first.1 in
      do
        filled ← for_each (fill_step candles open_time) candles rt
        stopped ← for_each stop_step candles filled
        funded ← for_each (fund_day config bundle) candles stopped
        queued ← for_each signal_step candles funded
        trailed ← for_each (trail_step eval_time) candles queued
        ok (record_equity (closes_of candles) eval_time trailed)

  -- The body of the loop over the timeline; a day without candles is passed over.
  unfoldable pub run_day : (open_time : Time) → Runtime → Exc Runtime
  unfolding trade_day day_candles_of
  run_day open_time rt = elim (day_candles_of bundle config.symbols open_time) [
    | [] ↦ ok rt
    | first ∷ others ↦ trade_day open_time first others rt
  ]

  -- The loop over the timeline.
  unfoldable pub run_timeline : Exc Runtime
  unfolding run_day for_each
  run_timeline =
      for_each run_day (build_timeline bundle.daily config.symbols) (initial_runtime config)

-- `_safe_div`, with `or Decimal("0")`.
unfoldable pub drawdown_share : (fall peak : Decimal) → Exc Decimal
drawdown_share fall peak = if eq peak zero_dec then ok zero_dec else div fall peak

-- `compute_drawdown_curve` from a peak.
unfoldable pub drawdown_from : (peak : Decimal) → List EquitySnapshot → Exc (List DrawdownSnapshot)
unfolding drawdown_share
drawdown_from peak [] = ok []
drawdown_from peak (snap ∷ snaps) = do
  let peak' = max_dec peak snap.equity
  share ← drawdown_share (sub peak' snap.equity) peak'
  rest ← drawdown_from peak' snaps
  ok (
      record { time = snap.time; equity = snap.equity; peak_equity = peak'; drawdown_pct = share }
      ∷ rest)

unfoldable pub compute_drawdown_curve : List EquitySnapshot → Exc (List DrawdownSnapshot)
unfolding drawdown_from
compute_drawdown_curve curve = drawdown_from zero_dec curve

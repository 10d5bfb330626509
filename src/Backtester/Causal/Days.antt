-- ===== src/Backtester/Causal/Days.antt =====
-- No step of a day looks ahead: a run over an extended history goes through the end of the run over the
-- shorter one.
use save_money_trading_bot.Prelude.{
  ◌≤◌, ◌≡◌, ap, ◌∙◌, String, [], ◌∷◌, ◌++◌, All, arith, inl, inr, List-cases,
}
use mathlib.Core.Path.{subst}
use save_money_trading_bot.Prelude.Dict.{Dict, lookup}
use save_money_trading_bot.Decimal.{Exc, ok, ◌>>=◌}
use save_money_trading_bot.StrategyEngine.Models.{Time, Candle}
use save_money_trading_bot.StrategyEngine.Engine as StrategyEngine
use save_money_trading_bot.Backtester.Models.{BacktestConfig, HistoricalDataBundle}
use save_money_trading_bot.Backtester.Portfolio.{Marks}
use save_money_trading_bot.Backtester.Slicing.{evaluation_time_for_daily, build_timeline}
use save_money_trading_bot.Backtester.Slicing.Horizon.{build_timeline-All, build_timeline-append}
use save_money_trading_bot.Backtester.Runtime.{Runtime, initial_runtime, for_each}
use save_money_trading_bot.Backtester.Entries.{
  fill_pending_at_open, strategy_and_queue, queue_evaluation,
}
use save_money_trading_bot.Backtester.Engine.{
  day_candles_of, closes_of, record_equity, fund_day, fill_step, stop_step, signal_step, trail_step,
  trade_day, run_day, run_timeline,
}
use save_money_trading_bot.Backtester.Causal.{extended, IsDue, IsPast, IsLater}
use save_money_trading_bot.Backtester.Causal.Steps.{
  for_each_same, for_each-append, opened-All, loop_same, day_candles_of-extended,
  prior_closes_of-extended, day_candles_of-IsDue, strategy_request-extended,
  update_trailing-extended, fund_day-extended,
}

-- The steps of a day, one after the other.
abbrev in_turn :
    (fill stop fund signal trail : Runtime → Exc Runtime) (measure : Runtime → Runtime)
    → Runtime
    → Exc Runtime
in_turn fill stop fund signal trail measure rt = do
  filled ← fill rt
  stopped ← stop filled
  funded ← fund stopped
  queued ← signal funded
  trailed ← trail queued
  ok (measure trailed)

module _ (horizon : Time) (bundle late : HistoricalDataBundle) (past : IsPast horizon bundle)
    (later : IsLater horizon late) (format_time : Time → String) (config : BacktestConfig) where
  signal_step-extended :
      (e : String × Candle) (rt : Runtime)
      → IsDue horizon e.1
      → signal_step format_time config (extended bundle late) e rt
        ≡ signal_step format_time config bundle e rt
  unfolding strategy_and_queue
  signal_step-extended (s, c) rt due =
      ap
        (λ r. do
          e ← StrategyEngine.evaluate r
          ok (
              queue_evaluation format_time s (evaluation_time_for_daily c) e
                (record rt { evaluations = rt.evaluations ++ e ∷ [] })))
        (strategy_request-extended horizon bundle late past later config s
          (evaluation_time_for_daily c) due.evaluated)

  trade_day-extended :
      (open_time : Time) (first : String × Candle) (others : Dict Candle) (rt : Runtime)
      → open_time ≤ horizon
      → All (λ (e : String × Candle). IsDue horizon e.1) (first ∷ others)
      → trade_day format_time config (extended bundle late) open_time first others rt
        ≡ trade_day format_time config bundle open_time first others rt
  unfolding trade_day
  trade_day-extended open_time first others rt b due =
      let candles = first ∷ others in
      let now = evaluation_time_for_daily first.1 in
      let b' = extended bundle late in
      let P = λ (e : String × Candle). IsDue horizon e.1 in
      let fills : for_each (fill_step format_time config b' candles open_time) candles
          ≡ for_each (fill_step format_time config bundle candles open_time) candles =
        ap
          (λ (closes : Marks).
            for_each
              (λ (e : String × Candle).
                fill_pending_at_open config e.0 e.1 (λ s. lookup s candles) closes)
              candles)
          (prior_closes_of-extended horizon bundle late past later config.symbols open_time b) in
      let funds : for_each (fund_day config b') candles
          ≡ for_each (fund_day config bundle) candles =
        loop_same P _ _ candles (fund_day-extended horizon bundle late past later config) due in
      let signals : for_each (signal_step format_time config b') candles
          ≡ for_each (signal_step format_time config bundle) candles =
        loop_same P _ _ candles signal_step-extended due in
      let trails : for_each (trail_step format_time config b' now) candles
          ≡ for_each (trail_step format_time config bundle now) candles =
        loop_same P _ _ candles
          (λ e rt _.
            update_trailing-extended horizon bundle late past later config e.0 e.1 now rt
              (due.0).evaluated)
          due in
      λ i.
        in_turn (fills i) (for_each (stop_step format_time config bundle) candles) (funds i)
          (signals i) (trails i) (record_equity (closes_of candles) now) rt

  run_day-extended :
      (open_time : Time) (rt : Runtime)
      → open_time ≤ horizon
      → run_day format_time config (extended bundle late) open_time rt
        ≡ run_day format_time config bundle open_time rt
  unfolding run_day
  run_day-extended open_time rt b =
      let same =
        day_candles_of-extended horizon bundle late past later config.symbols open_time b in
      let due = day_candles_of-IsDue horizon bundle late past later config.symbols open_time in
      elim (List-cases (day_candles_of bundle config.symbols open_time)) [
        | inl empty ↦ ground (arith, same, empty)
        | inr (first, others, traded) ↦
            rw (run_day, same, traded)
              (trade_day-extended open_time first others rt b
                (subst (All (λ (e : String × Candle). IsDue horizon e.1)) traded due))
      ]

  -- A run over a history to which only later candles and funding events are added is the run over the
  -- history itself, and then the later days from the state that it leaves; where the shorter run raises,
  -- the longer one raises the same. The daily candles of the history open, and are evaluated, up to a
  -- horizon; what is added opens, closes and is paid after it.
  pub run_timeline-extended : run_timeline format_time config (extended bundle late) ≡ (do
    rt ← run_timeline format_time config bundle
    for_each
        (run_day format_time config (extended bundle late))
        (build_timeline late.daily config.symbols)
        rt)
  unfolding run_timeline
  run_timeline-extended =
      let days = run_day format_time config (extended bundle late) in
      let before = build_timeline bundle.daily config.symbols in
      let after = build_timeline late.daily config.symbols in
      let timeline =
        build_timeline-append horizon bundle.daily late.daily config.symbols
          (λ s. opened-All horizon (bundle.daily s) (past s)) later.opens in
      let due =
        build_timeline-All (λ t. t ≤ horizon) bundle.daily config.symbols
          (λ s. opened-All horizon (bundle.daily s) (past s)) in
      let same =
        for_each_same (λ t. t ≤ horizon) days (run_day format_time config bundle) before
          (initial_runtime config) (λ t rt b. run_day-extended t rt b) due in
      ap (λ ts. for_each days ts (initial_runtime config)) timeline
      ∙ (for_each-append days before after (initial_runtime config)
          ∙ ap (λ m. m >>= for_each days after) same)

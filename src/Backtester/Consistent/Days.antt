-- ===== src/Backtester/Consistent/Days.antt =====
-- A day, and a run of days, keep the state consistent.
use save_money_trading_bot.Prelude.{
  ◌≡◌, refl, String, true, false, List, [], ◌∷◌, ◌++◌, All, any, str_eq, eq_iff, arith,
}
use save_money_trading_bot.Decimal.{Decimal, ok, le, max_dec}
use save_money_trading_bot.Decimal.Order.{le_trans, le-max_left, le-max_right}
use save_money_trading_bot.StrategyEngine.Models.{Time}
use save_money_trading_bot.Prelude.Dict.{contains}
use save_money_trading_bot.Backtester.Models.{
  BacktestConfig, HistoricalDataBundle, PendingIntent, EquitySnapshot,
}
use save_money_trading_bot.Backtester.Portfolio.{Marks}
use save_money_trading_bot.Backtester.Runtime.{Runtime, initial_runtime}
use save_money_trading_bot.Backtester.Engine.{record_equity, run_timeline}
use save_money_trading_bot.Backtester.Keeps.{IsFree, IsKept, run_timeline_keeps}
use save_money_trading_bot.Backtester.Consistent.{OneEach, IsConsistent}
use save_money_trading_bot.Backtester.Consistent.Steps.{
  check_stop_exit-IsConsistent, apply_funding-IsConsistent,
}
use save_money_trading_bot.Backtester.Consistent.Trails.{update_trailing-IsConsistent}
use save_money_trading_bot.Backtester.Consistent.Fills.{fill_pending_at_open-IsConsistent}

-- What holds of a list and of one more, holds of the list with it at the end.
All-append :
    (P : PendingIntent → Type 0) (ps : List PendingIntent) (p : PendingIntent)
    → All P ps
    → P p
    → All P (ps ++ p ∷ [])
All-append P [] p h x = (x, tt)
All-append P (q ∷ ps) p h x = (h.0, All-append P ps p h.1 x)

OneEach-append :
    (ps : List PendingIntent) (p : PendingIntent)
    → any (λ (q : PendingIntent). str_eq q.symbol p.symbol) ps ≡ false
    → OneEach ps
    → OneEach (ps ++ p ∷ [])
OneEach-append [] p none_of h = (tt, tt)
OneEach-append (q ∷ ps) p none_of h = (
  All-append (λ (r : PendingIntent). str_eq r.symbol q.symbol ≡ false) ps p h.0
      (ground (arith, none_of, eq_iff p.symbol q.symbol, eq_iff q.symbol p.symbol)),
  OneEach-append ps p (ground (arith, none_of)) h.1,
)

-- A pending intent for a symbol without one, not held.
queued-IsConsistent :
    (rt : Runtime) (p : PendingIntent)
    → IsConsistent rt
    → IsFree rt p
    → IsConsistent (record rt { pending_intents = rt.pending_intents ++ p ∷ [] })
queued-IsConsistent rt p c free = record {
  positions_stand = c.positions_stand;
  traded = c.traded;
  recorded = c.recorded;
  one_each = OneEach-append rt.pending_intents p free.none_of c.one_each;
  not_held =
      All-append (λ (q : PendingIntent). contains q.symbol rt.positions ≡ false) rt.pending_intents
        p c.not_held free.unheld;
  peak = c.peak;
}

-- A higher peak is a peak; the equity of the last snapshot is below its own.
peak-append :
    (peak : Decimal) (curve : List EquitySnapshot) (s : EquitySnapshot)
    → All (λ (z : EquitySnapshot). le z.equity peak ≡ true) curve
    → All (λ (z : EquitySnapshot). le z.equity (max_dec peak s.equity) ≡ true) (curve ++ s ∷ [])
peak-append peak [] s h = (le-max_right peak s.equity, tt)
peak-append peak (z ∷ curve) s h = (
  le_trans z.equity peak (max_dec peak s.equity) h.0 (le-max_left peak s.equity),
  peak-append peak curve s h.1,
)

record_equity-IsConsistent :
    (closes : Marks) (eval_time : Time) (rt : Runtime)
    → IsConsistent rt
    → IsConsistent (record_equity closes eval_time rt)
unfolding record_equity
record_equity-IsConsistent closes eval_time rt c = record {
  positions_stand = c.positions_stand;
  traded = c.traded;
  recorded = c.recorded;
  one_each = c.one_each;
  not_held = c.not_held;
  peak = peak-append rt.peak_equity rt.equity_curve _ c.peak;
}

initial_runtime-IsConsistent : (config : BacktestConfig) → IsConsistent (initial_runtime config)
unfolding initial_runtime
initial_runtime-IsConsistent config = record {
  positions_stand = tt;
  traded = λ k. refl;
  recorded = λ k. refl;
  one_each = tt;
  not_held = tt;
  peak = tt;
}

IsConsistent-IsKept :
    (config : BacktestConfig) (bundle : HistoricalDataBundle) → IsKept config bundle IsConsistent
IsConsistent-IsKept config bundle = record {
  filled = fill_pending_at_open-IsConsistent config;
  stopped = check_stop_exit-IsConsistent config false;
  funded = apply_funding-IsConsistent config bundle;
  evaluated = λ e rt c. record {
    positions_stand = c.positions_stand;
    traded = c.traded;
    recorded = c.recorded;
    one_each = c.one_each;
    not_held = c.not_held;
    peak = c.peak;
  };
  queued = queued-IsConsistent;
  trailed = update_trailing-IsConsistent config bundle;
  measured = record_equity-IsConsistent;
}

-- The state at the end of a run that raises nothing is consistent: every position stands under its own
-- symbol, holds a positive quantity and has the higher of its two stops in force; the active trades and
-- the stop histories are those of the positions; no symbol has two pending intents, and none is for a
-- symbol that is held; and no equity of the curve is above the peak.
pub run_timeline-IsConsistent :
    (format_time : Time → String) (config : BacktestConfig) (bundle : HistoricalDataBundle)
    (rt : Runtime)
    → run_timeline format_time config bundle ≡ ok rt
    → IsConsistent rt
run_timeline-IsConsistent format_time config bundle rt h =
    run_timeline_keeps format_time config bundle IsConsistent (IsConsistent-IsKept config bundle) rt
      (initial_runtime-IsConsistent config) h

-- ===== src/StrategyEngine/Stops.antt =====
-- services/strategy_engine/stops.py: the initial stop and the trailing stop.
pub mod Trailing
use save_money_trading_bot.Prelude.{Option, none, some, if◌then◌else◌}
use save_money_trading_bot.Decimal.{
  Decimal, Exc, ok, raised, value_error, ◌>>=◌, nonpos, sub, mul, div, truncate, max_dec,
}
use save_money_trading_bot.StrategyEngine.Models.{StrategyParameters, TrailingStopState}

unfoldable pub round_to_tick : Decimal → Decimal → Exc Decimal
round_to_tick price tick_size =
    if nonpos tick_size
    then raised value_error
    else (do q ← div price tick_size; ok (mul (truncate q) tick_size))

-- `if tick_size is not None: stop = round_to_tick(stop, tick_size)`
unfoldable pub on_tick : Option Decimal → Decimal → Exc Decimal
on_tick none stop = ok stop
on_tick (some tick_size) stop = round_to_tick stop tick_size

unfoldable pub compute_initial_stop :
    (entry_price atr14 : Decimal) → StrategyParameters → Option Decimal → Exc Decimal
compute_initial_stop entry_price atr14 params tick_size =
    on_tick tick_size (sub entry_price (mul params.stop_initial_atr_mult atr14))

unfoldable pub initialize_trailing_stop :
    (entry_price atr14_at_entry stop_initial : Decimal)
    → StrategyParameters
    → Option Decimal
    → Exc TrailingStopState
initialize_trailing_stop entry_price atr14_at_entry stop_initial params tick_size = do
  let candidate = sub entry_price (mul params.trail_atr_mult atr14_at_entry)
  trail_stop ← on_tick tick_size (max_dec candidate stop_initial)
  ok (record {
    entry_price = entry_price;
    stop_initial = stop_initial;
    highest_close = entry_price;
    trail_stop = trail_stop;
    effective_stop = max_dec stop_initial trail_stop;
  })

-- `update_trailing_stop`, the seven steps of the specification.
unfoldable pub update_trailing_stop :
    TrailingStopState
    → (close_t atr14_daily_t : Decimal) → StrategyParameters
    → Option Decimal
    → Exc TrailingStopState
update_trailing_stop state close_t atr14_daily_t params tick_size = do
  let highest_close = max_dec state.highest_close close_t
  let trail_candidate = sub highest_close (mul params.trail_atr_mult atr14_daily_t)
  let trail_stop = max_dec (max_dec state.trail_stop trail_candidate) state.stop_initial
  trail_stop' ← on_tick tick_size trail_stop
  ok (record {
    entry_price = state.entry_price;
    stop_initial = state.stop_initial;
    highest_close = highest_close;
    trail_stop = trail_stop';
    effective_stop = max_dec state.stop_initial trail_stop';
  })

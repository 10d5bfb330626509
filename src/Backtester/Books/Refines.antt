-- ===== src/Backtester/Books/Refines.antt =====
-- The steps of a run are steps of its book.
pub mod Days
use save_money_trading_bot.Prelude.{
  ◌≡◌, refl, sym, ap, ◌∙◌, ◌⊎◌, String, Bool, true, false, Option, none, some, List, [], ◌∷◌, ◌++◌,
  any, str_eq, arith, inl, inr, Option-cases, Bool-cases, List-cases, if◌then◌else◌, leb, ◌&&◌,
}
use mathlib.Core.Path.{subst}
use save_money_trading_bot.Prelude.Dict.{lookup, put, erase, contains}
use save_money_trading_bot.Decimal.{Decimal, Exc, ok, raised, Exc-cases, ◌>>=◌, add, sub, mul}
use save_money_trading_bot.StrategyEngine.Codes.{ReasonCode, EntryType, is_long_entry}
use save_money_trading_bot.StrategyEngine.Models.{Time, Candle, StrategyEvaluation}
use save_money_trading_bot.StrategyEngine.Stops.{update_trailing_stop}
use save_money_trading_bot.StrategyEngine.Engine as StrategyEngine
use save_money_trading_bot.RiskEngine.Validation.{seen}
use save_money_trading_bot.Backtester.Models.{
  OrderStatus, order_filled, order_rejected, BacktestConfig, HistoricalDataBundle, PendingIntent,
  SimulatedOrder, SimulatedPosition, BacktestTrade, FundingEvent,
}
use save_money_trading_bot.Backtester.Portfolio.{Marks}
use save_money_trading_bot.Backtester.Execution.{compute_funding_payment}
use save_money_trading_bot.Backtester.Lifecycle.{
  StopTriggerResult, ExitAccounting, compute_exit_accounting,
}
use save_money_trading_bot.Backtester.Runtime.{
  Runtime, mark_terminal_intent, reject_intent, for_each,
}
use save_money_trading_bot.Backtester.Exits.{
  close_trade, closed_trade, exit_position, stop_trigger, check_stop_exit, pay_funding, pay_events,
  apply_funding, safe_r, history_of,
}
use save_money_trading_bot.Backtester.Entries.{
  intents_of, open_position, fill_intent, fill_pending_at_open, build_client_intent_id,
  queue_intent, queue_evaluation, strategy_request, strategy_and_queue,
}
use save_money_trading_bot.Backtester.Outcome.{
  IsEntered, Outcome, passed_over, rejected, entered, fill_intent-Outcome,
}
use save_money_trading_bot.Backtester.Keeps.{ok-bind, ok-injective, for_each_keeps}
use save_money_trading_bot.Backtester.Books.{
  Book, book_of, IsFinal, IsClosed, BookStep, queue, take, finish, close, Books, start, then_step,
}

-- A state whose book is reached from `a`.
abbrev pub Writes : Book → Runtime → Type 0
Writes a rt = Books a (book_of rt)

close_trade-Books :
    (a : Book) (symbol : String) (candle : Candle) (t : StopTriggerResult) (exit : ExitAccounting)
    (trade : Option BacktestTrade) (rt rt' : Runtime)
    → Writes a rt
    → close_trade symbol candle t exit trade rt ≡ ok rt'
    → Writes a rt'
unfolding close_trade closed_trade
close_trade-Books a symbol candle t exit none rt rt' s h = subst (Writes a) (ok-injective h) s
close_trade-Books a symbol candle t exit (some trade) rt rt' s h =
    let net = sub (sub exit.gross_pnl (add trade.fees exit.fee)) trade.funding in
    let (r, rs, ends) = ok-bind (safe_r trade.initial_risk_usd net) _ rt' h in
    let closed = closed_trade candle t exit (history_of rt.trail_history symbol) trade r in
    let is_closed : IsClosed closed net = record {
      gross = exit.gross_pnl;
      gross_lem = refl;
      net_lem = refl;
      net_pnl_lem = refl;
    } in
    subst (Writes a) (ok-injective ends) (then_step s (close closed net is_closed))

exit_position-Books :
    (a : Book) (config : BacktestConfig) (symbol : String) (candle : Candle) (p : SimulatedPosition)
    (t : StopTriggerResult) (rt rt' : Runtime)
    → Writes a rt
    → exit_position config symbol candle p t rt ≡ ok rt'
    → Writes a rt'
unfolding exit_position
exit_position-Books a config symbol candle p t rt rt' s h =
    let (exit, exits, h₁) =
      ok-bind
        (compute_exit_accounting t.exit_reference p.quantity p.entry_price
          config.slippage_model.slippage_bps config.fee_model.exit_fee_rate)
        _ rt' h in
    let paid = record rt {
      cash = add rt.cash exit.net_wallet_delta;
      total_fees = add rt.total_fees exit.fee;
      total_slippage = add rt.total_slippage exit.slippage_cost;
      active_trades = erase symbol rt.active_trades;
    } in
    let (closed, closes, h₂) =
      ok-bind (close_trade symbol candle t exit (lookup symbol rt.active_trades) paid) _ rt' h₁ in
    subst (Writes a) (ok-injective h₂) (
      close_trade-Books a symbol candle t exit (lookup symbol rt.active_trades) paid closed s
        closes)

pub check_stop_exit-Books :
    (a : Book) (config : BacktestConfig) (at_open : Bool) (symbol : String) (candle : Candle)
    (rt rt' : Runtime)
    → Writes a rt
    → check_stop_exit config at_open symbol candle rt ≡ ok rt'
    → Writes a rt'
unfolding check_stop_exit
check_stop_exit-Books a config at_open symbol candle rt rt' s h =
    elim (Option-cases (lookup symbol rt.positions)) [
      | inl unheld ↦ let same : rt ≡ rt' = ok-injective (ground arith) in subst (Writes a) same s
      | inr (p, held) ↦ elim (Option-cases (stop_trigger at_open candle p)) [
        | inl quiet ↦ let same : rt ≡ rt' = ok-injective (ground arith) in subst (Writes a) same s
        | inr (t, fires) ↦ exit_position-Books a config symbol candle p t rt rt' s (ground arith)
      ]
    ]

-- The end of an intent that was not processed before.
finished :
    (a : Book) (rt : Runtime) (intent : PendingIntent) (status : OrderStatus)
    (quantity reference_price : Option Decimal)
    → seen intent.client_intent_id rt.processed_intent_ids ≡ false
    → (status ≡ order_filled) ⊎ (status ≡ order_rejected)
    → Writes a rt
    → Writes a (mark_terminal_intent intent status quantity reference_price rt)
unfolding mark_terminal_intent
finished a rt intent status quantity reference_price new final s =
    rw new
      (then_step s (finish intent.client_intent_id _ new (record { for_id = refl; final = final })))

pub fill_intent-Books :
    (a : Book) (config : BacktestConfig) (symbol : String) (candle : Candle)
    (day_candles : String → Option Candle) (prior_closes : Marks) (intent : PendingIntent)
    (rt rt' : Runtime)
    → Writes a rt
    → fill_intent config symbol candle day_candles prior_closes intent rt ≡ ok rt'
    → Writes a rt'
unfolding reject_intent open_position
fill_intent-Books a config symbol candle day_candles prior_closes intent rt rt' s h =
    elim (fill_intent-Outcome config symbol candle day_candles prior_closes intent rt rt' h) [
      | passed_over old same ↦ subst (Writes a) (sym same) s
      | rejected codes new same untouched ↦
          subst (Writes a) (sym same)
            (finished a rt intent order_rejected none none new (inr refl) s)
      | entered opened new e exits ↦
          check_stop_exit-Books a config true symbol candle opened rt'
            (subst (Writes a) (sym e.opened_lem) (
              finished a rt intent order_filled (some e.accounting.quantity)
                (some candle.open_price) new (inl refl) s))
            exits
    ]

pub fill_pending_at_open-Books :
    (a : Book) (config : BacktestConfig) (symbol : String) (candle : Candle)
    (day_candles : String → Option Candle) (prior_closes : Marks) (rt rt' : Runtime)
    → Writes a rt
    → fill_pending_at_open config symbol candle day_candles prior_closes rt ≡ ok rt'
    → Writes a rt'
unfolding fill_pending_at_open
fill_pending_at_open-Books a config symbol candle day_candles prior_closes rt rt' s h =
    for_each_keeps (Writes a) (fill_intent config symbol candle day_candles prior_closes)
      (fill_intent-Books a config symbol candle day_candles prior_closes)
      (intents_of true symbol rt.pending_intents) _ rt' (then_step s (take symbol)) h

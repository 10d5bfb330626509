-- ===== src/Backtester/Books/Refines/Days.antt =====
-- A run refines the steps of its book.
use save_money_trading_bot.Prelude.{
  ◌≡◌, refl, sym, ap, String, false, List, [], ◌∷◌, arith, inl, inr, Option-cases, Bool-cases,
  List-cases, leb, ◌&&◌,
}
use mathlib.Core.Path.{subst}
use save_money_trading_bot.Prelude.Dict.{lookup}
use save_money_trading_bot.Decimal.{Decimal, ok, mul}
use save_money_trading_bot.StrategyEngine.Models.{Time, Candle}
use save_money_trading_bot.Backtester.Models.{
  BacktestConfig, HistoricalDataBundle, SimulatedPosition, FundingEvent,
}
use save_money_trading_bot.Backtester.Execution.{compute_funding_payment}
use save_money_trading_bot.Backtester.Lifecycle.{compute_trailing_stop_update}
use save_money_trading_bot.Backtester.Slicing.{slice_closed_candles}
use save_money_trading_bot.Backtester.Runtime.{Runtime, initial_runtime, get_constraints}
use save_money_trading_bot.Backtester.Exits.{
  pay_funding, pay_events, apply_funding, trail_position, update_trailing, trail_state_of, atr_or,
  last_evaluation,
}
use save_money_trading_bot.Backtester.Engine.{record_equity, run_timeline}
use save_money_trading_bot.Backtester.Keeps.{ok-bind, ok-injective, IsKept, run_timeline_keeps}
use save_money_trading_bot.Backtester.Books.{
  Book, IsBook, Books-IsBook, net_from, book_of, queue, Books, start, then_step,
}
use save_money_trading_bot.Backtester.Books.Refines.{
  Writes, check_stop_exit-Books, fill_pending_at_open-Books,
}

pay_events-book :
    (symbol : String) (notional : Decimal) (candle : Candle) (evs : List FundingEvent)
    (rt : Runtime)
    → book_of (pay_events symbol notional candle evs rt) ≡ book_of rt
unfolding pay_events pay_funding
pay_events-book symbol notional candle [] rt = refl
pay_events-book symbol notional candle (ev ∷ evs) rt =
    let payment = compute_funding_payment notional ev.funding_rate in
    elim (Bool-cases (leb candle.open_time ev.timestamp && leb ev.timestamp candle.close_time)) [
      | inl within ↦
          rw (pay_events, within)
            (pay_events-book symbol notional candle evs (pay_funding symbol payment rt))
      | inr outside ↦ rw (pay_events, outside) (pay_events-book symbol notional candle evs rt)
    ]

apply_funding-book :
    (config : BacktestConfig) (bundle : HistoricalDataBundle) (symbol : String) (candle : Candle)
    (rt : Runtime)
    → book_of (apply_funding config bundle symbol candle rt) ≡ book_of rt
unfolding apply_funding pay_funding
apply_funding-book config bundle symbol candle rt =
    elim (Option-cases (lookup symbol rt.positions)) [
      | inl unheld ↦ rw (apply_funding, unheld) refl
      | inr (p, held) ↦ elim (Option-cases config.funding_model.assumed_rate) [
        | inl events ↦
            rw (apply_funding, held, events)
              (pay_events-book symbol (mul p.quantity p.entry_price) candle (bundle.funding symbol)
                rt)
        | inr (rate, assumed) ↦ rw (apply_funding, held, assumed) refl
      ]
    ]

trail_position-book :
    (config : BacktestConfig) (symbol : String) (candle : Candle) (now : Time)
    (p : SimulatedPosition) (rt rt' : Runtime)
    → trail_position config symbol candle now p rt ≡ ok rt'
    → book_of rt' ≡ book_of rt
unfolding trail_position
trail_position-book config symbol candle now p rt rt' h =
    let (constraints, found, h₁) = ok-bind (get_constraints config symbol) _ rt' h in
    let atr = atr_or (last_evaluation symbol rt.evaluations) p.entry_atr14 in
    let (state, moves, h₂) =
      ok-bind
        (compute_trailing_stop_update (trail_state_of p) candle.close atr config.strategy_params
          constraints.price_tick_size)
        _ rt' h₁ in
    sym (ap book_of (ok-injective h₂))

update_trailing-book :
    (config : BacktestConfig) (bundle : HistoricalDataBundle) (symbol : String) (candle : Candle)
    (now : Time) (rt rt' : Runtime)
    → update_trailing config bundle symbol candle now rt ≡ ok rt'
    → book_of rt' ≡ book_of rt
unfolding update_trailing
update_trailing-book config bundle symbol candle now rt rt' h =
    elim (Option-cases (lookup symbol rt.positions)) [
      | inl unheld ↦ let same : rt' ≡ rt = ok-injective (ground arith) in ap book_of same
      | inr (p, held) ↦ elim (List-cases (slice_closed_candles (bundle.daily symbol) now)) [
        | inl empty ↦ let same : rt' ≡ rt = ok-injective (ground arith) in ap book_of same
        | inr (first, others, some_closed) ↦
            trail_position-book config symbol candle now p rt rt' (ground arith)
      ]
    ]

Writes-IsKept :
    (a : Book) (config : BacktestConfig) (bundle : HistoricalDataBundle)
    → IsKept config bundle (Writes a)
unfolding record_equity
Writes-IsKept a config bundle = record {
  filled = fill_pending_at_open-Books a config;
  stopped = check_stop_exit-Books a config false;
  funded = λ symbol candle rt s.
      subst (Books a) (sym (apply_funding-book config bundle symbol candle rt)) s;
  evaluated = λ e rt s. s;
  queued = λ rt p s free. then_step s (queue p free.new);
  trailed = λ symbol candle now rt rt' s h.
      subst (Books a) (sym (update_trailing-book config bundle symbol candle now rt rt' h)) s;
  measured = λ closes now rt s. s;
}

-- What a run that raises nothing writes down comes about in steps of the book, from the empty one with
-- the ids that the configuration gives as processed: an intent is queued and ended only while its id is
-- not processed, an intent ends with one order, filled or rejected, and the realized profit changes only
-- by that of a trade that is closed.
pub run_timeline-Books :
    (format_time : Time → String) (config : BacktestConfig) (bundle : HistoricalDataBundle)
    (rt : Runtime)
    → run_timeline format_time config bundle ≡ ok rt
    → Books (book_of (initial_runtime config)) (book_of rt)
run_timeline-Books format_time config bundle rt h =
    run_timeline_keeps format_time config bundle (Writes (book_of (initial_runtime config)))
      (Writes-IsKept (book_of (initial_runtime config)) config bundle) rt start h

-- After a run that raises nothing every order is final and its intent is processed, and the realized
-- profit is the sum of the net profits of the closed trades, in their order.
pub run_timeline-IsBook :
    (format_time : Time → String) (config : BacktestConfig) (bundle : HistoricalDataBundle)
    (rt : Runtime)
    → run_timeline format_time config bundle ≡ ok rt
    → IsBook (book_of rt)
unfolding initial_runtime net_from
run_timeline-IsBook format_time config bundle rt h =
    let first : IsBook (book_of (initial_runtime config)) = record {
      ordered = λ id order h. ground arith;
      booked = refl;
    } in
    Books-IsBook first (run_timeline-Books format_time config bundle rt h)

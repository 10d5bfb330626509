-- ===== src/Backtester/Consistent/Steps.antt =====
-- Exits and funding keep the state consistent.
use save_money_trading_bot.Prelude.{
  ◌≡◌, ◌∙◌, String, Bool, some, List, [], ◌∷◌, eq_iff, arith, inl, inr, Option-cases, Bool-cases,
  leb, ◌&&◌,
}
use mathlib.Core.Path.{subst}
use save_money_trading_bot.Prelude.Dict.{
  Dict, lookup, contains, put, erase, contains-put, contains-erase, Every-erase,
}
use save_money_trading_bot.Decimal.{Decimal, ok, add, mul}
use save_money_trading_bot.StrategyEngine.Models.{Candle}
use save_money_trading_bot.Backtester.Models.{
  BacktestConfig, HistoricalDataBundle, SimulatedPosition, PendingIntent, FundingEvent,
}
use save_money_trading_bot.Backtester.Execution.{compute_funding_payment}
use save_money_trading_bot.Backtester.Lifecycle.{StopTriggerResult}
use save_money_trading_bot.Backtester.Runtime.{Runtime}
use save_money_trading_bot.Backtester.Exits.{
  close_trade, exit_position, stop_trigger, check_stop_exit, pay_funding, pay_events, apply_funding,
}
use save_money_trading_bot.Backtester.Keeps.{ok-injective}
use save_money_trading_bot.Backtester.Consistent.{PositionStands, NotHeld, IsConsistent}

NotHeld-erase :
    {V : Type 0} (k : String) (d : Dict V) (ps : List PendingIntent)
    → NotHeld d ps
    → NotHeld (erase k d) ps
NotHeld-erase k d [] h = tt
NotHeld-erase k d (p ∷ ps) h =
    (ground (arith, contains-erase k p.symbol d, h.0), NotHeld-erase k d ps h.1)

-- A put under a key that is there changes no key.
pub contains-put_same :
    {V : Type 0} (k j : String) (v w : V) (d : Dict V)
    → lookup k d ≡ some w
    → contains j (put k v d) ≡ contains j d
contains-put_same k j v w d h = ground (arith, contains-put k j v d, eq_iff k j, h)

pub NotHeld-put_same :
    {V : Type 0} (k : String) (v w : V) (d : Dict V) (ps : List PendingIntent)
    → lookup k d ≡ some w
    → NotHeld d ps
    → NotHeld (put k v d) ps
NotHeld-put_same k v w d [] e h = tt
NotHeld-put_same k v w d (p ∷ ps) e h =
    (contains-put_same k p.symbol v w d e ∙ h.0, NotHeld-put_same k v w d ps e h.1)

-- What an exit leaves of the state before it.
record Exited (symbol : String) (rt rt' : Runtime) : Type 0 where
  positions : rt'.positions ≡ erase symbol rt.positions
  trades : rt'.active_trades ≡ erase symbol rt.active_trades
  histories : rt'.trail_history ≡ erase symbol rt.trail_history
  pending : rt'.pending_intents ≡ rt.pending_intents
  curve : rt'.equity_curve ≡ rt.equity_curve
  peak : rt'.peak_equity ≡ rt.peak_equity

exit_position-Exited :
    (config : BacktestConfig) (symbol : String) (candle : Candle) (p : SimulatedPosition)
    (t : StopTriggerResult) (rt rt' : Runtime)
    → exit_position config symbol candle p t rt ≡ ok rt'
    → Exited symbol rt rt'
unfolding exit_position close_trade
exit_position-Exited config symbol candle p t rt rt' h =
    elim (Option-cases (lookup symbol rt.active_trades)) [
      | inl untraded ↦ ground arith
      | inr (trade, traded) ↦ ground arith
    ]

Exited-IsConsistent :
    (symbol : String) (rt rt' : Runtime) → IsConsistent rt → Exited symbol rt rt' → IsConsistent rt'
Exited-IsConsistent symbol rt rt' c x = record {
  positions_stand =
      rw x.positions (Every-erase PositionStands symbol rt.positions c.positions_stand);
  traded = λ k. rw (
    x.positions,
    x.trades,
    contains-erase symbol k rt.active_trades,
    contains-erase symbol k rt.positions,
    c.traded k,
  );
  recorded = λ k. rw (
    x.positions,
    x.histories,
    contains-erase symbol k rt.trail_history,
    contains-erase symbol k rt.positions,
    c.recorded k,
  );
  one_each = rw x.pending c.one_each;
  not_held =
      rw (x.positions, x.pending) (NotHeld-erase symbol rt.positions rt.pending_intents c.not_held);
  peak = rw (x.curve, x.peak) c.peak;
}

pub check_stop_exit-IsConsistent :
    (config : BacktestConfig) (at_open : Bool) (symbol : String) (candle : Candle)
    (rt rt' : Runtime)
    → IsConsistent rt
    → check_stop_exit config at_open symbol candle rt ≡ ok rt'
    → IsConsistent rt'
unfolding check_stop_exit
check_stop_exit-IsConsistent config at_open symbol candle rt rt' c h =
    elim (Option-cases (lookup symbol rt.positions)) [
      | inl unheld ↦ subst IsConsistent (ok-injective (ground arith)) c
      | inr (p, held) ↦ elim (Option-cases (stop_trigger at_open candle p)) [
        | inl quiet ↦ subst IsConsistent (ok-injective (ground arith)) c
        | inr (t, fires) ↦
            Exited-IsConsistent symbol rt rt' c
              (exit_position-Exited config symbol candle p t rt rt' (ground arith))
      ]
    ]

pub check_stop_exit-pending :
    (config : BacktestConfig) (at_open : Bool) (symbol : String) (candle : Candle)
    (rt rt' : Runtime)
    → check_stop_exit config at_open symbol candle rt ≡ ok rt'
    → rt'.pending_intents ≡ rt.pending_intents
unfolding check_stop_exit
check_stop_exit-pending config at_open symbol candle rt rt' h =
    elim (Option-cases (lookup symbol rt.positions)) [
      | inl unheld ↦ ground arith
      | inr (p, held) ↦ elim (Option-cases (stop_trigger at_open candle p)) [
        | inl quiet ↦ ground arith
        | inr (t, fires) ↦
            let exited = exit_position-Exited config symbol candle p t rt rt' (ground arith) in
            exited.pending
      ]
    ]

pay_funding-IsConsistent :
    (symbol : String) (payment : Decimal) (rt : Runtime)
    → IsConsistent rt
    → IsConsistent (pay_funding symbol payment rt)
unfolding pay_funding
pay_funding-IsConsistent symbol payment rt c =
    elim (Option-cases (lookup symbol rt.active_trades)) [
      | inl untraded ↦ record {
        positions_stand = c.positions_stand;
        traded = λ k. ground (arith, untraded, c.traded k);
        recorded = c.recorded;
        one_each = c.one_each;
        not_held = c.not_held;
        peak = c.peak;
      }
      | inr (trade, traded) ↦ record {
        positions_stand = c.positions_stand;
        traded = λ k. ground (
          arith,
          traded,
          c.traded k,
          contains-put_same symbol k (record trade { funding = add trade.funding payment }) trade
              rt.active_trades traded,
        );
        recorded = c.recorded;
        one_each = c.one_each;
        not_held = c.not_held;
        peak = c.peak;
      }
    ]

pay_events-IsConsistent :
    (symbol : String) (notional : Decimal) (candle : Candle) (evs : List FundingEvent)
    (rt : Runtime)
    → IsConsistent rt
    → IsConsistent (pay_events symbol notional candle evs rt)
unfolding pay_events
pay_events-IsConsistent symbol notional candle [] rt c = c
pay_events-IsConsistent symbol notional candle (ev ∷ evs) rt c =
    let payment = compute_funding_payment notional ev.funding_rate in
    elim (Bool-cases (leb candle.open_time ev.timestamp && leb ev.timestamp candle.close_time)) [
      | inl within ↦ rw within (
          pay_events-IsConsistent symbol notional candle evs (pay_funding symbol payment rt)
            (pay_funding-IsConsistent symbol payment rt c))
      | inr outside ↦ rw outside (pay_events-IsConsistent symbol notional candle evs rt c)
    ]

pub apply_funding-IsConsistent :
    (config : BacktestConfig) (bundle : HistoricalDataBundle) (symbol : String) (candle : Candle)
    (rt : Runtime)
    → IsConsistent rt
    → IsConsistent (apply_funding config bundle symbol candle rt)
unfolding apply_funding
apply_funding-IsConsistent config bundle symbol candle rt c =
    elim (Option-cases (lookup symbol rt.positions)) [
      | inl unheld ↦ subst IsConsistent (ground arith) c
      | inr (p, held) ↦
          let notional = mul p.quantity p.entry_price in
          elim (Option-cases config.funding_model.assumed_rate) [
            | inl events ↦
                subst IsConsistent (ground (arith, held, events))
                  (pay_events-IsConsistent symbol notional candle (bundle.funding symbol) rt c)
            | inr (rate, assumed) ↦
                subst IsConsistent (ground (arith, held, assumed))
                  (pay_funding-IsConsistent symbol (compute_funding_payment notional rate) rt c)
          ]
    ]

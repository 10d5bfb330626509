-- ===== src/Backtester/Consistent/Trails.antt =====
-- Trailing stops keep the state consistent.
use save_money_trading_bot.Prelude.{
  ◌≡◌, refl, sym, ap, ◌∙◌, String, true, some, [], ◌∷◌, ◌++◌, str_eq, arith, inl, inr, Option-cases,
  List-cases, if◌then◌else◌,
}
use mathlib.Core.Path.{subst}
use save_money_trading_bot.Prelude.Dict.{
  lookup, contains, put, contains-put, Every-put, Every-lookup,
}
use save_money_trading_bot.Decimal.{ok, Exc-cases, max_dec}
use save_money_trading_bot.StrategyEngine.Models.{Time, Candle}
use save_money_trading_bot.StrategyEngine.Stops.Trailing.{update-IsEffective}
use save_money_trading_bot.Backtester.Models.{
  BacktestConfig, HistoricalDataBundle, SimulatedPosition,
}
use save_money_trading_bot.StrategyEngine.Stops.{update_trailing_stop}
use save_money_trading_bot.Backtester.Lifecycle.{compute_trailing_stop_update}
use save_money_trading_bot.Backtester.Slicing.{slice_closed_candles}
use save_money_trading_bot.Backtester.Runtime.{Runtime, get_constraints}
use save_money_trading_bot.Backtester.Exits.{
  history_of, trail_position, update_trailing, trail_state_of, last_evaluation, atr_or,
}
use save_money_trading_bot.Backtester.Keeps.{ok-injective}
use save_money_trading_bot.Backtester.Consistent.{PositionStands, IsConsistent}
use save_money_trading_bot.Backtester.Consistent.Steps.{contains-put_same, NotHeld-put_same}

-- The position that a trailing update puts back.
record Trailed (symbol : String) (p : SimulatedPosition) (rt rt' : Runtime) : Type 0 where
  moved : SimulatedPosition
  keyed : moved.symbol ≡ p.symbol
  quantity : moved.quantity ≡ p.quantity
  in_force : moved.effective_stop ≡ max_dec moved.initial_stop moved.trail_stop
  positions : rt'.positions ≡ put symbol moved rt.positions
  histories :
      (k : String)
      → contains k rt'.trail_history
        ≡ (if str_eq symbol k then true else contains k rt.trail_history)
  trades : rt'.active_trades ≡ rt.active_trades
  pending : rt'.pending_intents ≡ rt.pending_intents
  curve : rt'.equity_curve ≡ rt.equity_curve
  peak : rt'.peak_equity ≡ rt.peak_equity

trail_position-Trailed :
    (config : BacktestConfig) (symbol : String) (candle : Candle) (now : Time)
    (p : SimulatedPosition) (rt rt' : Runtime)
    → trail_position config symbol candle now p rt ≡ ok rt'
    → Trailed symbol p rt rt'
unfolding trail_position compute_trailing_stop_update
trail_position-Trailed config symbol candle now p rt rt' h =
    elim (Exc-cases (get_constraints config symbol)) [
      | inr (e, raises) ↦ ground arith
      | inl (constraints, found) ↦
          let atr = atr_or (last_evaluation symbol rt.evaluations) p.entry_atr14 in
          elim (Exc-cases (
            update_trailing_stop (trail_state_of p) candle.close atr config.strategy_params
              (some constraints.price_tick_size))) [
                | inr (e, raises) ↦ ground arith
                | inl (s, moves) ↦
                    let (effective, initial, above) =
                      update-IsEffective (trail_state_of p) candle.close atr config.strategy_params
                        (some constraints.price_tick_size) s moves in
                    let moved = record p {
                      trail_stop = s.trail_stop;
                      effective_stop = s.effective_stop;
                      highest_close = s.highest_close;
                    } in
                    let history =
                      history_of rt.trail_history symbol
                      ++ record {
                        time = now;
                        trail_stop = s.trail_stop;
                        effective_stop = s.effective_stop;
                      }
                        ∷ [] in
                    record {
                      moved = moved;
                      keyed = refl;
                      quantity = refl;
                      in_force = effective ∙ ap (λ z. max_dec z s.trail_stop) initial;
                      positions = ground (arith, found, moves);
                      histories = λ k.
                          ground
                            (arith, found, moves, contains-put symbol k history rt.trail_history);
                      trades = ground (arith, found, moves);
                      pending = ground (arith, found, moves);
                      curve = ground (arith, found, moves);
                      peak = ground (arith, found, moves);
                    }
              ]
    ]

Trailed-IsConsistent :
    (symbol : String) (p : SimulatedPosition) (rt rt' : Runtime)
    → lookup symbol rt.positions ≡ some p
    → IsConsistent rt
    → Trailed symbol p rt rt'
    → IsConsistent rt'
Trailed-IsConsistent symbol p rt rt' held c x =
    let stands = Every-lookup PositionStands symbol p rt.positions c.positions_stand held in
    let moved_stands : PositionStands symbol x.moved = record {
      keyed = x.keyed ∙ stands.keyed;
      in_force = x.in_force;
      held = rw x.quantity stands.held;
    } in
    record {
      positions_stand =
          rw x.positions
            (Every-put PositionStands symbol x.moved rt.positions moved_stands c.positions_stand);
      traded = λ k.
          rw (x.positions, x.trades)
            (c.traded k ∙ sym (contains-put_same symbol k x.moved p rt.positions held));
      recorded = λ k. ground (
        arith,
        x.positions,
        x.histories k,
        c.recorded k,
        contains-put symbol k x.moved rt.positions,
      );
      one_each = rw x.pending c.one_each;
      not_held =
          rw (x.positions, x.pending)
            (NotHeld-put_same symbol x.moved p rt.positions rt.pending_intents held c.not_held);
      peak = rw (x.curve, x.peak) c.peak;
    }

pub update_trailing-IsConsistent :
    (config : BacktestConfig) (bundle : HistoricalDataBundle) (symbol : String) (candle : Candle)
    (now : Time) (rt rt' : Runtime)
    → IsConsistent rt
    → update_trailing config bundle symbol candle now rt ≡ ok rt'
    → IsConsistent rt'
unfolding update_trailing
update_trailing-IsConsistent config bundle symbol candle now rt rt' c h =
    elim (Option-cases (lookup symbol rt.positions)) [
      | inl unheld ↦ subst IsConsistent (ok-injective (ground arith)) c
      | inr (p, held) ↦ elim (List-cases (slice_closed_candles (bundle.daily symbol) now)) [
        | inl empty ↦ subst IsConsistent (ok-injective (ground arith)) c
        | inr (first, others, some_closed) ↦
            Trailed-IsConsistent symbol p rt rt' held c
              (trail_position-Trailed config symbol candle now p rt rt' (ground arith))
      ]
    ]

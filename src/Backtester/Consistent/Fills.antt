-- ===== src/Backtester/Consistent/Fills.antt =====
-- The fills at the open keep the state consistent.
use save_money_trading_bot.Prelude.{
  ◌≡◌, refl, sym, ap, String, true, false, not, Option, some, List, [], ◌∷◌, All, str_eq, eq_iff,
  arith, inl, inr, Bool-cases,
}
use mathlib.Core.Path.{subst}
use save_money_trading_bot.Prelude.Dict.{Dict, contains, put, contains-put, Every-put}
use save_money_trading_bot.Decimal.{Decimal, ok, Exc-cases}
use save_money_trading_bot.StrategyEngine.Models.{Candle, StrategyParameters}
use save_money_trading_bot.StrategyEngine.Stops.{initialize_trailing_stop}
use save_money_trading_bot.StrategyEngine.Stops.Trailing.{IsEffective, initialize-IsEffective}
use save_money_trading_bot.Backtester.Models.{BacktestConfig, PendingIntent}
use save_money_trading_bot.Backtester.Portfolio.{Marks}
use save_money_trading_bot.Backtester.Lifecycle.{
  EntryAccounting, compute_entry_accounting, build_simulated_position_from_entry,
}
use save_money_trading_bot.Backtester.Runtime.{Runtime, reject_intent}
use save_money_trading_bot.Backtester.Entries.{
  fill_intent, fill_pending_at_open, intents_of, open_position,
}
use save_money_trading_bot.Backtester.Outcome.{
  IsEntered, passed_over, rejected, entered, fill_intent-Outcome,
}
use save_money_trading_bot.Backtester.Keeps.{for_each_keeps}
use save_money_trading_bot.Backtester.Consistent.{
  PositionStands, Apart, OneEach, NotHeld, IsConsistent,
}
use save_money_trading_bot.Backtester.Consistent.Steps.{
  check_stop_exit-IsConsistent, check_stop_exit-pending,
}

NotHeld-put :
    {V : Type 0} (k : String) (v : V) (d : Dict V) (ps : List PendingIntent)
    → Apart k ps
    → NotHeld d ps
    → NotHeld (put k v d) ps
NotHeld-put k v d [] a h = tt
NotHeld-put k v d (p ∷ ps) a h = (
  ground (arith, contains-put k p.symbol v d, eq_iff k p.symbol, eq_iff p.symbol k, a.0, h.0),
  NotHeld-put k v d ps a.1 h.1,
)

-- The same key put in two dicts of the same keys.
contains-put_both :
    {V W : Type 0} (k j : String) (v : V) (w : W) (d : Dict V) (e : Dict W)
    → contains j d ≡ contains j e
    → contains j (put k v d) ≡ contains j (put k w e)
contains-put_both k j v w d e h = rw (contains-put k j v d, contains-put k j w e, h)

accounting_lem :
    (fill open_ref q stop rate lev : Decimal) (params : StrategyParameters) (tick atr : Decimal)
    (a : EntryAccounting)
    → compute_entry_accounting fill open_ref q stop rate lev params tick atr ≡ ok a
    → (a.quantity ≡ q) × IsEffective a.trail_state
unfolding compute_entry_accounting
accounting_lem fill open_ref q stop rate lev params tick atr a h =
    elim (Exc-cases (initialize_trailing_stop fill atr stop params (some tick))) [
      | inr (e, raises) ↦ ground arith
      | inl (s, starts) ↦
          let (effective, _, _) =
            initialize-IsEffective fill atr stop params (some tick) s starts in
          let same : a.trail_state ≡ s = ground (arith, starts) in
          (ground (arith, starts), subst IsEffective (sym same) effective)
    ]

module _ (config : BacktestConfig) (symbol : String) (candle : Candle)
    (day_candles : String → Option Candle) (prior_closes : Marks) where
  entered-IsConsistent :
      (intent : PendingIntent) (rt opened : Runtime)
      → IsConsistent rt
      → Apart symbol rt.pending_intents
      → IsEntered config symbol candle day_candles prior_closes intent rt opened
      → IsConsistent opened × (opened.pending_intents ≡ rt.pending_intents)
  unfolding open_position build_simulated_position_from_entry
  entered-IsConsistent intent rt opened c apart e =
      let (quantity, effective) = accounting_lem _ _ _ _ _ _ _ _ _ e.accounting e.accounting_lem in
      let p =
        build_simulated_position_from_entry symbol e.accounting.quantity e.fills.fill_price
          candle.open_time e.accounting intent.atr14 intent.client_intent_id in
      let stands : PositionStands symbol p = record {
        keyed = refl;
        in_force = effective;
        held = rw quantity e.positive;
      } in
      let after = open_position symbol candle intent e.decision e.fills e.accounting rt in
      let after_consistent : IsConsistent after = record {
        positions_stand = Every-put PositionStands symbol p rt.positions stands c.positions_stand;
        traded = λ k. contains-put_both symbol k _ p rt.active_trades rt.positions (c.traded k);
        recorded = λ k. contains-put_both symbol k _ p rt.trail_history rt.positions (c.recorded k);
        one_each = c.one_each;
        not_held = NotHeld-put symbol p rt.positions rt.pending_intents apart c.not_held;
        peak = c.peak;
      } in
      (
        subst IsConsistent (sym e.opened_lem) after_consistent,
        ap (λ (s : Runtime). s.pending_intents) e.opened_lem,
      )

  -- What the loop over a symbol's intents keeps.
  abbrev Filling : Runtime → Type 0
  Filling rt = IsConsistent rt × Apart symbol rt.pending_intents

  fill_intent-Filling :
      (intent : PendingIntent) (rt rt' : Runtime)
      → Filling rt
      → fill_intent config symbol candle day_candles prior_closes intent rt ≡ ok rt'
      → Filling rt'
  unfolding reject_intent
  fill_intent-Filling intent rt rt' (c, apart) h =
      elim (fill_intent-Outcome config symbol candle day_candles prior_closes intent rt rt' h) [
        | passed_over old same ↦ subst Filling (sym same) (c, apart)
        | rejected codes new same untouched ↦ subst Filling (sym same) (
          record {
            positions_stand = c.positions_stand;
            traded = c.traded;
            recorded = c.recorded;
            one_each = c.one_each;
            not_held = c.not_held;
            peak = c.peak;
          },
          apart,
        )
        | entered opened new e exits ↦
            let (opened_consistent, pending) = entered-IsConsistent intent rt opened c apart e in
            (
              check_stop_exit-IsConsistent config true symbol candle opened rt' opened_consistent
                  exits,
              rw (check_stop_exit-pending config true symbol candle opened rt' exits, pending)
                  apart,
            )
      ]

intents_of-All :
    (P : PendingIntent → Type 0) (symbol : String) (ps : List PendingIntent)
    → All P ps
    → All P (intents_of false symbol ps)
unfolding intents_of
intents_of-All P symbol [] h = tt
intents_of-All P symbol (p ∷ ps) h = elim (Bool-cases (str_eq p.symbol symbol)) [
  | inl is ↦ rw is (intents_of-All P symbol ps h.1)
  | inr not ↦ rw not (h.0, intents_of-All P symbol ps h.1)
]

intents_of-OneEach :
    (symbol : String) (ps : List PendingIntent) → OneEach ps → OneEach (intents_of false symbol ps)
unfolding intents_of
intents_of-OneEach symbol [] h = tt
intents_of-OneEach symbol (p ∷ ps) h = elim (Bool-cases (str_eq p.symbol symbol)) [
  | inl is ↦ rw is (intents_of-OneEach symbol ps h.1)
  | inr not ↦ rw not (intents_of-All _ symbol ps h.0, intents_of-OneEach symbol ps h.1)
]

intents_of-Apart :
    (symbol : String) (ps : List PendingIntent) → Apart symbol (intents_of false symbol ps)
unfolding intents_of
intents_of-Apart symbol [] = tt
intents_of-Apart symbol (p ∷ ps) = elim (Bool-cases (str_eq p.symbol symbol)) [
  | inl is ↦ rw is (intents_of-Apart symbol ps)
  | inr not ↦ rw not (not, intents_of-Apart symbol ps)
]

pub fill_pending_at_open-IsConsistent :
    (config : BacktestConfig) (symbol : String) (candle : Candle)
    (day_candles : String → Option Candle) (prior_closes : Marks) (rt rt' : Runtime)
    → IsConsistent rt
    → fill_pending_at_open config symbol candle day_candles prior_closes rt ≡ ok rt'
    → IsConsistent rt'
unfolding fill_pending_at_open
fill_pending_at_open-IsConsistent config symbol candle day_candles prior_closes rt rt' c h =
    let left = record rt { pending_intents = intents_of false symbol rt.pending_intents } in
    let left_consistent : IsConsistent left = record {
      positions_stand = c.positions_stand;
      traded = c.traded;
      recorded = c.recorded;
      one_each = intents_of-OneEach symbol rt.pending_intents c.one_each;
      not_held = intents_of-All _ symbol rt.pending_intents c.not_held;
      peak = c.peak;
    } in
    let kept =
      for_each_keeps (Filling config symbol candle day_candles prior_closes)
        (fill_intent config symbol candle day_candles prior_closes)
        (fill_intent-Filling config symbol candle day_candles prior_closes)
        (intents_of true symbol rt.pending_intents) left rt'
        (left_consistent, intents_of-Apart symbol rt.pending_intents) h in
    kept.0

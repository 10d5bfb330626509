-- ===== src/StrategyEngine/Stops/Trailing.antt =====
-- The trailing stop only rises, and never lies below the initial stop.
use save_money_trading_bot.Prelude.{
  ◌≡◌, ◌≢◌, refl, true, Option, none, List, [], ◌∷◌, arith, inl, inr,
}
use save_money_trading_bot.Decimal.{
  Decimal, Exc, ok, raised, Exc-cases, Fault, le, max_dec, sub, mul, ◌>>=◌,
}
use save_money_trading_bot.Decimal.Order.{le_refl, le_trans, le-max_left, le-max_right}
use save_money_trading_bot.StrategyEngine.Models.{StrategyParameters, TrailingStopState}
use save_money_trading_bot.StrategyEngine.Stops.{
  on_tick, initialize_trailing_stop, update_trailing_stop,
}

-- The effective stop is the higher of the initial and the trailing stop.
abbrev pub IsEffective : TrailingStopState → Type 0
IsEffective s = s.effective_stop ≡ max_dec s.stop_initial s.trail_stop

-- `s'` comes after `s`: the same position, with stops that are no lower.
pub record Follows (s s' : TrailingStopState) : Type 0 where
  pub entry : s'.entry_price ≡ s.entry_price
  pub initial : s'.stop_initial ≡ s.stop_initial
  pub highest : le s.highest_close s'.highest_close ≡ true
  pub trail : le s.trail_stop s'.trail_stop ≡ true
  pub effective : le s.effective_stop s'.effective_stop ≡ true
  pub above_initial : le s.stop_initial s'.effective_stop ≡ true

-- The tick may only move a stop down where it is not on the tick; the floor at the initial stop stays.
pub initialize-IsEffective :
    (entry atr stop : Decimal) (p : StrategyParameters) (tick : Option Decimal)
    (s : TrailingStopState)
    → initialize_trailing_stop entry atr stop p tick ≡ ok s
    → IsEffective s × (s.stop_initial ≡ stop) × (le stop s.effective_stop ≡ true)
unfolding initialize_trailing_stop
initialize-IsEffective entry atr stop p tick s h =
    elim (Exc-cases (on_tick tick (max_dec (sub entry (mul p.trail_atr_mult atr)) stop))) [
      | inr (e, raises) ↦ ground arith
      | inl (t, e) ↦ ground (arith, le-max_left stop t)
    ]

pub update-IsEffective :
    (s : TrailingStopState) (close atr : Decimal) (p : StrategyParameters) (tick : Option Decimal)
    (s' : TrailingStopState)
    → update_trailing_stop s close atr p tick ≡ ok s'
    → IsEffective s'
      × (s'.stop_initial ≡ s.stop_initial)
      × (le s.stop_initial s'.effective_stop ≡ true)
unfolding update_trailing_stop
update-IsEffective s close atr p tick s' h =
    elim (Exc-cases (
      on_tick tick (
        max_dec
          (max_dec s.trail_stop (sub (max_dec s.highest_close close) (mul p.trail_atr_mult atr)))
          s.stop_initial))) [
            | inr (e, raises) ↦ ground arith
            | inl (t, e) ↦ ground (arith, le-max_left s.stop_initial t)
          ]

max_dec_lub : (a b c : Decimal) → le a c ≡ true → le b c ≡ true → le (max_dec a b) c ≡ true
unfolding max_dec
max_dec_lub a b c p q = ground arith

-- One update without a tick.
abbrev raised_trail : TrailingStopState → (close atr : Decimal) → StrategyParameters → Decimal
raised_trail s close atr p =
    max_dec (max_dec s.trail_stop (sub (max_dec s.highest_close close) (mul p.trail_atr_mult atr)))
      s.stop_initial

trail-le-raised :
    (s : TrailingStopState) (close atr : Decimal) (p : StrategyParameters)
    → le s.trail_stop (raised_trail s close atr p) ≡ true
trail-le-raised s close atr p =
    le_trans s.trail_stop _ _ (le-max_left s.trail_stop _) (le-max_left _ s.stop_initial)

update-Follows :
    (s : TrailingStopState) (close atr : Decimal) (p : StrategyParameters) (s' : TrailingStopState)
    → IsEffective s
    → update_trailing_stop s close atr p none ≡ ok s'
    → Follows s s'
unfolding update_trailing_stop on_tick
update-Follows s close atr p s' inv h =
    let t = raised_trail s close atr p in
    let up = trail-le-raised s close atr p in
    let top = le-max_right s.stop_initial t in
    let base = le-max_left s.stop_initial t in
    let eff =
      max_dec_lub s.stop_initial s.trail_stop (max_dec s.stop_initial t) base
        (le_trans s.trail_stop t _ up top) in
    ground (arith, up, base, eff, le-max_left s.highest_close close)

-- A run of daily updates, each with a close and an ATR.
pub run_updates :
    TrailingStopState → StrategyParameters → List (Decimal × Decimal) → Exc TrailingStopState
run_updates s p [] = ok s
run_updates s p ((close, atr) ∷ days) = do
  s' ← update_trailing_stop s close atr p none
  run_updates s' p days

update_returns :
    (s : TrailingStopState) (close atr : Decimal) (p : StrategyParameters) {e : Fault}
    → update_trailing_stop s close atr p none ≢ raised e
unfolding update_trailing_stop on_tick
update_returns s close atr p h = cc

Follows-refl : (s : TrailingStopState) → IsEffective s → Follows s s
Follows-refl s inv = record {
  entry = refl;
  initial = refl;
  highest = le_refl s.highest_close;
  trail = le_refl s.trail_stop;
  effective = le_refl s.effective_stop;
  above_initial = rw inv (le-max_left s.stop_initial s.trail_stop);
}

Follows-trans : (s t u : TrailingStopState) → Follows s t → Follows t u → Follows s u
Follows-trans s t u f g = record {
  entry = cc;
  initial = cc;
  highest = le_trans _ _ _ f.highest g.highest;
  trail = le_trans _ _ _ f.trail g.trail;
  effective = le_trans _ _ _ f.effective g.effective;
  above_initial = le_trans _ _ _ f.above_initial g.effective;
}

-- From a state whose effective stop is the higher of its stops, any run of daily updates without a
-- tick size returns, keeps the entry and the initial stop, never lowers the highest close, the trailing
-- stop or the effective stop, and leaves the effective stop at or above the initial stop.
pub run_updates-Follows :
    (s : TrailingStopState) (p : StrategyParameters) (days : List (Decimal × Decimal))
    → IsEffective s
    → (s' : TrailingStopState) × (run_updates s p days ≡ ok s') × Follows s s'
unfolding run_updates
run_updates-Follows s p [] inv = (s, refl, Follows-refl s inv)
run_updates-Follows s p ((close, atr) ∷ days) inv =
    elim (Exc-cases (update_trailing_stop s close atr p none)) [
      | inr (e, raises) ↦ absurd (update_returns s close atr p raises)
      | inl (t, moved) ↦
          let (u, run, f) =
            run_updates-Follows t p days (update-IsEffective s close atr p none t moved).0 in
          (u, rw moved run, Follows-trans s t u (update-Follows s close atr p t inv moved) f)
    ]

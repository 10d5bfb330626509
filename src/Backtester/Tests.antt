-- ===== src/Backtester/Tests.antt =====
-- The backtester's theorems at concrete inputs.
mod Run
use save_money_trading_bot.Prelude.{
  ◌≡◌, ◌+◌, ℕ, refl, true, none, some, List, [], ◌∷◌, any, String, str_eq, ◌&&◌,
}
use save_money_trading_bot.Decimal.{of_ℕ, nonpos, le, is_finite}
use save_money_trading_bot.StrategyEngine.Codes.{daily}
use save_money_trading_bot.StrategyEngine.Models.{Time, Candle}
use save_money_trading_bot.Backtester.Models.{SimulatedPosition}
use save_money_trading_bot.Backtester.Portfolio.{Marks, to_position_states}
use save_money_trading_bot.RiskEngine.Models.{PositionState}
use save_money_trading_bot.RiskEngine.Validation.{validate_open_positions}
use save_money_trading_bot.Backtester.Portfolio.States.{
  IsSound, is_live, to_position_states-accepted,
}

abbrev candle : (time close : ℕ) → Candle
candle time close = record {
  symbol = "BTC";
  timeframe = daily;
  open_time = time;
  close_time = time + 1;
  open_price = of_ℕ close;
  high = of_ℕ close;
  low = of_ℕ close;
  close = of_ℕ close;
  volume = of_ℕ 1;
  is_closed = true;
}

-- Three candles, not in the order of their times.
abbrev entries : List (Time × Candle)
entries = (2, candle 2 120) ∷ (1, candle 1 110) ∷ (3, candle 3 130) ∷ []

abbrev position : SimulatedPosition
position = record {
  symbol = "BTC";
  quantity = of_ℕ 2;
  entry_price = of_ℕ 100;
  entry_time = 1;
  initial_stop = of_ℕ 90;
  trail_stop = of_ℕ 92;
  effective_stop = of_ℕ 92;
  highest_close = of_ℕ 110;
  entry_atr14 = of_ℕ 4;
  client_intent_id = "btc-1";
  margin_reserved = of_ℕ 100;
}

unfoldable marks : Marks
marks symbol = some (of_ℕ 30)

-- A position of another symbol, with nothing left of it.
abbrev sold : SimulatedPosition
sold = record position { symbol = "ETH"; quantity = of_ℕ 0 }

position-IsSound : IsSound marks position
unfolding nonpos le is_finite marks
position-IsSound = record {
  named = refl;
  size = refl;
  entry = (refl, refl);
  stop = (refl, refl);
  trail = (refl, refl);
  stop_below = refl;
  mark = refl;
}

sold-IsSound : IsSound marks sold
unfolding nonpos le is_finite marks
sold-IsSound = record {
  named = refl;
  size = refl;
  entry = (refl, refl);
  stop = (refl, refl);
  trail = (refl, refl);
  stop_below = refl;
  mark = refl;
}

to_position_states-accepted_example :
    (validate_open_positions (to_position_states (position ∷ sold ∷ []) marks) ≡ none)
    × ((symbol : String)
        → any
            (λ (s : PositionState). str_eq s.symbol symbol)
            (to_position_states (position ∷ sold ∷ []) marks)
          ≡ any
              (λ (p : SimulatedPosition). str_eq p.symbol symbol && is_live marks p)
              (position ∷ sold ∷ []))
to_position_states-accepted_example =
    to_position_states-accepted marks (position ∷ sold ∷ []) (position-IsSound, (sold-IsSound, tt))
      ((refl, tt), (tt, tt))

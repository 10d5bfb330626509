-- ===== src/MarketData/Gaps.antt =====
-- services/market_data/gaps.py: the candles that a series lacks.
pub mod Complete
use save_money_trading_bot.Prelude.{
  ℕ, zero, suc, ◌/◌, Bool, List, [], ◌∷◌, ◌++◌, leb, ltb, if◌then◌else◌,
}
use save_money_trading_bot.Decimal.{Exc, ok, raised, out_of_fuel, ◌>>=◌}
use save_money_trading_bot.StrategyEngine.Models.{Time}
use save_money_trading_bot.MarketData.Models.{
  MarketSymbol, MarketTimeframe, NormalizedCandle, CandleGap,
}
use save_money_trading_bot.MarketData.Timeframes.{day, expected_close_time, next_open_time}
use save_money_trading_bot.MarketData.Validation.{sort_candles}

-- More rounds than there are days up to the bound: each round goes on by a day at least.
abbrev pub rounds_to : Time → ℕ
rounds_to bound = suc (suc (bound / day))

abbrev pub gap_at :
    MarketSymbol → MarketTimeframe → (missing_open_time expected_close_time : Time) → CandleGap
gap_at symbol timeframe open_time close_time = record {
  symbol = symbol;
  timeframe = timeframe;
  missing_open_time = open_time;
  expected_close_time = close_time;
}

module _ (symbol : MarketSymbol) (timeframe : MarketTimeframe) where
  -- The loop up to the next candle, with fuel.
  unfoldable pub gaps_until : (fuel : ℕ) (next_open cursor : Time) → Exc (List CandleGap)
  gaps_until zero next_open cursor = raised out_of_fuel
  gaps_until (suc fuel) next_open cursor =
      let rest = gaps_until fuel next_open (next_open_time cursor timeframe) in
      if ltb cursor next_open
      then (do
        close ← expected_close_time cursor timeframe
        gaps ← rest
        ok (gap_at symbol timeframe cursor close ∷ gaps))
      else ok []

  -- The loop after the last candle, with fuel: it ends at the first candle that is not yet closed.
  unfoldable pub gaps_after : (fuel : ℕ) (evaluation_time cursor : Time) → Exc (List CandleGap)
  gaps_after zero evaluation_time cursor = raised out_of_fuel
  gaps_after (suc fuel) evaluation_time cursor =
      let rest = gaps_after fuel evaluation_time (next_open_time cursor timeframe) in
      if leb cursor evaluation_time
      then (do
        close ← expected_close_time cursor timeframe
        if ltb evaluation_time close
            then ok []
            else (do gaps ← rest; ok (gap_at symbol timeframe cursor close ∷ gaps)))
      else ok []

  -- Over a sorted series.
  unfoldable pub gaps_of : (evaluation_time : Time) → List NormalizedCandle → Exc (List CandleGap)
  unfolding gaps_until gaps_after
  gaps_of evaluation_time [] = ok []
  gaps_of evaluation_time (c ∷ []) =
      gaps_after (rounds_to evaluation_time) evaluation_time (next_open_time c.open_time timeframe)
  gaps_of evaluation_time (c ∷ d ∷ cs) = do
    here ← gaps_until (rounds_to d.open_time) d.open_time (next_open_time c.open_time timeframe)
    rest ← gaps_of evaluation_time (d ∷ cs)
    ok (here ++ rest)

unfoldable pub detect_gaps :
    List NormalizedCandle
    → MarketSymbol
    → MarketTimeframe
    → (evaluation_time : Time) → Exc (List CandleGap)
unfolding gaps_of
detect_gaps candles symbol timeframe evaluation_time =
    gaps_of symbol timeframe evaluation_time (sort_candles candles)

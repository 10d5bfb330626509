-- ===== src/MarketData/Merge.antt =====
-- services/market_data/merge_policy.py: native and aggregated candles in one series.
pub mod Complete
pub mod Natives
use save_money_trading_bot.Prelude.{
  Bool, not, Option, none, some, List, [], ◌∷◌, ◌++◌, ◌==◌, if◌then◌else◌,
}
use save_money_trading_bot.MarketData.Models.{
  MarketSymbol, MarketTimeframe, NormalizedCandle, CandleConflict,
}
use save_money_trading_bot.MarketData.Validation.{
  candles_equal, sort_candles, is_for, candle_opening, conflict_of,
}

-- `by_open[c.open_time] = c`, in the place of a candle of the same time.
unfoldable pub put_candle : NormalizedCandle → List NormalizedCandle → List NormalizedCandle
put_candle c [] = c ∷ []
put_candle c (d ∷ ds) =
    let rest = put_candle c ds in if d.open_time == c.open_time then c ∷ ds else d ∷ rest

-- `by_open`, as it is built of the native candles.
unfoldable pub native_from :
    MarketSymbol
    → MarketTimeframe
    → (by_open native : List NormalizedCandle) → List NormalizedCandle
unfolding put_candle
native_from symbol timeframe by_open [] = by_open
native_from symbol timeframe by_open (c ∷ cs) =
    native_from symbol timeframe
      (if is_for symbol timeframe c then put_candle c by_open else by_open) cs

-- The loop over the aggregated candles.
unfoldable pub merge_from :
    MarketSymbol
    → MarketTimeframe
    → (by_open aggregated : List NormalizedCandle) → List NormalizedCandle × List CandleConflict
merge_from symbol timeframe by_open [] = (by_open, [])
merge_from symbol timeframe by_open (a ∷ later) =
    let rest = merge_from symbol timeframe by_open later in
    let added = merge_from symbol timeframe (by_open ++ a ∷ []) later in
    if not (is_for symbol timeframe a) then rest else elim (candle_opening a.open_time by_open) [
      | none ↦ added
      | some existing ↦
          if candles_equal existing a
          then rest
          else (rest.0, conflict_of symbol timeframe existing a ∷ rest.1)
    ]

unfoldable pub merge_native_and_aggregated :
    (native aggregated : List NormalizedCandle)
    → MarketSymbol
    → MarketTimeframe
    → List NormalizedCandle × List CandleConflict
unfolding native_from merge_from
merge_native_and_aggregated native aggregated symbol timeframe =
    let (by_open, conflicts) =
      merge_from symbol timeframe (native_from symbol timeframe [] native) aggregated in
    (sort_candles by_open, conflicts)

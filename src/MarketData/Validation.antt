-- ===== src/MarketData/Validation.antt =====
-- services/market_data/validation.py: the structure of one candle, equality, sorting and conflicts.
-- A decimal of a model is finite, as pydantic refuses the others.
pub mod Structure
pub mod Sorting
use save_money_trading_bot.Prelude.{
  ℕ, Bool, true, false, not, ◌&&◌, ◌||◌, Option, none, some, List, [], ◌∷◌, ◌++◌, any, leb, ltb,
  ◌==◌, if◌then◌else◌,
}
use save_money_trading_bot.Decimal.{Decimal, Exc, ok, ◌>>=◌, lt, eq, nonpos, negative}
use save_money_trading_bot.StrategyEngine.Models.{Time}
use save_money_trading_bot.MarketData.Models.{
  MarketSymbol, btc, eth, sol, same_symbol, MarketTimeframe, same_market_timeframe,
  MarketDataReasonCode, md_unknown_symbol, md_invalid_ohlc, md_invalid_volume, md_invalid_timeframe,
  md_future_candle, md_open_candle_excluded, code_index, has_code, RawCandle, NormalizedCandle,
  CandleKey, CandleConflict,
}
use save_money_trading_bot.MarketData.Timeframes.{is_valid_timeframe_duration, is_candle_closed}

-- `_is_finite_decimal`, on the decimals of a model.
abbrev pub is_finite_decimal : Decimal → Bool
is_finite_decimal value = true

-- `if test: codes.append(code)`
abbrev pub code_if : Bool → MarketDataReasonCode → List MarketDataReasonCode
code_if test code = if test then code ∷ [] else []

-- `tuple(dict.fromkeys(codes))`: the first occurrence of each code is kept.
unfoldable pub unique_from :
    (seen : List MarketDataReasonCode) → List MarketDataReasonCode → List MarketDataReasonCode
unique_from seen [] = []
unique_from seen (c ∷ cs) =
    let rest = unique_from (c ∷ seen) cs in
    let rest' = unique_from seen cs in if has_code c seen then rest' else c ∷ rest

abbrev pub unique : List MarketDataReasonCode → List MarketDataReasonCode
unique codes = unique_from [] codes

unfoldable pub validate_raw_candle : RawCandle → List MarketDataReasonCode
validate_raw_candle raw =
    if not (
      is_finite_decimal raw.open_price
      && is_finite_decimal raw.high
      && is_finite_decimal raw.low
      && is_finite_decimal raw.close)
    then md_invalid_ohlc ∷ []
    else if not (is_finite_decimal raw.volume)
    then md_invalid_volume ∷ []
    else code_if (negative raw.volume) md_invalid_volume

-- `{s.value for s in MarketSymbol}`
abbrev pub market_symbols : List MarketSymbol
market_symbols = btc ∷ eth ∷ sol ∷ []

-- The codes of the prices, the volume and the times, from `if o <= 0 or …` on.
unfoldable pub level_codes :
    NormalizedCandle → (duration_is_valid : Bool) → List MarketDataReasonCode
level_codes c duration_is_valid =
    code_if (nonpos c.open_price || nonpos c.high || nonpos c.low || nonpos c.close) md_invalid_ohlc
    ++ code_if (negative c.volume) md_invalid_volume
    ++ code_if (lt c.high c.open_price || lt c.high c.close || lt c.high c.low) md_invalid_ohlc
    ++ code_if (lt c.open_price c.low || lt c.close c.low || lt c.high c.low) md_invalid_ohlc
    ++ code_if (leb c.close_time c.open_time) md_invalid_timeframe
    ++ code_if (not duration_is_valid) md_invalid_timeframe

unfoldable pub validate_candle_structure : NormalizedCandle → Exc (List MarketDataReasonCode)
unfolding level_codes unique_from
validate_candle_structure c =
    let unknown = code_if (not (any (same_symbol c.symbol) market_symbols)) md_unknown_symbol in
    if not (
      is_finite_decimal c.open_price
      && is_finite_decimal c.high
      && is_finite_decimal c.low
      && is_finite_decimal c.close)
    then ok (unique (unknown ++ md_invalid_ohlc ∷ []))
    else if not (is_finite_decimal c.volume)
    then ok (unique (unknown ++ md_invalid_volume ∷ []))
    else (do
      duration_is_valid ← is_valid_timeframe_duration c.open_time c.close_time c.timeframe
      ok (unique (unknown ++ level_codes c duration_is_valid)))

unfoldable pub validate_single_candle :
    NormalizedCandle → (evaluation_time : Time) → Exc (List MarketDataReasonCode)
unfolding validate_candle_structure is_candle_closed
validate_single_candle c evaluation_time = do
  codes ← validate_candle_structure c
  ok (
      unique (
        codes
        ++ (if is_candle_closed c.close_time evaluation_time
            then []
            else if ltb evaluation_time c.close_time
            then md_future_candle ∷ []
            else md_open_candle_excluded ∷ [])))

-- `a == b` on Booleans
abbrev pub same_flag : Bool → Bool → Bool
same_flag a b = if a then b else not b

unfoldable pub candles_equal : NormalizedCandle → NormalizedCandle → Bool
candles_equal a b =
    same_symbol a.symbol b.symbol
    && same_market_timeframe a.timeframe b.timeframe
    && a.open_time == b.open_time
    && a.close_time == b.close_time
    && eq a.open_price b.open_price
    && eq a.high b.high
    && eq a.low b.low
    && eq a.close b.close
    && eq a.volume b.volume
    && same_flag a.is_closed b.is_closed

-- A stable sort by open time, as `sorted` is: a candle goes in front of the first that is later, or at
-- the same time.
unfoldable pub insert_candle : NormalizedCandle → List NormalizedCandle → List NormalizedCandle
insert_candle c [] = c ∷ []
insert_candle c (d ∷ ds) =
    let rest = insert_candle c ds in if leb c.open_time d.open_time then c ∷ d ∷ ds else d ∷ rest

unfoldable pub sort_candles : List NormalizedCandle → List NormalizedCandle
unfolding insert_candle
sort_candles [] = []
sort_candles (c ∷ cs) = insert_candle c (sort_candles cs)

-- `candle.symbol == symbol and candle.timeframe == timeframe`
abbrev pub is_for : MarketSymbol → MarketTimeframe → NormalizedCandle → Bool
is_for symbol timeframe c =
    same_symbol c.symbol symbol && same_market_timeframe c.timeframe timeframe

-- `by_key.get(key)` for a key of the symbol and the timeframe.
unfoldable pub candle_opening : Time → List NormalizedCandle → Option NormalizedCandle
candle_opening t [] = none
candle_opening t (c ∷ cs) = if c.open_time == t then some c else candle_opening t cs

abbrev pub conflict_of :
    MarketSymbol → MarketTimeframe → (existing incoming : NormalizedCandle) → CandleConflict
conflict_of symbol timeframe existing incoming = record {
  key = record { symbol = symbol; timeframe = timeframe; open_time = incoming.open_time };
  existing = existing;
  incoming = incoming;
}

-- The loop of `detect_conflicts`, with the latest candle of each time in front.
unfoldable pub conflicts_from :
    MarketSymbol
    → MarketTimeframe
    → (by_key : List NormalizedCandle) → List NormalizedCandle
    → List CandleConflict
unfolding candle_opening candles_equal
conflicts_from symbol timeframe by_key [] = []
conflicts_from symbol timeframe by_key (c ∷ cs) =
    let skipped = conflicts_from symbol timeframe by_key cs in
    let kept = conflicts_from symbol timeframe (c ∷ by_key) cs in
    if not (is_for symbol timeframe c) then skipped else elim (candle_opening c.open_time by_key) [
      | none ↦ kept
      | some existing ↦
          if candles_equal existing c
          then kept
          else conflict_of symbol timeframe existing c ∷ skipped
    ]

unfoldable pub detect_conflicts :
    List NormalizedCandle → MarketSymbol → MarketTimeframe → List CandleConflict
unfolding conflicts_from sort_candles
detect_conflicts candles symbol timeframe =
    conflicts_from symbol timeframe [] (sort_candles candles)

-- ===== src/Backtester/Slicing.antt =====
-- services/backtester/data.py: the candles that are closed at a time, and when a day is evaluated.
pub mod Timeline
pub mod Horizon
pub mod Chronological
use save_money_trading_bot.Prelude.{
  ℕ, ◌+◌, String, Bool, true, false, ◌++◌, any, ◌&&◌, Option, none, some, List, [], ◌∷◌, leb, ltb,
  ◌==◌, if◌then◌else◌,
}
use save_money_trading_bot.StrategyEngine.Codes.{Timeframe}
use save_money_trading_bot.StrategyEngine.Models.{Time, Candle, CandleSeries}

unfoldable pub slice_closed_candles : List Candle → (as_of : Time) → List Candle
slice_closed_candles [] as_of = []
slice_closed_candles (c ∷ cs) as_of =
    let rest = slice_closed_candles cs as_of in
    if c.is_closed && leb c.close_time as_of then c ∷ rest else rest

unfoldable pub build_candle_series :
    String → Timeframe → List Candle → (as_of : Time) → CandleSeries
unfolding slice_closed_candles
build_candle_series symbol timeframe candles as_of = record {
  symbol = symbol;
  timeframe = timeframe;
  candles = slice_closed_candles candles as_of;
}

-- EVALUATION_BUFFER_SECONDS, in microseconds.
abbrev pub evaluation_buffer : ℕ
evaluation_buffer = 5000000

unfoldable pub evaluation_time_for_daily : Candle → Time
evaluation_time_for_daily candle = candle.close_time + evaluation_buffer

-- A warning of `validate_chronological`, with the symbol and the open time that its text shows.
pub data DataWarning : Type 0 where
  duplicate_candle unsorted_candle open_candle : String → Time → DataWarning

-- `prev is not None and c.open_time <= prev`
abbrev pub is_unsorted : (prev : Option Time) → Time → Bool
is_unsorted none time = false
is_unsorted (some prev) time = leb time prev

-- The warnings of one candle.
unfoldable pub candle_warnings : (seen : List Time) (prev : Option Time) → Candle → List DataWarning
candle_warnings seen prev c =
    (if any (λ t. t == c.open_time) seen then duplicate_candle c.symbol c.open_time ∷ [] else [])
    ++ (if is_unsorted prev c.open_time then unsorted_candle c.symbol c.open_time ∷ [] else [])
    ++ (if c.is_closed then [] else open_candle c.symbol c.open_time ∷ [])

-- The loop of `validate_chronological`, with the times seen so far.
unfoldable pub validate_from :
    (seen : List Time) (prev : Option Time) → List Candle → List DataWarning
unfolding candle_warnings
validate_from seen prev [] = []
validate_from seen prev (c ∷ cs) =
    candle_warnings seen prev c ++ validate_from (c.open_time ∷ seen) (some c.open_time) cs

unfoldable pub validate_chronological : List Candle → List DataWarning
unfolding validate_from
validate_chronological candles = validate_from [] none candles

-- `{c.open_time: (i, c) for i, c in enumerate(candles)}`: a later candle of a time takes the place of an
-- earlier one. The index is not read.
unfoldable pub put_time : Candle → List (Time × Candle) → List (Time × Candle)
put_time c [] = (c.open_time, c) ∷ []
put_time c ((t, d) ∷ entries) =
    let rest = put_time c entries in if t == c.open_time then (t, c) ∷ entries else (t, d) ∷ rest

unfoldable pub by_open_time_from : List (Time × Candle) → List Candle → List (Time × Candle)
unfolding put_time
by_open_time_from entries [] = entries
by_open_time_from entries (c ∷ cs) = by_open_time_from (put_time c entries) cs

unfoldable pub by_open_time : List Candle → List (Time × Candle)
unfolding by_open_time_from
by_open_time candles = by_open_time_from [] candles

-- `times.add(t)` on a set that is kept sorted.
unfoldable pub add_time : Time → List Time → List Time
add_time t [] = t ∷ []
add_time t (s ∷ ts) =
    let rest = add_time t ts in if ltb t s then t ∷ s ∷ ts else if t == s then s ∷ ts else s ∷ rest

unfoldable pub add_times : List Candle → List Time → List Time
unfolding add_time
add_times [] ts = ts
add_times (c ∷ cs) ts = add_times cs (add_time c.open_time ts)

-- `_build_timeline`: the open times of every symbol, sorted, each once.
unfoldable pub build_timeline_from : (String → List Candle) → List String → List Time → List Time
unfolding add_times
build_timeline_from daily [] ts = ts
build_timeline_from daily (sym ∷ syms) ts =
    build_timeline_from daily syms (add_times (daily sym) ts)

unfoldable pub build_timeline : (String → List Candle) → List String → List Time
unfolding build_timeline_from
build_timeline daily symbols = build_timeline_from daily symbols []

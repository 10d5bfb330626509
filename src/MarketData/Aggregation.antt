-- ===== src/MarketData/Aggregation.antt =====
-- services/market_data/aggregation.py: weeks and months made of daily candles.
pub mod Weeks
use save_money_trading_bot.Prelude.{
  ℕ, zero, suc, ◌+◌, ◌*◌, ◌/◌, Bool, true, false, not, ◌&&◌, Option, none, some, List, [], ◌∷◌, map,
  any, leb, ltb, ◌==◌, if◌then◌else◌,
}
use save_money_trading_bot.Decimal.{
  Decimal, Exc, ok, raised, out_of_fuel, ◌>>=◌, max_dec, min_dec, sum_from, zero_dec,
}
use save_money_trading_bot.StrategyEngine.Models.{Time}
use save_money_trading_bot.MarketData.Models.{
  MarketSymbol, same_symbol, MarketTimeframe, market_weekly, market_monthly, NormalizedCandle,
}
use save_money_trading_bot.MarketData.Timeframes.{
  day, year_of, month_of, daily_open, weekly_open_containing, weekly_close, monthly_open,
  monthly_close, next_month_open, is_candle_closed,
}
use save_money_trading_bot.MarketData.Validation.{sort_candles}

-- `tuple(c for c in candles if test(c))`
unfoldable pub candles_where :
    (NormalizedCandle → Bool) → List NormalizedCandle → List NormalizedCandle
candles_where test [] = []
candles_where test (c ∷ cs) = let rest = candles_where test cs in if test c then c ∷ rest else rest

-- `t in times`
abbrev pub has_time : Time → List Time → Bool
has_time t = any (λ s. s == t)

-- Every time of the one is in the other.
unfoldable pub all_in : List Time → List Time → Bool
all_in [] ts = true
all_in (s ∷ ss) ts = has_time s ts && all_in ss ts

-- `a == b` on sets of times
abbrev pub same_times : List Time → List Time → Bool
same_times a b = all_in a b && all_in b a

-- `ordered[-1]`, of a list with a first candle.
unfoldable pub last_candle : NormalizedCandle → List NormalizedCandle → NormalizedCandle
last_candle c [] = c
last_candle c (d ∷ ds) = last_candle d ds

unfoldable pub highest : Decimal → List NormalizedCandle → Decimal
highest high [] = high
highest high (c ∷ cs) = highest (max_dec high c.high) cs

unfoldable pub lowest : Decimal → List NormalizedCandle → Decimal
lowest low [] = low
lowest low (c ∷ cs) = lowest (min_dec low c.low) cs

-- The candle of a bucket, of its candles in order.
unfoldable pub bucket_candle :
    MarketSymbol
    → MarketTimeframe
    → (bucket_open bucket_close : Time) (first : NormalizedCandle) (others : List NormalizedCandle)
    → NormalizedCandle
unfolding last_candle highest lowest
bucket_candle symbol timeframe bucket_open bucket_close first others = record {
  symbol = symbol;
  timeframe = timeframe;
  open_time = bucket_open;
  close_time = bucket_close;
  open_price = first.open_price;
  high = highest first.high others;
  low = lowest first.low others;
  close = (last_candle first others).close;
  volume = sum_from zero_dec (map (λ (c : NormalizedCandle). c.volume) (first ∷ others));
  is_closed = true;
}

-- `bucket_open <= d.open_time <= bucket_close`
abbrev pub members_of :
    (bucket_open bucket_close : Time) → List NormalizedCandle → List NormalizedCandle
members_of bucket_open bucket_close =
    candles_where (λ d. leb bucket_open d.open_time && leb d.open_time bucket_close)

-- `{daily_open(d.open_time) for d in members}`
abbrev pub days_present : List NormalizedCandle → List Time
days_present = map (λ (d : NormalizedCandle). daily_open d.open_time)

-- `_aggregate_bucket`
unfoldable pub aggregate_bucket :
    List NormalizedCandle
    → MarketSymbol
    → MarketTimeframe
    → (bucket_open bucket_close evaluation_time : Time) (required_days : List Time)
    → Option NormalizedCandle
unfolding bucket_candle
aggregate_bucket dailies symbol timeframe bucket_open bucket_close evaluation_time required_days =
    let members = members_of bucket_open bucket_close dailies in
    if not (is_candle_closed bucket_close evaluation_time)
    then none
    else if not (same_times (days_present members) required_days)
    then none
    else elim (sort_candles members) [
      | [] ↦ none
      | first ∷ others ↦ some (bucket_candle symbol timeframe bucket_open bucket_close first others)
    ]

-- `_day_range`
unfoldable pub day_range : (start : Time) (count : ℕ) → List Time
day_range start zero = []
day_range start (suc n) = start ∷ day_range (start + day) n

-- A candle in front, where there is one.
abbrev pub with_candle : Option NormalizedCandle → List NormalizedCandle → List NormalizedCandle
with_candle none cs = cs
with_candle (some c) cs = c ∷ cs

-- The loop over the weeks, with fuel.
unfoldable pub weeks_from :
    (fuel : ℕ)
    → List NormalizedCandle
    → MarketSymbol
    → (evaluation_time last_day week_start : Time) → Exc (List NormalizedCandle)
unfolding aggregate_bucket day_range
weeks_from zero dailies symbol evaluation_time last_day week_start = raised out_of_fuel
weeks_from (suc fuel) dailies symbol evaluation_time last_day week_start =
    let rest = weeks_from fuel dailies symbol evaluation_time last_day (week_start + 7 * day) in
    if not (leb week_start last_day) then ok [] else (do
      week_close ← weekly_close week_start
      weeks ← rest
      ok (
          with_candle
            (aggregate_bucket dailies symbol market_weekly week_start week_close evaluation_time
              (day_range week_start 7))
            weeks))

-- The candles of the symbol, in order.
abbrev pub dailies_of : List NormalizedCandle → MarketSymbol → List NormalizedCandle
dailies_of dailies symbol = sort_candles (candles_where (λ d. same_symbol d.symbol symbol) dailies)

unfoldable pub aggregate_weekly_from_daily :
    List NormalizedCandle → MarketSymbol → (evaluation_time : Time) → Exc (List NormalizedCandle)
unfolding weeks_from candles_where
aggregate_weekly_from_daily dailies symbol evaluation_time = elim (dailies_of dailies symbol) [
  | [] ↦ ok []
  | first ∷ others ↦
      let last_day = daily_open (last_candle first others).open_time in
      weeks_from (suc (suc (last_day / day))) (first ∷ others) symbol evaluation_time last_day
        (weekly_open_containing (daily_open first.open_time))
]

-- The loop of `_month_day_range`, with fuel.
unfoldable pub month_days_from : (fuel : ℕ) (last cursor : Time) → List Time
month_days_from zero last cursor = []
month_days_from (suc fuel) last cursor =
    let rest = month_days_from fuel last (cursor + day) in
    if leb cursor last then cursor ∷ rest else []

-- `_month_day_range`: a month has 31 days at most.
unfoldable pub month_day_range : (month_start : Time) → Exc (List Time)
unfolding month_days_from
month_day_range month_start = do
  close ← monthly_close month_start
  ok (month_days_from 32 (daily_open close) month_start)

-- The loop over the months, with fuel.
unfoldable pub months_from :
    (fuel : ℕ)
    → List NormalizedCandle
    → MarketSymbol
    → (evaluation_time last_day cursor : Time) → Exc (List NormalizedCandle)
unfolding aggregate_bucket month_day_range
months_from zero dailies symbol evaluation_time last_day cursor = raised out_of_fuel
months_from (suc fuel) dailies symbol evaluation_time last_day cursor =
    let rest = months_from fuel dailies symbol evaluation_time last_day (next_month_open cursor) in
    if not (leb cursor last_day) then ok [] else (do
      close ← monthly_close cursor
      required ← month_day_range cursor
      months ← rest
      ok (
          with_candle
            (aggregate_bucket dailies symbol market_monthly cursor close evaluation_time required)
            months))

unfoldable pub aggregate_monthly_from_daily :
    List NormalizedCandle → MarketSymbol → (evaluation_time : Time) → Exc (List NormalizedCandle)
unfolding months_from candles_where
aggregate_monthly_from_daily dailies symbol evaluation_time = elim (dailies_of dailies symbol) [
  | [] ↦ ok []
  | first ∷ others ↦
      let last_day = daily_open (last_candle first others).open_time in
      months_from (suc (suc (last_day / day))) (first ∷ others) symbol evaluation_time last_day
        (monthly_open (year_of first.open_time) (month_of first.open_time))
]

-- ===== src/MarketData/Timeframes.antt =====
-- services/market_data/timeframes.py, closed.py and stale.py. A datetime is a UTC instant, in whole
-- microseconds from 1970 on, so that `ensure_utc` changes nothing; its fields are those of Python's
-- proleptic Gregorian calendar. The Monday before 5 January 1970 is out of the model's range.
pub mod Months
use save_money_trading_bot.Prelude.{
  ℕ, ◌+◌, ◌-◌, ◌*◌, ◌/◌, ◌%◌, Bool, true, false, not, ◌&&◌, ◌||◌, Option, none, some, List, [], ◌∷◌,
  leb, ltb, ◌==◌, if◌then◌else◌,
}
use save_money_trading_bot.Decimal.{Exc, ok, raised, value_error, ◌>>=◌}
use save_money_trading_bot.StrategyEngine.Models.{Time}
use save_money_trading_bot.MarketData.Models.{
  MarketTimeframe, market_daily, market_weekly, market_monthly, NormalizedCandle,
}

abbrev pub second : ℕ
second = 1000000

abbrev pub day : ℕ
day = 86400000000

-- `dt.weekday()`: the epoch was a Thursday.
abbrev pub weekday : Time → ℕ
weekday t = (t / day + 3) % 7

-- Years from March on, counted from the March of year 0, in eras of 400 years.
abbrev pub era_day : Time → ℕ
era_day t = (t / day + 719468) % 146097

abbrev pub era_year : Time → ℕ
era_year t = (era_day t - era_day t / 1460 + era_day t / 36524 - era_day t / 146096) / 365

abbrev pub year_day : Time → ℕ
year_day t = era_day t - (365 * era_year t + era_year t / 4 - era_year t / 100)

abbrev pub march_month : Time → ℕ
march_month t = (5 * year_day t + 2) / 153

-- `dt.day`, `dt.month`, `dt.year`
abbrev pub day_of : Time → ℕ
day_of t = year_day t - (153 * march_month t + 2) / 5 + 1

abbrev pub month_of : Time → ℕ
month_of t = if ltb (march_month t) 10 then march_month t + 3 else march_month t - 9

abbrev pub year_of : Time → ℕ
year_of t = era_year t + (t / day + 719468) / 146097 * 400 + (if leb (month_of t) 2 then 1 else 0)

-- The days from 1 March of year 0 to the first of a month.
unfoldable pub days_to : (year month : ℕ) → ℕ
days_to year month =
    let y = if leb month 2 then year - 1 else year in
    let m = if leb month 2 then month + 9 else month - 3 in
    y / 400 * 146097 + (y % 400 * 365 + y % 400 / 4 - y % 400 / 100) + (153 * m + 2) / 5

unfoldable pub daily_open : Time → Time
daily_open t = t / day * day

unfoldable pub daily_close : Time → Time
daily_close open_time = open_time / day * day + 86399 * second

unfoldable pub weekly_open_containing : Time → Time
unfolding daily_open
weekly_open_containing t = daily_open t - weekday t * day

unfoldable pub weekly_close : Time → Exc Time
weekly_close open_time =
    if weekday open_time == 0 then ok (open_time + 6 * day + 86399 * second) else raised value_error

unfoldable pub monthly_open : (year month : ℕ) → Time
unfolding days_to
monthly_open year month = (days_to year month - 719468) * day

-- The first of the month after that of the time.
unfoldable pub next_month_open : Time → Time
unfolding monthly_open
next_month_open t =
    if month_of t == 12
    then monthly_open (year_of t + 1) 1
    else monthly_open (year_of t) (month_of t + 1)

unfoldable pub monthly_close : Time → Exc Time
unfolding next_month_open
monthly_close open_time =
    if not (day_of open_time == 1) || not (open_time % day / (3600 * second) == 0)
    then raised value_error
    else ok (next_month_open open_time - second)

unfoldable pub expected_close_time : Time → MarketTimeframe → Exc Time
unfolding daily_close weekly_close monthly_close
expected_close_time open_time market_daily = ok (daily_close open_time)
expected_close_time open_time market_weekly = weekly_close open_time
expected_close_time open_time market_monthly = monthly_close open_time

unfoldable pub next_open_time : Time → MarketTimeframe → Time
unfolding next_month_open
next_open_time open_time market_daily = open_time + day
next_open_time open_time market_weekly = open_time + 7 * day
next_open_time open_time market_monthly = next_month_open open_time

unfoldable pub is_valid_timeframe_duration :
    (open_time close_time : Time) → MarketTimeframe → Exc Bool
unfolding expected_close_time
is_valid_timeframe_duration open_time close_time timeframe = do
  expected ← expected_close_time open_time timeframe
  ok (close_time == expected)

unfoldable pub is_candle_closed : (close_time evaluation_time : Time) → Bool
is_candle_closed close_time evaluation_time = leb close_time evaluation_time

unfoldable pub filter_closed_candles :
    List NormalizedCandle → (evaluation_time : Time) → List NormalizedCandle
unfolding is_candle_closed
filter_closed_candles [] evaluation_time = []
filter_closed_candles (c ∷ cs) evaluation_time =
    let rest = filter_closed_candles cs evaluation_time in
    if is_candle_closed c.close_time evaluation_time then c ∷ rest else rest

-- Both branches give the candle with the state: the first one leaves out the copy.
unfoldable pub mark_closed_state : NormalizedCandle → (evaluation_time : Time) → NormalizedCandle
unfolding is_candle_closed
mark_closed_state c evaluation_time = record c {
  is_closed = is_candle_closed c.close_time evaluation_time;
}

unfoldable pub is_candle_data_stale : Option NormalizedCandle → (evaluation_time : Time) → Exc Bool
unfolding expected_close_time next_open_time is_candle_closed
is_candle_data_stale none evaluation_time = ok true
is_candle_data_stale (some last) evaluation_time = do
  let next_open = next_open_time last.open_time last.timeframe
  close ← expected_close_time next_open last.timeframe
  ok (is_candle_closed close evaluation_time && ltb last.open_time next_open)

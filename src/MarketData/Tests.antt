-- ===== src/MarketData/Tests.antt =====
-- The market data's theorems at concrete inputs.
use save_money_trading_bot.Prelude.{
  none, ℕ, ◌+◌, ◌-◌, ◌*◌, ◌≤◌, ◌≡◌, ◌↔◌, ◌||◌, refl, true, List, [], ◌∷◌, All, any, leb, arith, map,
  false, ◌++◌, ◌==◌,
}
use save_money_trading_bot.Decimal.{
  nonpos, negative, le, eq, of_ℕ, Exc, ok, raised, sum_from, max_dec, min_dec, lt, add, fix, digits,
}
use save_money_trading_bot.StrategyEngine.Models.{Time}
use save_money_trading_bot.MarketData.Models.{
  btc, status_valid, DataQualityReport, MarketTimeframe, market_daily, market_weekly,
  NormalizedCandle, CandleGap,
}
use save_money_trading_bot.MarketData.Timeframes.{
  is_valid_timeframe_duration, expected_close_time, day, second, day_of, month_of, year_of,
  weekly_open_containing, weekly_close, is_candle_closed, daily_open, daily_close, monthly_open,
  next_month_open, days_to,
}
use save_money_trading_bot.MarketData.Timeframes.Months.{monthly_open-fields}
use save_money_trading_bot.MarketData.Validation.{
  unique_from, level_codes, validate_single_candle, sort_candles, insert_candle,
  validate_candle_structure, is_for, candles_equal,
}
use save_money_trading_bot.MarketData.Validation.Structure.{
  IsWellFormed, validate_candle_structure-none,
}
use save_money_trading_bot.MarketData.Series.{
  validate_series, series_codes, same_candles, series_report, series_status_of, last_of,
}
use save_money_trading_bot.MarketData.Series.Valid.{IsValidSeries, validate_series-IsValidSeries}
use save_money_trading_bot.MarketData.Gaps.{detect_gaps}
use save_money_trading_bot.MarketData.Gaps.Complete.{
  IsDay, is_missing, is_present, detect_gaps_complete,
}
use save_money_trading_bot.MarketData.Merge.{merge_native_and_aggregated}
use save_money_trading_bot.MarketData.Merge.Complete.{
  IsAccounted, merge_native_and_aggregated-accounts,
}
use save_money_trading_bot.MarketData.Aggregation.{
  dailies_of, aggregate_weekly_from_daily, weeks_from, aggregate_bucket, bucket_candle,
  candles_where, all_in, last_candle, highest, lowest, day_range,
}
use save_money_trading_bot.MarketData.Aggregation.Weeks.{
  IsWholeWeek, aggregate_weekly_from_daily-IsWholeWeek,
}

-- A candle of a day since the epoch, of 24 hours less a second.
abbrev candle : MarketTimeframe → (n close : ℕ) → NormalizedCandle
candle timeframe n close = record {
  symbol = btc;
  timeframe = timeframe;
  open_time = n * day;
  close_time = n * day + 86399 * second;
  open_price = of_ℕ close;
  high = of_ℕ (close + 2);
  low = of_ℕ (close - 2);
  close = of_ℕ close;
  volume = of_ℕ 1;
  is_closed = true;
}

-- The first and the last day of February 2024, and what follows it.
february :
    (monthly_open 2024 2 ≡ 19754 * day)
    × (next_month_open (19754 * day) ≡ 19783 * day)
    × (day_of (19782 * day) ≡ 29)
unfolding monthly_open next_month_open days_to
february = (refl, refl, refl)

monthly_open-fields_example :
    monthly_open (year_of (19782 * day)) (month_of (19782 * day)) + (day_of (19782 * day) - 1) * day
    ≡ daily_open (19782 * day)
monthly_open-fields_example = monthly_open-fields (19782 * day) (omega arith)

validate_candle_structure-none_example :
    (validate_candle_structure (candle market_daily 19754 100) ≡ ok [])
    ↔ IsWellFormed (candle market_daily 19754 100)
validate_candle_structure-none_example =
    validate_candle_structure-none (candle market_daily 19754 100)

-- A Monday, a Tuesday and a Thursday.
abbrev three_days : List NormalizedCandle
three_days =
    candle market_daily 19754 100
    ∷ candle market_daily 19751 100
    ∷ candle market_daily 19752 101
    ∷ []

detect_gaps_complete_example :
    (gs : List CandleGap) × (detect_gaps three_days btc market_daily (19756 * day) ≡ ok gs)
    × ((t : Time)
        → IsDay t
        → any (λ (d : NormalizedCandle). leb d.open_time t) three_days ≡ true
        → daily_close t ≤ 19756 * day
        → (is_present t three_days || is_missing t gs) ≡ true)
detect_gaps_complete_example =
    detect_gaps_complete three_days btc (19756 * day) (refl, (refl, (refl, tt)))

-- An aggregated week that differs from the native one.
abbrev native : List NormalizedCandle
native = candle market_weekly 19751 100 ∷ []

abbrev aggregated : List NormalizedCandle
aggregated = candle market_weekly 19751 101 ∷ candle market_weekly 19758 102 ∷ []

merge_native_and_aggregated-accounts_example :
    ((earlier later : List NormalizedCandle) (c : NormalizedCandle)
      → native ≡ earlier ++ c ∷ later
      → is_for btc market_weekly c ≡ true
      → All (λ d. is_for btc market_weekly d ≡ true → (d.open_time == c.open_time) ≡ false) later
      → any
          (λ m. candles_equal m c)
          (merge_native_and_aggregated native aggregated btc market_weekly).0
        ≡ true)
    × All
        (λ a.
          is_for btc market_weekly a ≡ true
          → IsAccounted (merge_native_and_aggregated native aggregated btc market_weekly) a)
        aggregated
merge_native_and_aggregated-accounts_example =
    merge_native_and_aggregated-accounts native aggregated btc market_weekly

unfoldable map_opens : Exc (List NormalizedCandle) → List Time
map_opens (ok ws) = map (λ (w : NormalizedCandle). w.open_time) ws
map_opens (raised e) = []

-- The seven days of a week.
abbrev week : List NormalizedCandle
week =
    candle market_daily 19751 100
    ∷ candle market_daily 19752 101
    ∷ candle market_daily 19753 102
    ∷ candle market_daily 19754 103
    ∷ candle market_daily 19755 104
    ∷ candle market_daily 19756 105
    ∷ candle market_daily 19757 106
    ∷ []

-- The week is made when it is over, and not before.
weeks_made :
    (map_opens (aggregate_weekly_from_daily week btc (19758 * day)) ≡ 19751 * day ∷ [])
    × (map_opens (aggregate_weekly_from_daily week btc (19757 * day)) ≡ [])
unfolding aggregate_weekly_from_daily weeks_from aggregate_bucket bucket_candle candles_where all_in
    last_candle highest lowest day_range sort_candles insert_candle weekly_open_containing
    weekly_close daily_open is_candle_closed sum_from max_dec min_dec lt add fix digits map_opens
weeks_made = (refl, refl)

aggregate_weekly_from_daily-IsWholeWeek_example :
    (ws : List NormalizedCandle) × (aggregate_weekly_from_daily week btc (19758 * day) ≡ ok ws)
    × All (IsWholeWeek (dailies_of week btc) (19758 * day)) ws
aggregate_weekly_from_daily-IsWholeWeek_example =
    aggregate_weekly_from_daily-IsWholeWeek week btc (19758 * day) (
      omega arith,
      (omega arith, (omega arith, (omega arith, (omega arith, (omega arith, (omega arith, tt)))))),
    )

abbrev week_report : DataQualityReport
week_report = series_report market_daily (19758 * day) [] [] (last_of none (sort_candles week)) []

week_validates : validate_series week btc market_daily (19758 * day) [] [] ≡ ok week_report
unfolding validate_series series_codes same_candles unique_from series_report last_of sort_candles
    insert_candle candles_equal validate_single_candle validate_candle_structure level_codes
    is_valid_timeframe_duration expected_close_time daily_close is_candle_closed nonpos negative lt
    le eq
week_validates = refl

week_report_valid : week_report.status ≡ status_valid
unfolding series_report series_status_of
week_report_valid = refl

validate_series-IsValidSeries_example : IsValidSeries btc market_daily (19758 * day) week [] []
validate_series-IsValidSeries_example =
    validate_series-IsValidSeries week btc market_daily (19758 * day) [] [] week_report
      week_validates week_report_valid

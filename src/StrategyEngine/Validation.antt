-- ===== src/StrategyEngine/Validation.antt =====
-- services/strategy_engine/validation.py: the checks of a candle series, and the warm-up.
pub mod Series
use Prim.Native.String.{◌++◌ as append}
use save_money_trading_bot.Prelude.{
  ℕ, ◌+◌, max, String, Bool, false, not, ◌||◌, ◌&&◌, Option, none, some, List, [], ◌∷◌, ◌++◌,
  length, any, str_eq, leb, ltb, ◌==◌, if◌then◌else◌,
}
use save_money_trading_bot.Decimal.{Decimal, nonpos, negative, lt, is_finite}
use save_money_trading_bot.StrategyEngine.Codes.{
  rc_reject_data, rc_reject_warmup, Timeframe, daily, weekly, monthly, same_timeframe,
  DataQualityStatus, data_ok, data_invalid, data_insufficient,
}
use save_money_trading_bot.StrategyEngine.Models.{
  Time, Candle, CandleSeries, StrategyParameters, default_parameters, StrategyError,
}

abbrev pub data_error : String → StrategyError
data_error message = record { code = rc_reject_data; message = message }

-- The loop of `_validate_ohlc` over its five fields.
unfoldable pub first_not_finite : List (String × Decimal) → Option StrategyError
first_not_finite [] = none
first_not_finite ((name, value) ∷ fields) =
    if not (is_finite value)
    then some (data_error (append name " is NaN or Infinity"))
    else first_not_finite fields

-- The checks of `_validate_ohlc` below the loop.
unfoldable pub validate_levels : Candle → Option StrategyError
validate_levels candle =
    if nonpos o || (nonpos h || (nonpos l || nonpos c))
    then some (data_error "OHLC values must be greater than zero")
    else if lt h o || (lt h c || lt h l)
    then some (data_error "high must be >= open, close, and low")
    else if lt o l || (lt c l || lt h l)
    then some (data_error "low must be <= open, close, and high")
    else if negative candle.volume
    then some (data_error "volume must be >= 0")
    else none
  where
    open candle use {open_price as o, high as h, low as l, close as c}

unfoldable pub validate_ohlc : Candle → Option StrategyError
unfolding first_not_finite validate_levels
validate_ohlc candle =
    elim (first_not_finite (
      ("open", candle.open_price)
      ∷ ("high", candle.high)
      ∷ ("low", candle.low)
      ∷ ("close", candle.close)
      ∷ ("volume", candle.volume)
      ∷ [])) [ some e ↦ some e | none ↦ validate_levels candle ]

-- `min_candles_for_warmup`
unfoldable pub min_candles_for_warmup : Timeframe → StrategyParameters → ℕ
min_candles_for_warmup daily p =
    max (max (max p.daily_ema_period (p.atr_period + 1)) p.volume_sma_period)
      (p.breakout_lookback + 1)
min_candles_for_warmup weekly p = max p.weekly_ema_slow (p.weekly_ema_fast + 1)
min_candles_for_warmup monthly p = p.monthly_ema_period

-- `errors.append` under a test.
abbrev pub error_if : Bool → String → List StrategyError
error_if test message = if test then data_error message ∷ [] else []

abbrev pub to_list : Option StrategyError → List StrategyError
to_list none = []
to_list (some e) = e ∷ []

-- `prev_open_time is not None and open_time <= prev_open_time`
abbrev pub not_after : Option Time → Time → Bool
not_after none open_time = false
not_after (some prev) open_time = leb open_time prev

abbrev pub seen_time : Time → List Time → Bool
seen_time t = any (λ s. s == t)

-- The loop body of `validate_candle_series` for one candle.
unfoldable pub candle_errors :
    CandleSeries
    → (evaluation_time : Time) → (seen_times : List Time) → (prev : Option Time) → Candle
    → List StrategyError
unfolding validate_ohlc
candle_errors series evaluation_time seen_times prev candle =
    error_if (not (str_eq candle.symbol series.symbol)) "Symbol mismatch in candle series"
    ++ (error_if (not (same_timeframe candle.timeframe series.timeframe))
          "Timeframe mismatch in candle"
        ++ (error_if (not candle.is_closed) "Open (unclosed) candle not allowed"
            ++ (error_if (ltb evaluation_time candle.close_time)
                  "Evaluation time before candle close_time"
                ++ (error_if (seen_time candle.open_time seen_times) "Duplicate candle timestamp"
                    ++ (error_if (not_after prev candle.open_time)
                          "Candles not strictly chronologically sorted by open_time"
                        ++ to_list (validate_ohlc candle))))))

-- The loop, with the times seen so far and the last one.
unfoldable pub series_errors :
    CandleSeries
    → (evaluation_time : Time) → (seen_times : List Time) → (prev : Option Time) → List Candle
    → List StrategyError
unfolding candle_errors
series_errors series evaluation_time seen_times prev [] = []
series_errors series evaluation_time seen_times prev (candle ∷ candles) =
    candle_errors series evaluation_time seen_times prev candle
    ++ series_errors series evaluation_time (candle.open_time ∷ seen_times) (some candle.open_time)
        candles

-- The end of `validate_candle_series`: any error invalidates, then the length decides.
unfoldable pub series_status :
    CandleSeries → List StrategyError → DataQualityStatus × List StrategyError
unfolding min_candles_for_warmup
series_status series (e ∷ es) = (data_invalid, e ∷ es)
series_status series [] =
    if ltb (length series.candles) (min_candles_for_warmup series.timeframe default_parameters)
    then (
      data_insufficient,
      record { code = rc_reject_warmup; message = "Insufficient history for timeframe" } ∷ [],
    )
    else (data_ok, [])

-- `validate_candle_series` with an expected timeframe.
unfoldable pub validate_candle_series :
    CandleSeries → (evaluation_time : Time) → Timeframe → DataQualityStatus × List StrategyError
unfolding series_errors series_status
validate_candle_series series evaluation_time expected =
    let first = error_if (not (same_timeframe series.timeframe expected)) "Incorrect timeframe" in
    elim series.candles [
      | [] ↦ (data_invalid, first ++ data_error "Empty candle series" ∷ [])
      | candle ∷ candles ↦
          series_status series
            (first ++ series_errors series evaluation_time [] none (candle ∷ candles))
    ]

-- `check_warmup_complete`
unfoldable pub check_warmup_complete :
    (daily_count weekly_count monthly_count : ℕ) → StrategyParameters → Bool
unfolding min_candles_for_warmup
check_warmup_complete daily_count weekly_count monthly_count p =
    leb (min_candles_for_warmup daily p) daily_count
    && (leb (min_candles_for_warmup weekly p) weekly_count
        && leb (min_candles_for_warmup monthly p) monthly_count)

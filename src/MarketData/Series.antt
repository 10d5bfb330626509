-- ===== src/MarketData/Series.antt =====
-- services/market_data/validation.py: `validate_series`, the report on a series of candles.
pub mod Valid
use save_money_trading_bot.Prelude.{
  Bool, true, false, not, ◌&&◌, ◌||◌, Option, none, some, List, [], ◌∷◌, ◌++◌, map, any, leb, ◌==◌,
  if◌then◌else◌,
}
use save_money_trading_bot.Decimal.{Exc, ok, ◌>>=◌}
use save_money_trading_bot.StrategyEngine.Models.{Time}
use save_money_trading_bot.MarketData.Models.{
  MarketSymbol, MarketTimeframe, DataQualityStatus, status_valid, status_incomplete, status_invalid,
  MarketDataReasonCode, md_valid, md_incomplete, md_invalid, md_invalid_ohlc, md_invalid_volume,
  md_invalid_timeframe, md_duplicate_conflict, md_unknown_symbol, md_gap_detected, md_future_candle,
  md_open_candle_excluded, has_code, NormalizedCandle, CandleGap, CandleConflict, DataQualityReport,
}
use save_money_trading_bot.MarketData.Timeframes.{next_open_time}
use save_money_trading_bot.MarketData.Validation.{
  code_if, unique_from, unique, validate_single_candle, candles_equal, sort_candles, is_for,
}

-- `list(a) == list(b)`
unfoldable pub same_candles : List NormalizedCandle → List NormalizedCandle → Bool
same_candles [] [] = true
same_candles [] (d ∷ ds) = false
same_candles (c ∷ cs) [] = false
same_candles (c ∷ cs) (d ∷ ds) = candles_equal c d && same_candles cs ds

-- The codes of a candle after the last one.
abbrev pub order_codes : Option NormalizedCandle → NormalizedCandle → List MarketDataReasonCode
order_codes none c = []
order_codes (some last) c =
    code_if (leb c.open_time last.close_time) md_invalid
    ++ code_if (leb c.open_time last.open_time) md_invalid

-- The loop over the sorted candles, with the opens seen so far and the last candle.
unfoldable pub series_codes :
    MarketSymbol
    → MarketTimeframe
    → (evaluation_time : Time) (seen_opens : List Time) (last : Option NormalizedCandle)
    → List NormalizedCandle
    → Exc (List MarketDataReasonCode)
unfolding validate_single_candle
series_codes symbol timeframe evaluation_time seen_opens last [] = ok []
series_codes symbol timeframe evaluation_time seen_opens last (c ∷ cs) = do
  single ← validate_single_candle c evaluation_time
  rest ← series_codes symbol timeframe evaluation_time (c.open_time ∷ seen_opens) (some c) cs
  ok (
      code_if (not (is_for symbol timeframe c)) md_invalid
      ++ single
      ++ code_if (any (λ t. t == c.open_time) seen_opens) md_duplicate_conflict
      ++ order_codes last c
      ++ rest)

-- `bool(items)`
abbrev pub has_some {ℓ} : {A : Type ℓ} → List A → Bool
has_some [] = false
has_some (x ∷ xs) = true

-- The status, by the codes without repetitions.
unfoldable pub series_status_of : List MarketDataReasonCode → DataQualityStatus
series_status_of codes =
    if has_code md_invalid_ohlc codes
      || has_code md_invalid_volume codes
      || has_code md_invalid_timeframe codes
      || has_code md_duplicate_conflict codes
      || has_code md_unknown_symbol codes
    then status_invalid
    else if has_code md_gap_detected codes
    then status_incomplete
    else if has_code md_future_candle codes || has_code md_open_candle_excluded codes
    then status_invalid
    else if has_some codes
    then status_invalid
    else status_valid

-- `last_candle` after the loop.
unfoldable pub last_of : Option NormalizedCandle → List NormalizedCandle → Option NormalizedCandle
last_of last [] = last
last_of last (c ∷ cs) = last_of (some c) cs

unfoldable pub series_report :
    MarketTimeframe
    → (evaluation_time : Time) → List CandleGap
    → List CandleConflict
    → (last : Option NormalizedCandle) (codes : List MarketDataReasonCode) → DataQualityReport
unfolding series_status_of
series_report timeframe evaluation_time gaps conflicts last codes = record {
  status = series_status_of codes;
  reason_codes = if has_some codes then codes else md_valid ∷ [];
  gaps = gaps;
  conflicts = conflicts;
  missing_ranges = map (λ (g : CandleGap). (g.missing_open_time, g.expected_close_time)) gaps;
  last_known_candle = last;
  expected_next_open = elim last [
    | none ↦ none
    | some c ↦ some (next_open_time c.open_time timeframe)
  ];
  evaluation_time = evaluation_time;
}

-- The report on no candles.
abbrev pub empty_report : (evaluation_time : Time) → DataQualityReport
empty_report evaluation_time = record {
  status = status_incomplete;
  reason_codes = md_incomplete ∷ [];
  gaps = [];
  conflicts = [];
  missing_ranges = [];
  last_known_candle = none;
  expected_next_open = none;
  evaluation_time = evaluation_time;
}

-- All codes, before repetitions go.
abbrev pub all_codes :
    (candles : List NormalizedCandle) (looped : List MarketDataReasonCode)
    → List CandleGap
    → List CandleConflict
    → List MarketDataReasonCode
all_codes candles looped gaps conflicts =
    code_if (not (same_candles (sort_candles candles) candles)) md_invalid
    ++ looped
    ++ code_if (has_some gaps) md_gap_detected
    ++ code_if (has_some conflicts) md_duplicate_conflict

unfoldable pub validate_series :
    List NormalizedCandle
    → MarketSymbol
    → MarketTimeframe
    → (evaluation_time : Time) → List CandleGap
    → List CandleConflict
    → Exc DataQualityReport
unfolding series_codes series_report unique_from same_candles
validate_series [] symbol timeframe evaluation_time gaps conflicts =
    ok (empty_report evaluation_time)
validate_series (c ∷ cs) symbol timeframe evaluation_time gaps conflicts = do
  let sorted = sort_candles (c ∷ cs)
  looped ← series_codes symbol timeframe evaluation_time [] none sorted
  ok (
      series_report timeframe evaluation_time gaps conflicts (last_of none sorted)
        (unique (all_codes (c ∷ cs) looped gaps conflicts)))

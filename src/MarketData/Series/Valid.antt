-- ===== src/MarketData/Series/Valid.antt =====
-- A series that is called valid.
use save_money_trading_bot.Prelude.{
  ◌≤◌, ◌<◌, ◌≡◌, refl, ap, ◌∙◌, true, false, not, Option, none, some, List, [], ◌∷◌, ◌++◌, All, any,
  leb, ltb, ◌==◌, arith, if◌then◌else◌,
}
use save_money_trading_bot.Decimal.{ok}
use save_money_trading_bot.StrategyEngine.Models.{Time}
use save_money_trading_bot.Backtester.Keeps.{ok-injective, ok-bind}
use save_money_trading_bot.MarketData.Models.{
  MarketSymbol, MarketTimeframe, status_valid, MarketDataReasonCode, md_invalid,
  md_duplicate_conflict, md_future_candle, md_open_candle_excluded, md_gap_detected,
  NormalizedCandle, CandleGap, CandleConflict, DataQualityReport,
}
use save_money_trading_bot.MarketData.Timeframes.{is_candle_closed}
use save_money_trading_bot.MarketData.Validation.{
  code_if, unique, unique_from, validate_candle_structure, validate_single_candle, sort_candles,
  is_for,
}
use save_money_trading_bot.MarketData.Validation.Structure.{
  IsWellFormed, unique-none, validate_candle_structure-none,
}
use save_money_trading_bot.MarketData.Series.{
  has_some, order_codes, series_codes, series_status_of, last_of, series_report, all_codes,
  same_candles, validate_series,
}

-- A candle of the series: of its symbol and timeframe, well formed, and closed by the evaluation.
pub record IsUsable (symbol : MarketSymbol) (timeframe : MarketTimeframe) (evaluation_time : Time)
    (c : NormalizedCandle) : Type 0 where
  pub of_series : is_for symbol timeframe c ≡ true
  pub well_formed : IsWellFormed c
  pub closed : c.close_time ≤ evaluation_time

-- Each candle opens after the one before it has closed.
abbrev pub Apart : Option NormalizedCandle → List NormalizedCandle → Type 0
Apart last [] = Unit
Apart none (c ∷ cs) = Apart (some c) cs
Apart (some last) (c ∷ cs) = (last.close_time < c.open_time) × Apart (some c) cs

append-none : (xs ys : List MarketDataReasonCode) → xs ++ ys ≡ [] → (xs ≡ []) × (ys ≡ [])
append-none [] ys h = (refl, h)
append-none (x ∷ xs) ys h = ground (arith, h)

single-none :
    (c : NormalizedCandle) (evaluation_time : Time)
    → validate_single_candle c evaluation_time ≡ ok []
    → (validate_candle_structure c ≡ ok []) × (c.close_time ≤ evaluation_time)
unfolding validate_single_candle is_candle_closed unique_from
single-none c evaluation_time h =
    let (codes, returns, h₁) = ok-bind (validate_candle_structure c) _ [] h in
    let late =
      if leb c.close_time evaluation_time
      then []
      else if ltb evaluation_time c.close_time
      then md_future_candle ∷ []
      else md_open_candle_excluded ∷ [] in
    let (none_of, not_late) =
      append-none codes late ((unique-none (codes ++ late)).0 (ok-injective h₁)) in
    (returns ∙ ap ok none_of, ground (arith, not_late))

-- What the codes of one step and of the rest say when there are none.
step-none :
    (symbol : MarketSymbol) (timeframe : MarketTimeframe) (c : NormalizedCandle) (seen : List Time)
    (last : Option NormalizedCandle) (single rest : List MarketDataReasonCode)
    → code_if (not (is_for symbol timeframe c)) md_invalid
        ++ single
        ++ code_if (any (λ t. t == c.open_time) seen) md_duplicate_conflict
        ++ order_codes last c
        ++ rest
      ≡ []
    → (is_for symbol timeframe c ≡ true) × (single ≡ []) × (order_codes last c ≡ []) × (rest ≡ [])
step-none symbol timeframe c seen last single rest h =
    let others = code_if (any (λ t. t == c.open_time) seen) md_duplicate_conflict in
    let first = code_if (not (is_for symbol timeframe c)) md_invalid in
    let (h₁, no_rest) = append-none (first ++ single ++ others ++ order_codes last c) rest h in
    let (h₂, ordered) = append-none (first ++ single ++ others) (order_codes last c) h₁ in
    let (h₃, _) = append-none (first ++ single) others h₂ in
    let (ours, no_single) = append-none first single h₃ in
    (ground (arith, ours), no_single, ordered, no_rest)

Apart-next :
    (last : Option NormalizedCandle) (c : NormalizedCandle) (cs : List NormalizedCandle)
    → order_codes last c ≡ []
    → Apart (some c) cs
    → Apart last (c ∷ cs)
Apart-next none c cs h a = a
Apart-next (some last) c cs h a = (ground (arith, h), a)

series_codes-none :
    (symbol : MarketSymbol) (timeframe : MarketTimeframe) (evaluation_time : Time)
    (seen : List Time) (last : Option NormalizedCandle) (cs : List NormalizedCandle)
    → series_codes symbol timeframe evaluation_time seen last cs ≡ ok []
    → All (IsUsable symbol timeframe evaluation_time) cs × Apart last cs
unfolding series_codes
series_codes-none symbol timeframe evaluation_time seen last [] h = (tt, tt)
series_codes-none symbol timeframe evaluation_time seen last (c ∷ cs) h =
    let (single, singles, h₁) = ok-bind (validate_single_candle c evaluation_time) _ [] h in
    let (rest, rests, h₂) =
      ok-bind (series_codes symbol timeframe evaluation_time (c.open_time ∷ seen) (some c) cs) _ []
        h₁ in
    let (ours, no_single, ordered, no_rest) =
      step-none symbol timeframe c seen last single rest (ok-injective h₂) in
    let (structure, closed) = single-none c evaluation_time (singles ∙ ap ok no_single) in
    let (usable, apart) =
      series_codes-none symbol timeframe evaluation_time (c.open_time ∷ seen) (some c) cs
        (rests ∙ ap ok no_rest) in
    (
      (
        record {
          of_series = ours;
          well_formed = (validate_candle_structure-none c).0 structure;
          closed = closed;
        },
        usable,
      ),
      Apart-next last c cs ordered apart,
    )

-- What a valid series is.
pub record IsValidSeries (symbol : MarketSymbol) (timeframe : MarketTimeframe)
    (evaluation_time : Time) (candles : List NormalizedCandle) (gaps : List CandleGap)
    (conflicts : List CandleConflict) : Type 0 where
  pub no_gaps : gaps ≡ []
  pub no_conflicts : conflicts ≡ []
  pub sorted : same_candles (sort_candles candles) candles ≡ true
  pub usable : All (IsUsable symbol timeframe evaluation_time) (sort_candles candles)
  pub apart : Apart none (sort_candles candles)

none_of_some : {A : Type 0} (xs : List A) → has_some xs ≡ false → xs ≡ []
none_of_some [] h = refl
none_of_some (x ∷ xs) h = ground (arith, h)

status-valid :
    (codes : List MarketDataReasonCode) → series_status_of codes ≡ status_valid → codes ≡ []
unfolding series_status_of
status-valid [] h = refl
status-valid (c ∷ cs) h = ground (arith, h)

-- A series that the report calls valid has no gaps and no conflicts; it is in the order of the
-- open times; its candles, in that order, are of the symbol and the timeframe, well formed and closed by
-- the evaluation; and each opens after the one before it has closed.
pub validate_series-IsValidSeries :
    (candles : List NormalizedCandle) (symbol : MarketSymbol) (timeframe : MarketTimeframe)
    (evaluation_time : Time) (gaps : List CandleGap) (conflicts : List CandleConflict)
    (r : DataQualityReport)
    → validate_series candles symbol timeframe evaluation_time gaps conflicts ≡ ok r
    → r.status ≡ status_valid
    → IsValidSeries symbol timeframe evaluation_time candles gaps conflicts
unfolding validate_series series_report
validate_series-IsValidSeries [] symbol timeframe evaluation_time gaps conflicts r h valid =
    ground (arith, h, valid)
validate_series-IsValidSeries (c ∷ cs) symbol timeframe evaluation_time gaps conflicts r h valid =
    let candles = c ∷ cs in
    let sorted = sort_candles candles in
    let (looped, loops, h₁) =
      ok-bind (series_codes symbol timeframe evaluation_time [] none sorted) _ r h in
    let codes = all_codes candles looped gaps conflicts in
    let report =
      series_report timeframe evaluation_time gaps conflicts (last_of none sorted) (unique codes) in
    let same : report ≡ r = ok-injective h₁ in
    let silent =
      (unique-none codes).0
        (status-valid (unique codes) (ap (λ (q : DataQualityReport). q.status) same ∙ valid)) in
    let order = code_if (not (same_candles sorted candles)) md_invalid in
    let gap = code_if (has_some gaps) md_gap_detected in
    let (h₂, conflict_free) =
      append-none (order ++ looped ++ gap) (code_if (has_some conflicts) md_duplicate_conflict)
        silent in
    let (h₃, gap_free) = append-none (order ++ looped) gap h₂ in
    let (in_order, no_codes) = append-none order looped h₃ in
    let (usable, apart) =
      series_codes-none symbol timeframe evaluation_time [] none sorted (loops ∙ ap ok no_codes) in
    record {
      no_gaps = none_of_some gaps (ground (arith, gap_free));
      no_conflicts = none_of_some conflicts (ground (arith, conflict_free));
      sorted = ground (arith, in_order);
      usable = usable;
      apart = apart;
    }

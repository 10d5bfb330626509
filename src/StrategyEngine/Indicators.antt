-- ===== src/StrategyEngine/Indicators.antt =====
-- services/strategy_engine/indicators.py. An entry of a series is none until its indicator is defined.
pub mod Causal
pub mod Lengths
use save_money_trading_bot.Prelude.{
  ℕ, zero, suc, ◌+◌, ◌-◌, Option, none, some, List, [], ◌∷◌, ◌++◌, map, length, take, drop,
  replicate, leb, ltb, if◌then◌else◌,
}
use save_money_trading_bot.Decimal.{
  Decimal, Exc, ok, raised, value_error, division_by_zero, ◌>>=◌, add, sub, mul, div, absolute,
  max_dec, sum_from, eq, of_ℕ, zero_dec,
}
use save_money_trading_bot.StrategyEngine.Models.{Candle}

abbrev pub Series : Type 0
Series = List (Option Decimal)

-- The EMA recurrence over the closes after the seed.
unfoldable pub ema_from : (alpha prev : Decimal) → List Decimal → Series
ema_from alpha prev [] = []
ema_from alpha prev (close ∷ closes) =
    let next = add (mul alpha close) (mul (sub (of_ℕ 1) alpha) prev) in
    some next ∷ ema_from alpha next closes

unfoldable pub compute_ema : List Decimal → ℕ → Exc Series
unfolding ema_from
compute_ema closes zero = raised value_error
compute_ema closes (suc p) =
    let period : ℕ = suc p in
    if ltb (length closes) period then ok (replicate (length closes) none) else (do
      alpha ← div (of_ℕ 2) (of_ℕ (period + 1))
      seed ← div (sum_from zero_dec (take period closes)) (of_ℕ period)
      ok (replicate p none ++ some seed ∷ ema_from alpha seed (drop period closes)))

-- The true range of a candle after another.
unfoldable pub true_range : Candle → Candle → Decimal
true_range prev candle =
    max_dec (max_dec (sub candle.high candle.low) (absolute (sub candle.high prev.close)))
      (absolute (sub candle.low prev.close))

unfoldable pub true_ranges : Candle → List Candle → List Decimal
unfolding true_range
true_ranges prev [] = []
true_ranges prev (candle ∷ candles) = true_range prev candle ∷ true_ranges candle candles

-- `compute_true_range`: the first entry is undefined, and no other is.
unfoldable pub compute_true_range : List Candle → Series
unfolding true_ranges
compute_true_range [] = []
compute_true_range (candle ∷ candles) = none ∷ map some (true_ranges candle candles)

-- The recurrence of the Wilder ATR over the true ranges after the seed.
unfoldable pub wilder_from : (p_minus_1 p atr : Decimal) → List Decimal → Exc Series
wilder_from p_minus_1 p atr [] = ok []
wilder_from p_minus_1 p atr (tr ∷ trs) = do
  next ← div (add (mul atr p_minus_1) tr) p
  rest ← wilder_from p_minus_1 p next trs
  ok (some next ∷ rest)

-- `compute_wilder_atr`. A list of at most `period` candles has no entry; else there is a first candle.
unfoldable pub compute_wilder_atr : List Candle → ℕ → Exc Series
unfolding true_ranges wilder_from
compute_wilder_atr [] period = ok []
compute_wilder_atr (candle ∷ candles) period =
    let trs = true_ranges candle candles in
    if leb (suc (length candles)) period then ok (replicate (suc (length candles)) none) else (do
      atr ← div (sum_from zero_dec (take period trs)) (of_ℕ period)
      rest ← wilder_from (of_ℕ (period - 1)) (of_ℕ period) atr (drop period trs)
      ok (replicate period none ++ some atr ∷ rest))

-- The windows of `period` neighbours, from the left.
unfoldable pub windows {ℓ} : {A : Type ℓ} → ℕ → List A → List (List A)
windows period [] = []
windows period (x ∷ xs) =
    if leb period (suc (length xs)) then take period (x ∷ xs) ∷ windows period xs else []

unfoldable pub means : Decimal → List (List Decimal) → Exc Series
means p [] = ok []
means p (window ∷ rest) = do
  mean ← div (sum_from zero_dec window) p
  means' ← means p rest
  ok (some mean ∷ means')

unfoldable pub compute_volume_sma : List Decimal → ℕ → Exc Series
unfolding windows means
compute_volume_sma volumes zero = raised division_by_zero
compute_volume_sma volumes (suc p) =
    let period : ℕ = suc p in
    if ltb (length volumes) period
    then ok (replicate (length volumes) none)
    else (do rest ← means (of_ℕ period) (windows period volumes); ok (replicate p none ++ rest))

-- One entry of the volume ratio: none without a mean, or with a mean of zero.
unfoldable pub ratio_entry : Decimal → Option Decimal → Exc (Option Decimal)
ratio_entry volume none = ok none
ratio_entry volume (some denom) =
    if eq denom zero_dec then ok none else (do q ← div volume denom; ok (some q))

unfoldable pub ratios : List Decimal → Series → Exc Series
unfolding ratio_entry
ratios (volume ∷ volumes) (denom ∷ sma) = do
  entry ← ratio_entry volume denom
  rest ← ratios volumes sma
  ok (entry ∷ rest)
ratios _ _ = ok []

unfoldable pub compute_volume_ratio : List Decimal → ℕ → Exc Series
unfolding compute_volume_sma ratios
compute_volume_ratio volumes period = do sma ← compute_volume_sma volumes period; ratios volumes sma

-- `max(values)` of a list that begins with `best`.
unfoldable pub max_from : Decimal → List Decimal → Decimal
max_from best [] = best
max_from best (x ∷ xs) = max_from (max_dec best x) xs

unfoldable pub max_of : List Decimal → Option Decimal
unfolding max_from
max_of [] = none
max_of (x ∷ xs) = some (max_from x xs)

-- All entries but the last.
abbrev pub all_but_last {ℓ} : {A : Type ℓ} → List A → List A
all_but_last [] = []
all_but_last (x ∷ []) = []
all_but_last (x ∷ y ∷ ys) = x ∷ all_but_last (y ∷ ys)

-- `compute_high20`: entry t is the highest of the `lookback` highs before t, so the last window ends
-- before the last high. `max` of an empty window raises ValueError.
unfoldable pub compute_high20 : List Decimal → ℕ → Exc Series
unfolding windows max_of
compute_high20 [] zero = ok []
compute_high20 (high ∷ highs) zero = raised value_error
compute_high20 highs (suc p) =
    let lookback : ℕ = suc p in
    if ltb (length highs) lookback
    then ok (replicate (length highs) none)
    else ok (replicate lookback none ++ map max_of (windows lookback (all_but_last highs)))

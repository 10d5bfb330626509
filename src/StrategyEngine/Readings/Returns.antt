-- ===== src/StrategyEngine/Readings/Returns.antt =====
-- Reading the indicators raises nothing where every period is positive and no series is empty.
use save_money_trading_bot.Prelude.{
  ℕ, zero, suc, ◌-◌, ◌≡◌, ◌≢◌, ◌<◌, refl, Option, none, some, List, [], ◌∷◌, map, length, arith,
  inl, inr,
}
use save_money_trading_bot.Decimal.{Decimal, ok, Exc-cases}
use save_money_trading_bot.StrategyEngine.Models.{Candle, StrategyParameters}
use save_money_trading_bot.StrategyEngine.Indicators.{
  compute_ema, compute_wilder_atr, compute_volume_ratio, compute_high20,
}
use save_money_trading_bot.StrategyEngine.Indicators.Lengths.{
  length-map, compute_ema-Yields, compute_wilder_atr-Yields, compute_volume_ratio-Yields,
  compute_high20-Yields,
}
use save_money_trading_bot.StrategyEngine.Readings.{
  Request, Readings, item, item_before, read_indicators,
}

-- Every period is positive.
pub record PeriodsPositive (p : StrategyParameters) : Type 0 where
  pub monthly_ema : 0 < p.monthly_ema_period
  pub weekly_fast : 0 < p.weekly_ema_fast
  pub weekly_slow : 0 < p.weekly_ema_slow
  pub daily_ema : 0 < p.daily_ema_period
  pub lookback : 0 < p.breakout_lookback
  pub atr : 0 < p.atr_period
  pub volume_sma : 0 < p.volume_sma_period

item_in : {A : Type 0} (xs : List A) (i : ℕ) → i < length xs → (x : A) × (item xs i ≡ ok x)
item_in [] i h = ground arith
item_in (x ∷ xs) zero h = (x, refl)
item_in (x ∷ xs) (suc i) h = item_in xs i (omega arith)

item_before_in :
    {A : Type 0} (f : A → Option Decimal) (xs : List A) (i : ℕ)
    → i < length xs
    → (x : Option Decimal) × (item_before f xs i ≡ ok x)
item_before_in f xs zero h = (none, refl)
item_before_in f xs (suc i) h = let (x, e) = item_in xs i (omega arith) in (f x, rw e refl)

-- An indicator with a positive period, and its entry at the last place.
ema_at :
    (closes : List Decimal) (p i : ℕ)
    → 0 < p
    → i < length closes
    → (s : List (Option Decimal)) × (compute_ema closes p ≡ ok s)
      × (length s ≡ length closes)
      × ((x : Option Decimal) × (item s i ≡ ok x))
ema_at closes zero i h k = ground arith
ema_at closes (suc p) i h k =
    let (s, e, n) = compute_ema-Yields closes p in (s, e, n, item_in s i (omega arith))

atr_at :
    (cs : List Candle) (p i : ℕ)
    → 0 < p
    → i < length cs
    → (s : List (Option Decimal)) × (compute_wilder_atr cs p ≡ ok s)
      × ((x : Option Decimal) × (item s i ≡ ok x))
atr_at cs zero i h k = ground arith
atr_at cs (suc p) i h k =
    let (s, e, n) = compute_wilder_atr-Yields cs p in (s, e, item_in s i (omega arith))

ratio_at :
    (volumes : List Decimal) (p i : ℕ)
    → 0 < p
    → i < length volumes
    → (s : List (Option Decimal)) × (compute_volume_ratio volumes p ≡ ok s)
      × ((x : Option Decimal) × (item s i ≡ ok x))
ratio_at volumes zero i h k = ground arith
ratio_at volumes (suc p) i h k =
    let (s, e, n) = compute_volume_ratio-Yields volumes p in (s, e, item_in s i (omega arith))

high_at :
    (highs : List Decimal) (p i : ℕ)
    → 0 < p
    → i < length highs
    → (s : List (Option Decimal)) × (compute_high20 highs p ≡ ok s)
      × ((x : Option Decimal) × (item s i ≡ ok x))
high_at highs zero i h k = ground arith
high_at highs (suc p) i h k =
    let (s, e, n) = compute_high20-Yields highs p in (s, e, item_in s i (omega arith))

last_in :
    {A : Type 0} (f : Candle → A) (cs : List Candle) → cs ≢ [] → length cs - 1 < length (map f cs)
last_in f [] h = absurd (h refl)
last_in f (c ∷ cs) h = let n = length-map f cs in omega arith

last_candle_in : (cs : List Candle) → cs ≢ [] → length cs - 1 < length cs
last_candle_in [] h = absurd (h refl)
last_candle_in (c ∷ cs) h = omega arith

pub read_indicators_returns :
    (r : Request)
    → PeriodsPositive r.params
    → r.daily_series.candles ≢ []
    → r.weekly_series.candles ≢ []
    → r.monthly_series.candles ≢ []
    → (x : Readings) × (read_indicators r ≡ ok x)
unfolding read_indicators
read_indicators_returns r pos d w m =
    let closes = map (λ (c : Candle). c.close) r.daily_series.candles in
    let volumes = map (λ (c : Candle). c.volume) r.daily_series.candles in
    let highs = map (λ (c : Candle). c.high) r.daily_series.candles in
    let weekly = map (λ (c : Candle). c.close) r.weekly_series.candles in
    let monthly = map (λ (c : Candle). c.close) r.monthly_series.candles in
    let t = length r.daily_series.candles - 1 in
    let daily_in = last_in (λ (c : Candle). c.close) r.daily_series.candles d in
    let weekly_in = last_in (λ (c : Candle). c.close) r.weekly_series.candles w in
    let monthly_in = last_in (λ (c : Candle). c.close) r.monthly_series.candles m in
    let candle_in = last_candle_in r.daily_series.candles d in
    let (_, c_lem) = item_in r.daily_series.candles t candle_in in
    let (ema, e1, n1, (_, i1)) = ema_at closes r.params.daily_ema_period t pos.daily_ema daily_in in
    let (_, b1) = item_before_in (λ x. x) ema t (omega arith) in
    let (_, e2, (_, i2)) = atr_at r.daily_series.candles r.params.atr_period t pos.atr candle_in in
    let (_, e3, (_, i3)) =
      ratio_at volumes r.params.volume_sma_period t pos.volume_sma
        (last_in (λ (c : Candle). c.volume) r.daily_series.candles d) in
    let (_, e4, (_, i4)) =
      high_at highs r.params.breakout_lookback t pos.lookback
        (last_in (λ (c : Candle). c.high) r.daily_series.candles d) in
    let (_, e5, _, (_, i5)) = ema_at weekly r.params.weekly_ema_fast _ pos.weekly_fast weekly_in in
    let (_, e6, _, (_, i6)) = ema_at weekly r.params.weekly_ema_slow _ pos.weekly_slow weekly_in in
    let (_, e7, _, (_, i7)) =
      ema_at monthly r.params.monthly_ema_period _ pos.monthly_ema monthly_in in
    let (_, i8) = item_in monthly _ monthly_in in
    let (_, b2) = item_before_in some closes t daily_in in
    elim (Exc-cases (read_indicators r)) [
      | inl read ↦ read
      | inr (e, raises) ↦
          ground (
            arith, raises, c_lem, e1, e2, e3, e4, e5, e6, e7, i1, b1, i2, i3, i4, i5, i6, i7, i8,
            b2,
          )
    ]

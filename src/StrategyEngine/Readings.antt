-- ===== src/StrategyEngine/Readings.antt =====
-- services/strategy_engine/engine.py: what `StrategyEngine.evaluate` reads at the last candles.
pub mod Last
pub mod WarmUp
pub mod Returns
use save_money_trading_bot.Prelude.{
  ℕ, zero, suc, ◌-◌, Option, none, some, List, map, length, get_elem?, if◌then◌else◌,
}
use save_money_trading_bot.Decimal.{Decimal, Exc, ok, raised, index_error, ◌>>=◌, nonpos}
use save_money_trading_bot.StrategyEngine.Models.{
  Time, Candle, CandleSeries, StrategyParameters, IndicatorSnapshot,
}
use save_money_trading_bot.StrategyEngine.Indicators.{
  compute_ema, compute_wilder_atr, compute_volume_ratio, compute_high20,
}

-- The arguments of `evaluate`; `params` is `parameters or StrategyParameters()`.
pub record Request : Type 0 where
  pub daily_series : CandleSeries
  pub weekly_series : CandleSeries
  pub monthly_series : CandleSeries
  pub evaluation_time : Time
  pub params : StrategyParameters

-- `values[index]`
abbrev pub item {ℓ} : {A : Type ℓ} → List A → ℕ → Exc A
item xs i = elim (get_elem? xs i) [ some x ↦ ok x | none ↦ raised index_error ]

-- `values[t - 1] if t >= 1 else None`
abbrev pub item_before {ℓ} : {A : Type ℓ} → (A → Option Decimal) → List A → ℕ → Exc (Option Decimal)
item_before f xs zero = ok none
item_before f xs (suc t) = do x ← item xs t; ok (f x)

-- What the evaluation at the last daily candle reads.
pub record Readings : Type 0 where
  pub candle_t : Candle
  pub close_prev : Option Decimal
  pub ema20_daily_prev : Option Decimal
  pub indicators : IndicatorSnapshot

-- The indicators of the three series, read at their last candles.
unfoldable pub read_indicators : Request → Exc Readings
read_indicators r = do
  let closes = map (λ (c : Candle). c.close) r.daily_series.candles
  let weekly_closes = map (λ (c : Candle). c.close) r.weekly_series.candles
  let monthly_closes = map (λ (c : Candle). c.close) r.monthly_series.candles
  let t = length r.daily_series.candles - 1
  let w = length r.weekly_series.candles - 1
  let m = length r.monthly_series.candles - 1
  candle_t ← item r.daily_series.candles t
  ema_daily ← compute_ema closes r.params.daily_ema_period
  atr_series ← compute_wilder_atr r.daily_series.candles r.params.atr_period
  ratio_series ←
      compute_volume_ratio (map (λ (c : Candle). c.volume) r.daily_series.candles)
        r.params.volume_sma_period
  high_series ←
      compute_high20 (map (λ (c : Candle). c.high) r.daily_series.candles)
        r.params.breakout_lookback
  ema_fast ← compute_ema weekly_closes r.params.weekly_ema_fast
  ema_slow ← compute_ema weekly_closes r.params.weekly_ema_slow
  ema_monthly ← compute_ema monthly_closes r.params.monthly_ema_period
  ema20_daily ← item ema_daily t
  ema20_daily_prev ← item_before (λ x. x) ema_daily t
  atr14 ← item atr_series t
  volume_ratio ← item ratio_series t
  high20 ← item high_series t
  ema20_weekly ← item ema_fast w
  ema50_weekly ← item ema_slow w
  ema20_monthly ← item ema_monthly m
  monthly_close ← item monthly_closes m
  close_prev ← item_before some closes t
  ok (record {
    candle_t = candle_t;
    close_prev = close_prev;
    ema20_daily_prev = ema20_daily_prev;
    indicators = record {
      evaluation_index = some t;
      ema20_daily = ema20_daily;
      ema20_weekly = ema20_weekly;
      ema50_weekly = ema50_weekly;
      ema20_monthly = ema20_monthly;
      atr14_daily = atr14;
      volume_sma20 = none;
      volume_ratio = volume_ratio;
      high20 = high20;
      monthly_close = some monthly_close;
    };
  })

-- The indicators without which there is no decision.
pub record Values : Type 0 where
  pub ema20_daily : Decimal
  pub atr14 : Decimal
  pub volume_ratio : Decimal
  pub ema20_weekly : Decimal
  pub ema50_weekly : Decimal
  pub ema20_monthly : Decimal

-- All of them are defined, and the ATR is positive.
unfoldable pub values_of :
    (ema20_daily atr14 volume_ratio ema20_weekly ema50_weekly ema20_monthly : Option Decimal)
    → Option Values
values_of (some d) (some a) (some v) (some f) (some s) (some m) =
    if nonpos a
    then none
    else some (record {
      ema20_daily = d;
      atr14 = a;
      volume_ratio = v;
      ema20_weekly = f;
      ema50_weekly = s;
      ema20_monthly = m;
    })
values_of _ _ _ _ _ _ = none

abbrev pub values_in : IndicatorSnapshot → Option Values
values_in s =
    values_of s.ema20_daily s.atr14_daily s.volume_ratio s.ema20_weekly s.ema50_weekly
      s.ema20_monthly

-- ===== src/StrategyEngine/Engine/Setups.antt =====
-- What the setups of services/strategy_engine/entry.py ask for, behind `resolve_entry_priority`.
use save_money_trading_bot.Prelude.{◌≡◌, refl, Bool, true, Option, none, some, arith}
use save_money_trading_bot.Decimal.{Decimal, lt, le, add, mul, of_ℕ}
use save_money_trading_bot.StrategyEngine.Codes.{
  EntryType, breakout, pullback, ReasonCode, rc_entry_breakout_20d, rc_entry_pullback_ema20,
}
use save_money_trading_bot.StrategyEngine.Models.{RegimeResult, TrendResult}
use save_money_trading_bot.StrategyEngine.Filters.{
  evaluate_monthly_regime, evaluate_weekly_trend, evaluate_volume_ok, evaluate_breakout_setup,
  evaluate_pullback_setup, resolve_entry_priority, prior_above as is_prior_above,
}
use save_money_trading_bot.StrategyEngine.Readings.{Request, Readings, Values}
use save_money_trading_bot.StrategyEngine.Outcome.{assess}

-- The readings pass the filters that every entry needs.
pub record FiltersPass (r : Request) (x : Readings) (v : Values) : Type 0 where
  pub monthly_close : Decimal
  pub monthly_close_lem : x.indicators.monthly_close ≡ some monthly_close
  pub regime : lt v.ema20_monthly monthly_close ≡ true
  pub trend : lt v.ema50_weekly v.ema20_weekly ≡ true
  pub volume : le r.params.volume_ratio_min v.volume_ratio ≡ true
  pub above_ema : lt v.ema20_daily x.candle_t.close ≡ true

-- The close is above the high of the lookback.
pub record IsBreakout (x : Readings) : Type 0 where
  pub high : Decimal
  pub high_lem : x.indicators.high20 ≡ some high
  pub above_high : lt high x.candle_t.close ≡ true

-- The low came down to the EMA's tolerance, after a day that closed above its EMA.
pub record IsPullback (r : Request) (x : Readings) (v : Values) : Type 0 where
  pub touches :
      le x.candle_t.low (mul v.ema20_daily (add (of_ℕ 1) r.params.pullback_ema_tolerance)) ≡ true
  pub close_prev : Decimal
  pub close_prev_lem : x.close_prev ≡ some close_prev
  pub ema_prev : Decimal
  pub ema_prev_lem : x.ema20_daily_prev ≡ some ema_prev
  pub prior_above : lt ema_prev close_prev ≡ true

-- What a setup of each type asks for beside the filters.
abbrev pub SetupHolds : Request → Readings → Values → EntryType → Type 0
SetupHolds r x v breakout = IsBreakout x
SetupHolds r x v pullback = IsPullback r x v

regime_long_lem :
    (close : Option Decimal) (ema : Decimal)
    → (evaluate_monthly_regime close (some ema)).regime_long ≡ true
    → (c : Decimal) × (close ≡ some c) × (lt ema c ≡ true)
unfolding evaluate_monthly_regime
regime_long_lem none ema h = ground arith
regime_long_lem (some c) ema h = (c, refl, h)

breakout_entry_lem :
    (close : Decimal) (high : Option Decimal) (ema : Decimal) (regime : RegimeResult)
    (trend : TrendResult) (volume_ok : Bool)
    → (evaluate_breakout_setup close high (some ema) regime trend volume_ok).breakout_entry ≡ true
    → ((h : Decimal) × (high ≡ some h) × (lt h close ≡ true))
      × (lt ema close ≡ true)
      × (regime.regime_long ≡ true)
      × (trend.trend_confirmed ≡ true)
      × (volume_ok ≡ true)
unfolding evaluate_breakout_setup
breakout_entry_lem close none ema regime trend volume_ok e = ground arith
breakout_entry_lem close (some h) ema regime trend volume_ok e =
    ((h, refl, ground arith), ground arith, ground arith, ground arith, ground arith)

prior_above_lem :
    (close ema : Option Decimal)
    → is_prior_above close ema ≡ true
    → (c : Decimal) × (close ≡ some c) × ((m : Decimal) × (ema ≡ some m) × (lt m c ≡ true))
prior_above_lem (some c) (some m) h = (c, refl, (m, refl, h))
prior_above_lem (some c) none h = ground arith
prior_above_lem none m h = ground arith

pullback_entry_lem :
    (r : Request) (x : Readings) (v : Values) (regime : RegimeResult) (trend : TrendResult)
    (volume_ok : Bool)
    → (evaluate_pullback_setup x.candle_t.close x.candle_t.low x.close_prev
        (some v.ema20_daily)
        x.ema20_daily_prev
        regime
        trend
        volume_ok
        r.params).pullback_entry
      ≡ true
    → IsPullback r x v
      × (lt v.ema20_daily x.candle_t.close ≡ true)
      × (regime.regime_long ≡ true)
      × (trend.trend_confirmed ≡ true)
      × (volume_ok ≡ true)
unfolding evaluate_pullback_setup
pullback_entry_lem r x v regime trend volume_ok e =
    let (c, c_lem, (m, m_lem, above)) =
      prior_above_lem x.close_prev x.ema20_daily_prev (ground arith) in
    (
      record {
        touches = ground arith;
        close_prev = c;
        close_prev_lem = c_lem;
        ema_prev = m;
        ema_prev_lem = m_lem;
        prior_above = above;
      },
      ground arith,
      ground arith,
      ground arith,
      ground arith,
    )

-- A setup that stands passes the filters.
filters_pass :
    (r : Request) (x : Readings) (v : Values)
    → lt v.ema20_daily x.candle_t.close ≡ true
    → (assess r x v).regime.regime_long ≡ true
    → (assess r x v).trend.trend_confirmed ≡ true
    → (assess r x v).volume_ok ≡ true
    → FiltersPass r x v
unfolding assess evaluate_weekly_trend evaluate_volume_ok
filters_pass r x v above regime trend volume =
    let (c, c_lem, long) = regime_long_lem x.indicators.monthly_close v.ema20_monthly regime in
    record {
      monthly_close = c;
      monthly_close_lem = c_lem;
      regime = long;
      trend = trend;
      volume = volume;
      above_ema = above;
    }

-- The reason of each type of entry.
abbrev pub entry_code : EntryType → ReasonCode
entry_code breakout = rc_entry_breakout_20d
entry_code pullback = rc_entry_pullback_ema20

pub resolve_lem :
    (r : Request) (x : Readings) (v : Values) (t : EntryType) (code : ReasonCode)
    → resolve_entry_priority (assess r x v).by_breakout (assess r x v).by_pullback ≡ some (t, code)
    → SetupHolds r x v t × FiltersPass r x v × (code ≡ entry_code t)
unfolding assess resolve_entry_priority
resolve_lem r x v breakout code h =
    let ((high, high_lem, over), above, regime, trend, volume) =
      breakout_entry_lem x.candle_t.close x.indicators.high20 v.ema20_daily (assess r x v).regime
        (assess r x v).trend (assess r x v).volume_ok (ground arith) in
    (
      record { high = high; high_lem = high_lem; above_high = over },
      filters_pass r x v above regime trend volume,
      ground arith,
    )
resolve_lem r x v pullback code h =
    let (setup, above, regime, trend, volume) =
      pullback_entry_lem r x v (assess r x v).regime (assess r x v).trend (assess r x v).volume_ok
        (ground arith) in
    (setup, filters_pass r x v above regime trend volume, ground arith)

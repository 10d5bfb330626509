-- ===== src/StrategyEngine/Filters.antt =====
-- services/strategy_engine/regime.py, trend.py and entry.py: the filters and the entry setups.
use save_money_trading_bot.Prelude.{Bool, false, ◌&&◌, Option, none, some, if◌then◌else◌}
use save_money_trading_bot.Decimal.{Decimal, lt, le, add, mul, of_ℕ}
use save_money_trading_bot.StrategyEngine.Codes.{
  ReasonCode, rc_reject_warmup, rc_reject_regime, rc_reject_trend, rc_entry_breakout_20d,
  rc_entry_pullback_ema20, EntryType, breakout, pullback,
}
use save_money_trading_bot.StrategyEngine.Models.{
  RegimeResult, TrendResult, PullbackConditions, EntrySetupResult, StrategyParameters,
}

-- `evaluate_monthly_regime`
unfoldable pub evaluate_monthly_regime : Option Decimal → Option Decimal → RegimeResult
evaluate_monthly_regime (some monthly_close) (some ema20_monthly) =
    let regime_long = lt ema20_monthly monthly_close in
    record {
      regime_long = regime_long;
      monthly_close = some monthly_close;
      ema20_monthly = some ema20_monthly;
      reason_code = if regime_long then none else some rc_reject_regime;
    }
evaluate_monthly_regime monthly_close ema20_monthly = record {
  regime_long = false;
  monthly_close = monthly_close;
  ema20_monthly = ema20_monthly;
  reason_code = some rc_reject_warmup;
}

-- `evaluate_weekly_trend`
unfoldable pub evaluate_weekly_trend : Option Decimal → Option Decimal → TrendResult
evaluate_weekly_trend (some ema20_weekly) (some ema50_weekly) =
    let trend_confirmed = lt ema50_weekly ema20_weekly in
    record {
      trend_confirmed = trend_confirmed;
      ema20_weekly = some ema20_weekly;
      ema50_weekly = some ema50_weekly;
      reason_code = if trend_confirmed then none else some rc_reject_trend;
    }
evaluate_weekly_trend ema20_weekly ema50_weekly = record {
  trend_confirmed = false;
  ema20_weekly = ema20_weekly;
  ema50_weekly = ema50_weekly;
  reason_code = some rc_reject_warmup;
}

-- `evaluate_volume_ok`
unfoldable pub evaluate_volume_ok : Option Decimal → Decimal → Bool
evaluate_volume_ok none volume_ratio_min = false
evaluate_volume_ok (some volume_ratio) volume_ratio_min = le volume_ratio_min volume_ratio

-- `value is not None and close > value`
abbrev pub exceeds : Decimal → Option Decimal → Bool
exceeds close none = false
exceeds close (some value) = lt value close

abbrev pub no_conditions : PullbackConditions
no_conditions = record {
  p1_close_above_ema = false;
  p2_low_touches_ema = false;
  p3_prior_close_above_ema = false;
  p4_regime_long = false;
  p5_trend_confirmed = false;
  p6_volume_ok = false;
}

-- `EntrySetupResult()`
abbrev pub empty_setup : EntrySetupResult
empty_setup = record {
  breakout_entry = false;
  pullback_entry = false;
  breakout_price_condition = false;
  close_above_ema20 = false;
  volume_ok = false;
  pullback_conditions = no_conditions;
  high20 = none;
  ema_touch_upper = none;
}

-- `evaluate_breakout_setup`
unfoldable pub evaluate_breakout_setup :
    (close_t : Decimal) (high20 ema20_daily : Option Decimal) (regime : RegimeResult)
    (trend : TrendResult) (volume_ok : Bool)
    → EntrySetupResult
evaluate_breakout_setup close_t high20 ema20_daily regime trend volume_ok =
    let price_cond = exceeds close_t high20 in
    let above_ema = exceeds close_t ema20_daily in
    record empty_setup {
      breakout_entry =
          price_cond && (above_ema && (regime.regime_long && (trend.trend_confirmed && volume_ok)));
      breakout_price_condition = price_cond;
      close_above_ema20 = above_ema;
      volume_ok = volume_ok;
      high20 = high20;
    }

abbrev pub prior_above : Option Decimal → Option Decimal → Bool
prior_above (some close_prev) (some ema_prev) = lt ema_prev close_prev
prior_above _ _ = false

-- `evaluate_pullback_setup`, with the conditions P1 to P6.
unfoldable pub evaluate_pullback_setup :
    (close_t low_t : Decimal) (close_prev ema20_daily ema20_daily_prev : Option Decimal)
    (regime : RegimeResult) (trend : TrendResult) (volume_ok : Bool) (params : StrategyParameters)
    → EntrySetupResult
evaluate_pullback_setup close_t low_t close_prev none ema20_daily_prev regime trend volume_ok
      params =
    record empty_setup { volume_ok = volume_ok }
evaluate_pullback_setup close_t low_t close_prev (some ema20_daily) ema20_daily_prev regime trend
      volume_ok params =
    let ema_touch_upper = mul ema20_daily (add (of_ℕ 1) params.pullback_ema_tolerance) in
    let p1 = lt ema20_daily close_t in
    let p2 = le low_t ema_touch_upper in
    let p3 = prior_above close_prev ema20_daily_prev in
    record empty_setup {
      pullback_entry =
          p1 && (p2 && (p3 && (regime.regime_long && (trend.trend_confirmed && volume_ok))));
      close_above_ema20 = p1;
      volume_ok = volume_ok;
      ema_touch_upper = some ema_touch_upper;
      pullback_conditions = record {
        p1_close_above_ema = p1;
        p2_low_touches_ema = p2;
        p3_prior_close_above_ema = p3;
        p4_regime_long = regime.regime_long;
        p5_trend_confirmed = trend.trend_confirmed;
        p6_volume_ok = volume_ok;
      };
    }

-- `resolve_entry_priority`; the price and the stop that it also takes are not read.
unfoldable pub resolve_entry_priority :
    EntrySetupResult → EntrySetupResult → Option (EntryType × ReasonCode)
resolve_entry_priority by_breakout by_pullback =
    if by_breakout.breakout_entry
    then some (breakout, rc_entry_breakout_20d)
    else if by_pullback.pullback_entry
    then some (pullback, rc_entry_pullback_ema20)
    else none

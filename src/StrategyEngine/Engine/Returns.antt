-- ===== src/StrategyEngine/Engine/Returns.antt =====
-- `StrategyEngine.evaluate` raises nothing where every period is positive.
use save_money_trading_bot.Prelude.{◌≡◌, ◌≢◌, false, List, [], Option-cases, inl, inr, arith}
use save_money_trading_bot.Decimal.{ok, Exc-cases}
use save_money_trading_bot.StrategyEngine.Codes.{daily, weekly, monthly, Timeframe}
use save_money_trading_bot.StrategyEngine.Models.{
  Time, CandleSeries, StrategyEvaluation, StrategyError,
}
use save_money_trading_bot.StrategyEngine.Stops.{compute_initial_stop, on_tick}
use save_money_trading_bot.StrategyEngine.Validation.{validate_candle_series}
use save_money_trading_bot.StrategyEngine.Validation.Series.{validate_candle_series-SeriesAccepted}
use save_money_trading_bot.StrategyEngine.Readings.{Request, Readings, values_in}
use save_money_trading_bot.StrategyEngine.Readings.Returns.{
  PeriodsPositive, read_indicators_returns,
}
use save_money_trading_bot.StrategyEngine.Engine.{decide, is_invalid, quality_of, evaluate}

decide_returns :
    (r : Request) (x : Readings) (errors : List StrategyError)
    → (e : StrategyEvaluation) × (decide r x errors ≡ ok e)
unfolding decide compute_initial_stop on_tick
decide_returns r x errors = elim (Exc-cases (decide r x errors)) [
  | inl returns ↦ returns
  | inr (f, raises) ↦ elim (Option-cases (values_in x.indicators)) [
    | inl missing ↦ ground arith
    | inr (v, present) ↦ ground arith
  ]
]

present_lem :
    (s : CandleSeries) (now : Time) (timeframe : Timeframe)
    → is_invalid (validate_candle_series s now timeframe).0 ≡ false
    → s.candles ≢ []
present_lem s now timeframe h =
    (validate_candle_series-SeriesAccepted s now timeframe (λ e. ground (arith, e))).present

-- Where every period of the parameters is positive, evaluate returns an evaluation, whatever the three
-- series: neither an index nor a division nor an indicator raises.
pub evaluate_returns :
    (r : Request) → PeriodsPositive r.params → (e : StrategyEvaluation) × (evaluate r ≡ ok e)
unfolding evaluate quality_of
evaluate_returns r pos = elim (Exc-cases (evaluate r)) [
  | inl returns ↦ returns
  | inr (f, raises) ↦
      let (x, read) =
        read_indicators_returns r pos
          (present_lem r.daily_series r.evaluation_time daily (ground arith))
          (present_lem r.weekly_series r.evaluation_time weekly (ground arith))
          (present_lem r.monthly_series r.evaluation_time monthly (ground arith)) in
      let (_, decided) = decide_returns r x (quality_of r).errors in ground (arith, read, decided)
]

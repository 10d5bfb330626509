-- ===== src/StrategyEngine/Engine/Entry.antt =====
-- What an entry signal of `StrategyEngine.evaluate` stands for.
use save_money_trading_bot.Prelude.{
  ◌≡◌, refl, true, false, Option, none, some, List, [], ◌∷◌, arith, inl, inr, Option-cases,
  Bool-cases, length, ◌-◌,
}
use save_money_trading_bot.Decimal.{Decimal, ok, Exc-cases, lt, le, sub, mul}
use save_money_trading_bot.Decimal.Order.{lt_of_not_le}
use save_money_trading_bot.StrategyEngine.Codes.{
  Timeframe, daily, weekly, monthly, EntryType, is_long_entry, ReasonCode,
}
use save_money_trading_bot.StrategyEngine.Models.{
  Time, CandleSeries, StrategyEvaluation, StrategyError,
}
use save_money_trading_bot.StrategyEngine.Filters.{resolve_entry_priority}
use save_money_trading_bot.StrategyEngine.Stops.{compute_initial_stop, on_tick}
use save_money_trading_bot.StrategyEngine.Readings.{
  Request, Readings, Values, values_in, read_indicators, item,
}
use save_money_trading_bot.StrategyEngine.Outcome.{no_entry_evaluation, assess, entry_signal}
use save_money_trading_bot.StrategyEngine.Engine.{
  select_entry, missing_indicator, decide, is_invalid, quality_of, lacks_history, same_symbols,
  evaluate,
}
use save_money_trading_bot.StrategyEngine.Engine.Setups.{
  SetupHolds, FiltersPass, entry_code, resolve_lem,
}
use save_money_trading_bot.StrategyEngine.Validation.{validate_candle_series}
use save_money_trading_bot.StrategyEngine.Validation.Series.{
  SeriesAccepted, validate_candle_series-SeriesAccepted,
}
use save_money_trading_bot.StrategyEngine.Readings.Last.{read_indicators-last}
use save_money_trading_bot.StrategyEngine.Readings.WarmUp.{
  IsLongEnough, read_indicators-IsLongEnough,
}

-- The data that an entry rests on is of one symbol and valid, and the warm-up test lets it pass.
pub record DataAccepted (r : Request) : Type 0 where
  pub symbols : same_symbols r ≡ true
  pub daily_valid : SeriesAccepted r.daily_series r.evaluation_time daily
  pub weekly_valid : SeriesAccepted r.weekly_series r.evaluation_time weekly
  pub monthly_valid : SeriesAccepted r.monthly_series r.evaluation_time monthly
  pub history : lacks_history r (quality_of r) ≡ false

valid_lem :
    (s : CandleSeries) (now : Time) (timeframe : Timeframe)
    → is_invalid (validate_candle_series s now timeframe).0 ≡ false
    → SeriesAccepted s now timeframe
valid_lem s now timeframe h =
    validate_candle_series-SeriesAccepted s now timeframe (λ e. ground (arith, e))

-- The signal of an evaluation, from the readings and their values.
pub record SignalFrom (r : Request) (x : Readings) (v : Values) (e : StrategyEvaluation)
    : Type 0 where
  pub entry_type : EntryType
  pub selected : e.selected_entry_type ≡ some entry_type
  pub setup : SetupHolds r x v entry_type
  pub filters : FiltersPass r x v
  pub stop : Decimal
  pub stop_lem : stop ≡ sub x.candle_t.close (mul r.params.stop_initial_atr_mult v.atr14)
  pub stop_below : lt stop x.candle_t.close ≡ true
  pub signal :
      e.signal_intent ≡ entry_signal entry_type x.candle_t.close stop (entry_code entry_type)
  pub reasons : e.reason_codes ≡ entry_code entry_type ∷ []

pub record IsEntry (r : Request) (e : StrategyEvaluation) : Type 0 where
  pub data_accepted : DataAccepted r
  pub readings : Readings
  pub readings_lem : read_indicators r ≡ ok readings
  pub last_candle :
      item r.daily_series.candles (length r.daily_series.candles - 1) ≡ ok readings.candle_t
  pub values : Values
  pub values_lem : values_in readings.indicators ≡ some values
  pub long_enough : IsLongEnough r
  pub from : SignalFrom r readings values e

abbrev IsLong : StrategyEvaluation → Type 0
IsLong e = is_long_entry e.signal_intent.kind ≡ true

select_entry-SignalFrom :
    (r : Request) (x : Readings) (v : Values) (stop : Decimal) (errors : List StrategyError)
    (chosen : Option (EntryType × ReasonCode)) (e : StrategyEvaluation)
    → stop ≡ sub x.candle_t.close (mul r.params.stop_initial_atr_mult v.atr14)
    → resolve_entry_priority (assess r x v).by_breakout (assess r x v).by_pullback ≡ chosen
    → e ≡ select_entry r x v (assess r x v) stop errors chosen
    → IsLong e
    → SignalFrom r x v e
unfolding select_entry
select_entry-SignalFrom r x v stop errors none e p q h long = ground arith
select_entry-SignalFrom r x v stop errors (some (t, code)) e p q h long =
    elim (Bool-cases (le x.candle_t.close stop)) [
      | inl above ↦ ground arith
      | inr below ↦
          let (setup, filters, reason) = resolve_lem r x v t code q in
          record {
            entry_type = t;
            selected = ground arith;
            setup = setup;
            filters = filters;
            stop = stop;
            stop_lem = p;
            stop_below = lt_of_not_le x.candle_t.close stop below;
            signal = ground (arith, reason);
            reasons = ground (arith, reason);
          }
    ]

decide-SignalFrom :
    (r : Request) (x : Readings) (errors : List StrategyError) (e : StrategyEvaluation)
    → decide r x errors ≡ ok e
    → IsLong e
    → (v : Values) × (values_in x.indicators ≡ some v) × SignalFrom r x v e
unfolding decide missing_indicator no_entry_evaluation compute_initial_stop on_tick
decide-SignalFrom r x errors e h long = elim (Option-cases (values_in x.indicators)) [
  | inl missing ↦ ground arith
  | inr (v, present) ↦ (
    v,
    present,
    select_entry-SignalFrom r x v
        (sub x.candle_t.close (mul r.params.stop_initial_atr_mult v.atr14)) errors
        (resolve_entry_priority (assess r x v).by_breakout (assess r x v).by_pullback) e refl refl
        (ground arith) long,
  )
]

-- Where evaluate returns a long entry, the three series are of one symbol, each is accepted with its
-- timeframe, and the warm-up test does not find them lacking. The daily series has at least the candles
-- of its EMA period and one more than its ATR period, the weekly series those of both EMA periods, and
-- the monthly series those of its own. These averages, the ATR and the volume ratio are defined, and the
-- ATR is positive; the monthly close is above its EMA, the fast weekly EMA above the slow one, the volume
-- ratio at its minimum or more and the close above the daily EMA; the breakout or the pullback of the
-- signal's type holds; the entry is at the last close, and the stop is the ATR multiple below it and
-- lower than it.
pub evaluate-IsEntry :
    (r : Request) (e : StrategyEvaluation) → evaluate r ≡ ok e → IsLong e → IsEntry r e
unfolding evaluate quality_of no_entry_evaluation
evaluate-IsEntry r e h long = elim (Exc-cases (read_indicators r)) [
  | inr (f, raises) ↦ ground arith
  | inl (x, read) ↦
      let (v, present, signal) =
        decide-SignalFrom r x (quality_of r).errors e (ground arith) long in
      record {
        data_accepted = record {
          symbols = ground arith;
          daily_valid = valid_lem r.daily_series r.evaluation_time daily (ground arith);
          weekly_valid = valid_lem r.weekly_series r.evaluation_time weekly (ground arith);
          monthly_valid = valid_lem r.monthly_series r.evaluation_time monthly (ground arith);
          history = ground arith;
        };
        readings = x;
        readings_lem = read;
        last_candle = read_indicators-last r x read;
        values = v;
        values_lem = present;
        long_enough = read_indicators-IsLongEnough r x v read present;
        from = signal;
      }
]

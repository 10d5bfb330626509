-- ===== src/StrategyEngine/Validation/Series.antt =====
-- What a series that `validate_candle_series` does not refuse is like.
use save_money_trading_bot.Prelude.{
  ◌≡◌, ◌≢◌, sym, not, ◌≤◌, ◌<◌, refl, Bool, true, false, Option, none, some, List, [], ◌∷◌, ◌++◌,
  arith, inl, inr, List-cases, All, str_eq,
}
use mathlib.Core.Path.{subst}
use save_money_trading_bot.Decimal.{le, nonpos, negative, is_finite}
use save_money_trading_bot.Decimal.Order.{le_of_not_lt}
use save_money_trading_bot.StrategyEngine.Codes.{Timeframe, same_timeframe, data_invalid}
use save_money_trading_bot.StrategyEngine.Models.{Time, Candle, CandleSeries}
use save_money_trading_bot.StrategyEngine.Validation.{
  error_if, validate_ohlc, validate_levels, first_not_finite, candle_errors, series_errors,
  series_status, validate_candle_series, not_after,
}

-- The prices are positive, the high and the low bound the open and the close, and the volume is not
-- negative.
pub record IsSound (c : Candle) : Type 0 where
  pub finite : is_finite c.open_price ≡ true
  pub positive : nonpos c.low ≡ false
  pub open_high : le c.open_price c.high ≡ true
  pub close_high : le c.close c.high ≡ true
  pub open_low : le c.low c.open_price ≡ true
  pub close_low : le c.low c.close ≡ true
  pub volume : negative c.volume ≡ false

validate_ohlc-IsSound : (c : Candle) → validate_ohlc c ≡ none → IsSound c
unfolding validate_ohlc validate_levels first_not_finite
validate_ohlc-IsSound c h = record {
  finite = ground arith;
  positive = ground arith;
  open_high = le_of_not_lt _ _ (ground arith);
  close_high = le_of_not_lt _ _ (ground arith);
  open_low = le_of_not_lt _ _ (ground arith);
  close_low = le_of_not_lt _ _ (ground arith);
  volume = ground arith;
}

-- What the loop asks of a candle beside its place.
pub record CandleAccepted (s : CandleSeries) (now : Time) (c : Candle) : Type 0 where
  pub named : str_eq c.symbol s.symbol ≡ true
  pub framed : same_timeframe c.timeframe s.timeframe ≡ true
  pub closed : c.is_closed ≡ true
  pub past : c.close_time ≤ now
  pub sound : IsSound c

-- The open times rise strictly, from a bound if there is one.
abbrev pub Rising : Option Time → List Candle → Type 0
Rising prev [] = Unit
Rising none (c ∷ cs) = Rising (some c.open_time) cs
Rising (some t) (c ∷ cs) = (t < c.open_time) × Rising (some c.open_time) cs

append-nil : {A : Type 0} (xs ys : List A) → xs ++ ys ≡ [] → (xs ≡ []) × (ys ≡ [])
append-nil [] ys h = (refl, h)
append-nil (x ∷ xs) ys h = ground arith

error_if-nil : (b : Bool) (m : _) → error_if b m ≡ [] → b ≡ false
error_if-nil true m h = ground arith
error_if-nil false m h = refl

candle_lem :
    (s : CandleSeries) (now : Time) (times : List Time) (prev : Option Time) (c : Candle)
    → candle_errors s now times prev c ≡ []
    → CandleAccepted s now c × (not_after prev c.open_time ≡ false)
unfolding candle_errors
candle_lem s now times prev c h = (
  record {
    named = ground arith;
    framed = ground arith;
    closed = ground arith;
    past = ground arith;
    sound = validate_ohlc-IsSound c (ground arith);
  },
  ground arith,
)

series_lem :
    (s : CandleSeries) (now : Time) (times : List Time) (prev : Option Time) (cs : List Candle)
    → series_errors s now times prev cs ≡ []
    → All (CandleAccepted s now) cs × Rising prev cs
unfolding series_errors
series_lem s now times prev [] h = (tt, tt)
series_lem s now times none (c ∷ cs) h =
    let (head, rest) = append-nil (candle_errors s now times none c) _ h in
    let (accepted, _) = candle_lem s now times none c head in
    let (all, rising) = series_lem s now (c.open_time ∷ times) (some c.open_time) cs rest in
    ((accepted, all), rising)
series_lem s now times (some t) (c ∷ cs) h =
    let (head, rest) = append-nil (candle_errors s now times (some t) c) _ h in
    let (accepted, after) = candle_lem s now times (some t) c head in
    let (all, rising) = series_lem s now (c.open_time ∷ times) (some c.open_time) cs rest in
    ((accepted, all), (ground arith, rising))

-- A series of the timeframe asked for, with sound closed candles in order.
pub record SeriesAccepted (s : CandleSeries) (now : Time) (timeframe : Timeframe) : Type 0 where
  pub framed : same_timeframe s.timeframe timeframe ≡ true
  pub present : s.candles ≢ []
  pub each : All (CandleAccepted s now) s.candles
  pub in_order : Rising none s.candles

accepted_lem :
    (s : CandleSeries) (now : Time) (timeframe : Timeframe) (cs : List Candle)
    → s.candles ≡ cs
    → (validate_candle_series s now timeframe).0 ≢ data_invalid
    → SeriesAccepted s now timeframe
unfolding validate_candle_series series_status
accepted_lem s now timeframe [] p h = ground arith
accepted_lem s now timeframe (c ∷ cs) p h =
    let found = series_errors s now [] none (c ∷ cs) in
    let first = error_if (not (same_timeframe s.timeframe timeframe)) "Incorrect timeframe" in
    elim (List-cases (first ++ found)) [
      | inr (e, es, bad) ↦ ground arith
      | inl good ↦
          let (framed, rest) = append-nil first found good in
          let (each, in_order) = series_lem s now [] none (c ∷ cs) rest in
          record {
            framed = ground arith;
            present = ground arith;
            each = subst (All (CandleAccepted s now)) (sym p) each;
            in_order = subst (Rising none) (sym p) in_order;
          }
    ]

-- Where validate_candle_series does not call a series invalid, the series has the timeframe asked for
-- and is not empty; each candle is of its symbol and timeframe, closed, of a close time not after the
-- evaluation, with positive prices between its low and its high and a volume that is not negative; and
-- the open times rise strictly.
pub validate_candle_series-SeriesAccepted :
    (s : CandleSeries) (now : Time) (timeframe : Timeframe)
    → (validate_candle_series s now timeframe).0 ≢ data_invalid
    → SeriesAccepted s now timeframe
validate_candle_series-SeriesAccepted s now timeframe h =
    accepted_lem s now timeframe s.candles refl h

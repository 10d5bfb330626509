-- ===== src/MarketData/Validation/Structure.antt =====
-- A candle without a code.
use save_money_trading_bot.Prelude.{
  ◌<◌, ◌≡◌, ◌↔◌, refl, Bool, true, false, List, [], ◌∷◌, arith, inl, inr, ◌==◌, sym, ap, ◌∙◌, any,
}
use save_money_trading_bot.Decimal.{ok, Exc-cases, lt, nonpos, negative}
use save_money_trading_bot.Backtester.Keeps.{ok-injective}
use save_money_trading_bot.MarketData.Models.{
  btc, eth, sol, MarketSymbol, same_symbol, MarketDataReasonCode, NormalizedCandle,
}
use save_money_trading_bot.MarketData.Timeframes.{expected_close_time, is_valid_timeframe_duration}
use save_money_trading_bot.MarketData.Validation.{
  market_symbols, unique_from, level_codes, validate_candle_structure,
}

-- Positive prices between the low and the high, a volume that is not negative, and the close time of the
-- timeframe.
pub record IsWellFormed (c : NormalizedCandle) : Type 0 where
  pub open_positive : nonpos c.open_price ≡ false
  pub high_positive : nonpos c.high ≡ false
  pub low_positive : nonpos c.low ≡ false
  pub close_positive : nonpos c.close ≡ false
  pub volume : negative c.volume ≡ false
  pub open_high : lt c.high c.open_price ≡ false
  pub close_high : lt c.high c.close ≡ false
  pub low_open : lt c.open_price c.low ≡ false
  pub low_close : lt c.close c.low ≡ false
  pub low_high : lt c.high c.low ≡ false
  pub opens_first : c.open_time < c.close_time
  pub closes : expected_close_time c.open_time c.timeframe ≡ ok c.close_time

known : (s : MarketSymbol) → any (same_symbol s) market_symbols ≡ true
known btc = refl
known eth = refl
known sol = refl

-- The first code is kept.
pub unique-none : (codes : List MarketDataReasonCode) → (unique_from [] codes ≡ []) ↔ (codes ≡ [])
unfolding unique_from
unique-none [] = (λ h. h, λ h. h)
unique-none (c ∷ cs) = (λ h. ground (arith, h), λ h. ground (arith, h))

-- What the codes of the levels test.
record LevelsAccepted (c : NormalizedCandle) (duration_is_valid : Bool) : Type 0 where
  open_positive : nonpos c.open_price ≡ false
  high_positive : nonpos c.high ≡ false
  low_positive : nonpos c.low ≡ false
  close_positive : nonpos c.close ≡ false
  volume : negative c.volume ≡ false
  open_high : lt c.high c.open_price ≡ false
  close_high : lt c.high c.close ≡ false
  low_open : lt c.open_price c.low ≡ false
  low_close : lt c.close c.low ≡ false
  low_high : lt c.high c.low ≡ false
  opens_first : c.open_time < c.close_time
  valid : duration_is_valid ≡ true

level_codes-none : (c : NormalizedCandle) (d : Bool) → (level_codes c d ≡ []) ↔ LevelsAccepted c d
unfolding level_codes
level_codes-none c d = (
  (λ h. record {
    open_positive = ground (arith, h);
    high_positive = ground (arith, h);
    low_positive = ground (arith, h);
    close_positive = ground (arith, h);
    volume = ground (arith, h);
    open_high = ground (arith, h);
    close_high = ground (arith, h);
    low_open = ground (arith, h);
    low_close = ground (arith, h);
    low_high = ground (arith, h);
    opens_first = ground (arith, h);
    valid = ground (arith, h);
  }),
  (λ a. ground (
    arith, a.open_positive, a.high_positive, a.low_positive, a.close_positive, a.volume,
    a.open_high, a.close_high, a.low_open, a.low_close, a.low_high, a.opens_first, a.valid,
  )),
)

-- A candle has no code exactly where it is well formed: its prices are positive, between its low and its
-- high, its volume is not negative, and it closes when its timeframe says, after its open.
pub validate_candle_structure-none :
    (c : NormalizedCandle) → (validate_candle_structure c ≡ ok []) ↔ IsWellFormed c
unfolding validate_candle_structure is_valid_timeframe_duration
validate_candle_structure-none c = elim (Exc-cases (expected_close_time c.open_time c.timeframe)) [
  | inr (e, raises) ↦
      ((λ h. ground (arith, raises, h, known c.symbol)), (λ w. ground (arith, raises, w.closes)))
  | inl (close, closes) ↦
      let d = c.close_time == close in
      let levels = level_codes-none c d in
      let codes = unique-none (level_codes c d) in
      let computed : validate_candle_structure c ≡ ok (unique_from [] (level_codes c d)) =
        ground (arith, closes, known c.symbol) in
      (
        (λ h.
            let a = levels.0 (codes.0 (ok-injective (sym computed ∙ h))) in
            record {
              open_positive = a.open_positive;
              high_positive = a.high_positive;
              low_positive = a.low_positive;
              close_positive = a.close_positive;
              volume = a.volume;
              open_high = a.open_high;
              close_high = a.close_high;
              low_open = a.low_open;
              low_close = a.low_close;
              low_high = a.low_high;
              opens_first = a.opens_first;
              closes = closes ∙ ap ok (ground (arith, a.valid));
            }),
        (λ w.
            let same : close ≡ c.close_time = ok-injective (sym closes ∙ w.closes) in
            let a : LevelsAccepted c d = record {
              open_positive = w.open_positive;
              high_positive = w.high_positive;
              low_positive = w.low_positive;
              close_positive = w.close_positive;
              volume = w.volume;
              open_high = w.open_high;
              close_high = w.close_high;
              low_open = w.low_open;
              low_close = w.low_close;
              low_high = w.low_high;
              opens_first = w.opens_first;
              valid = ground (arith, same);
            } in
            computed ∙ ap ok (codes.1 (levels.1 a))),
      )
]

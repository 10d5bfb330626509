-- ===== src/MarketData/Merge/Natives.antt =====
-- services/market_data/merge_policy.py: which native candle stands for its open time.
use save_money_trading_bot.Prelude.{
  ◌≡◌, refl, ap, ◌∙◌, true, some, List, [], ◌∷◌, ◌++◌, All, ◌==◌, arith, false, if◌then◌else◌, inl,
  inr, Bool-cases,
}
use save_money_trading_bot.StrategyEngine.Models.{Time}
use save_money_trading_bot.MarketData.Models.{MarketSymbol, MarketTimeframe, NormalizedCandle}
use save_money_trading_bot.MarketData.Validation.{is_for, candle_opening}
use save_money_trading_bot.MarketData.Merge.{put_candle, native_from}

-- Natives: the candle of one open time that is put last is the one that is read.
module _ (t : Time) where
  opening-put :
      (c : NormalizedCandle) (ds : List NormalizedCandle)
      → (c.open_time == t) ≡ true
      → candle_opening t (put_candle c ds) ≡ some c
  unfolding candle_opening put_candle
  opening-put c [] here = ground arith
  opening-put c (d ∷ ds) here = elim (Bool-cases (d.open_time == c.open_time)) [
    | inl same ↦ ground arith
    | inr differ ↦ ground (arith, opening-put c ds here)
  ]

  opening-put_other :
      (c : NormalizedCandle) (ds : List NormalizedCandle)
      → (c.open_time == t) ≡ false
      → candle_opening t (put_candle c ds) ≡ candle_opening t ds
  unfolding candle_opening put_candle
  opening-put_other c [] other = ground arith
  opening-put_other c (d ∷ ds) other = elim (Bool-cases (d.open_time == c.open_time)) [
    | inl same ↦ ground arith
    | inr differ ↦ ground (arith, opening-put_other c ds other)
  ]

  module _ (symbol : MarketSymbol) (timeframe : MarketTimeframe) where
    -- No candle of the symbol and the timeframe in the list opens at the time.
    abbrev NoneOpens : List NormalizedCandle → Type 0
    NoneOpens = All (λ d. is_for symbol timeframe d ≡ true → (d.open_time == t) ≡ false)

    opening-later :
        (by_open later : List NormalizedCandle)
        → NoneOpens later
        → candle_opening t (native_from symbol timeframe by_open later) ≡ candle_opening t by_open
    unfolding native_from
    opening-later by_open [] h = refl
    opening-later by_open (d ∷ later) h = elim (Bool-cases (is_for symbol timeframe d)) [
      | inl ours ↦
          rw ours (opening-later (put_candle d by_open) later h.1)
          ∙ opening-put_other d by_open (h.0 ours)
      | inr other ↦ rw other (opening-later by_open later h.1)
    ]

    pub opening-native :
        (by_open earlier later : List NormalizedCandle) (c : NormalizedCandle)
        → is_for symbol timeframe c ≡ true
        → (c.open_time == t) ≡ true
        → NoneOpens later
        → candle_opening t (native_from symbol timeframe by_open (earlier ++ c ∷ later)) ≡ some c
    unfolding native_from
    opening-native by_open [] later c ours here none_later =
        ap
          (λ b.
            candle_opening t
              (native_from symbol timeframe (if b then put_candle c by_open else by_open) later))
          ours
        ∙ opening-later (put_candle c by_open) later none_later
        ∙ opening-put c by_open here
    opening-native by_open (e ∷ earlier) later c ours here none_later =
        opening-native (if is_for symbol timeframe e then put_candle e by_open else by_open) earlier
          later c ours here none_later

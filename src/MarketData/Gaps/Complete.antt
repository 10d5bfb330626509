-- ===== src/MarketData/Gaps/Complete.antt =====
-- On a series of daily candles every day is a candle's or a gap's.
use save_money_trading_bot.Prelude.{
  ℕ, zero, suc, ◌+◌, ◌/◌, ◌%◌, ◌≤◌, ◌<◌, ◌≡◌, refl, ap, ◌∙◌, Bool, true, ◌||◌, List, [], ◌∷◌, ◌++◌,
  All, any, leb, ltb, ◌==◌, arith, inl, inr, Bool-cases, List-cases,
}
use mathlib.Core.Path.{subst}
use save_money_trading_bot.Decimal.{ok}
use save_money_trading_bot.StrategyEngine.Models.{Time}
use save_money_trading_bot.MarketData.Models.{
  MarketSymbol, market_daily, NormalizedCandle, CandleGap,
}
use save_money_trading_bot.MarketData.Timeframes.{
  day, daily_close, expected_close_time, next_open_time,
}
use save_money_trading_bot.MarketData.Validation.{sort_candles}
use save_money_trading_bot.MarketData.Validation.Sorting.{
  any-sort, sort-All, InOrder, sort-InOrder, first_opens_by,
}
use save_money_trading_bot.MarketData.Gaps.{
  rounds_to, gap_at, gaps_until, gaps_after, gaps_of, detect_gaps,
}

-- The time is a gap's.
abbrev pub is_missing : Time → List CandleGap → Bool
is_missing t = any (λ (g : CandleGap). g.missing_open_time == t)

-- The time is a candle's open.
abbrev pub is_present : Time → List NormalizedCandle → Bool
is_present t = any (λ (c : NormalizedCandle). c.open_time == t)

-- The start of a day.
abbrev pub IsDay : Time → Type 0
IsDay t = t % day ≡ 0

next_day : (s t : Time) → IsDay s → IsDay t → s < t → s + day ≤ t
next_day s t hs ht h = omega arith

any-append :
    (t : Time) (gs hs : List CandleGap)
    → is_missing t (gs ++ hs) ≡ (is_missing t gs || is_missing t hs)
any-append t [] hs = refl
any-append t (g ∷ gs) hs = ground (arith, any-append t gs hs)

closes_later : (s t : Time) → IsDay s → IsDay t → s ≤ t → daily_close s ≤ daily_close t
unfolding daily_close
closes_later s t hs ht h = omega arith

module _ (symbol : MarketSymbol) where
  gaps_until-daily :
      (fuel : ℕ) (next_open cursor : Time)
      → IsDay cursor
      → next_open / day + 2 ≤ cursor / day + fuel
      → 0 < fuel
      → (gs : List CandleGap) × (gaps_until symbol market_daily fuel next_open cursor ≡ ok gs)
        × ((t : Time) → IsDay t → cursor ≤ t → t < next_open → is_missing t gs ≡ true)
  unfolding gaps_until expected_close_time next_open_time
  gaps_until-daily zero next_open cursor hc enough some_fuel = ground arith
  gaps_until-daily (suc fuel) next_open cursor hc enough some_fuel =
      elim (Bool-cases (ltb cursor next_open)) [
        | inr done ↦ ([], ground (arith, done), λ t ht from to. ground (arith, done))
        | inl before ↦
            let below : cursor < next_open = ground (arith, before) in
            let (gs, returns, covers) =
              gaps_until-daily fuel next_open (cursor + day) (omega arith) (omega (arith, below))
                (omega (arith, below)) in
            (
              gap_at symbol market_daily cursor (daily_close cursor) ∷ gs,
              ground (arith, before, returns),
              λ t ht from to. elim (Bool-cases (cursor == t)) [
                | inl here ↦ ground (arith, here)
                | inr other ↦
                    ground (
                      arith,
                      covers t ht (next_day cursor t hc ht (ground (arith, other, from))) to,
                    )
              ],
            )
      ]

  gaps_after-daily :
      (fuel : ℕ) (evaluation_time cursor : Time)
      → IsDay cursor
      → evaluation_time / day + 2 ≤ cursor / day + fuel
      → 0 < fuel
      → (gs : List CandleGap) × (gaps_after symbol market_daily fuel evaluation_time cursor ≡ ok gs)
        × ((t : Time)
            → IsDay t
            → cursor ≤ t
            → daily_close t ≤ evaluation_time
            → is_missing t gs ≡ true)
  unfolding gaps_after expected_close_time next_open_time daily_close
  gaps_after-daily zero evaluation_time cursor hc enough some_fuel = ground arith
  gaps_after-daily (suc fuel) evaluation_time cursor hc enough some_fuel =
      elim (Bool-cases (leb (daily_close cursor) evaluation_time)) [
        | inr done ↦ (
          [],
          ground (arith, done),
          λ t ht from to. ground (arith, done, closes_later cursor t hc ht from),
        )
        | inl before ↦
            let below : daily_close cursor ≤ evaluation_time = ground (arith, before) in
            let (gs, returns, covers) =
              gaps_after-daily fuel evaluation_time (cursor + day) (omega arith)
                (omega (arith, below)) (omega (arith, below)) in
            (
              gap_at symbol market_daily cursor (daily_close cursor) ∷ gs,
              ground (arith, before, returns),
              λ t ht from to. elim (Bool-cases (cursor == t)) [
                | inl here ↦ ground (arith, here)
                | inr other ↦
                    ground (
                      arith,
                      covers t ht (next_day cursor t hc ht (ground (arith, other, from))) to,
                    )
              ],
            )
      ]

  gaps_of-daily :
      (evaluation_time : Time) (c : NormalizedCandle) (cs : List NormalizedCandle)
      → All (λ (d : NormalizedCandle). IsDay d.open_time) (c ∷ cs)
      → (gs : List CandleGap) × (gaps_of symbol market_daily evaluation_time (c ∷ cs) ≡ ok gs)
        × ((t : Time)
            → IsDay t
            → c.open_time ≤ t
            → daily_close t ≤ evaluation_time
            → (is_present t (c ∷ cs) || is_missing t gs) ≡ true)
  unfolding gaps_of next_open_time
  gaps_of-daily evaluation_time c [] days =
      let (gs, returns, covers) =
        gaps_after-daily (rounds_to evaluation_time) evaluation_time (c.open_time + day)
          (omega (arith, days.0)) (omega arith) (omega arith) in
      (
        gs,
        returns,
        λ t ht from to. elim (Bool-cases (c.open_time == t)) [
          | inl here ↦ ground (arith, here)
          | inr other ↦ ground (
            arith,
            covers t ht (next_day c.open_time t days.0 ht (ground (arith, other, from))) to,
          )
        ],
      )
  gaps_of-daily evaluation_time c (d ∷ cs) days =
      let (here, returns, covers) =
        gaps_until-daily (rounds_to d.open_time) d.open_time (c.open_time + day)
          (omega (arith, days.0)) (omega arith) (omega arith) in
      let (rest, rest_returns, rest_covers) = gaps_of-daily evaluation_time d cs days.1 in
      (
        here ++ rest,
        ground (arith, returns, rest_returns),
        λ t ht from to. elim (Bool-cases (c.open_time == t)) [
          | inl first ↦ ground (arith, first)
          | inr other ↦ elim (Bool-cases (ltb t d.open_time)) [
            | inl before ↦ ground (
              arith,
              any-append t here rest,
              covers t ht (next_day c.open_time t days.0 ht (ground (arith, other, from)))
                  (ground (arith, before)),
            )
            | inr after ↦
                ground (arith, any-append t here rest, rest_covers t ht (ground (arith, after)) to)
          ]
        ],
      )

-- On daily candles that open at midnight the search for gaps ends, and it is complete: every day from the
-- first candle on that has closed by the evaluation is the open of a candle, or a gap that is reported.
pub detect_gaps_complete :
    (candles : List NormalizedCandle) (symbol : MarketSymbol) (evaluation_time : Time)
    → All (λ (d : NormalizedCandle). IsDay d.open_time) candles
    → (gs : List CandleGap) × (detect_gaps candles symbol market_daily evaluation_time ≡ ok gs)
      × ((t : Time)
          → IsDay t
          → any (λ (d : NormalizedCandle). leb d.open_time t) candles ≡ true
          → daily_close t ≤ evaluation_time
          → (is_present t candles || is_missing t gs) ≡ true)
unfolding detect_gaps gaps_of
detect_gaps_complete candles symbol evaluation_time days =
    let sorted = sort_candles candles in
    let sorted_days = sort-All (λ (d : NormalizedCandle). IsDay d.open_time) candles days in
    let order = sort-InOrder candles in
    elim (List-cases sorted) [
      | inl empty ↦ (
        [],
        ground (arith, empty),
        λ t ht from to.
            ground
              (arith, any-sort (λ (d : NormalizedCandle). leb d.open_time t) candles, empty, from),
      )
      | inr (c, cs, full) ↦
          let (gs, returns, covers) =
            gaps_of-daily symbol evaluation_time c cs
              (subst (All (λ (d : NormalizedCandle). IsDay d.open_time)) full sorted_days) in
          (
            gs,
            ap (gaps_of symbol market_daily evaluation_time) full ∙ returns,
            λ t ht from to.
                let by = any-sort (λ (d : NormalizedCandle). leb d.open_time t) candles ∙ from in
                let first = first_opens_by t c cs (subst InOrder full order) (
                  subst (λ l. any (λ (d : NormalizedCandle). leb d.open_time t) l ≡ true) full
                    by) in
                let present = any-sort (λ (d : NormalizedCandle). d.open_time == t) candles in
                let same = ap (is_present t) full in
                ground (arith, covers t ht first to, present, same),
          )
    ]

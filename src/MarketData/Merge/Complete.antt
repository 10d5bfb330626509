-- ===== src/MarketData/Merge/Complete.antt =====
-- What a merge keeps of either source.
use save_money_trading_bot.Prelude.{
  ◌≡◌, refl, ap, ◌∙◌, Bool, true, ◌||◌, some, List, [], ◌∷◌, ◌++◌, All, any, ◌==◌, arith, false,
  inl, inr, Option-cases, Bool-cases,
}
use mathlib.Core.Path.{subst}
use save_money_trading_bot.Decimal.{Decimal, eq}
use save_money_trading_bot.Decimal.Order.{le_refl}
use save_money_trading_bot.StrategyEngine.Models.{Time}
use save_money_trading_bot.MarketData.Models.{
  MarketSymbol, btc, eth, sol, same_symbol, MarketTimeframe, market_daily, market_weekly,
  market_monthly, same_market_timeframe, NormalizedCandle, CandleConflict,
}
use save_money_trading_bot.MarketData.Validation.{
  candles_equal, is_for, candle_opening, conflict_of,
}
use save_money_trading_bot.MarketData.Validation.Sorting.{any-sort}
use save_money_trading_bot.MarketData.Merge.{native_from, merge_from, merge_native_and_aggregated}
use save_money_trading_bot.MarketData.Merge.Natives.{opening-native}

eq_refl : (a : Decimal) → eq a a ≡ true
unfolding eq
eq_refl a = ground (arith, le_refl a)

same_symbol_refl : (s : MarketSymbol) → same_symbol s s ≡ true
same_symbol_refl btc = refl
same_symbol_refl eth = refl
same_symbol_refl sol = refl

same_timeframe_refl : (t : MarketTimeframe) → same_market_timeframe t t ≡ true
same_timeframe_refl market_daily = refl
same_timeframe_refl market_weekly = refl
same_timeframe_refl market_monthly = refl

candles_equal_refl : (c : NormalizedCandle) → candles_equal c c ≡ true
unfolding candles_equal
candles_equal_refl c = ground (
  arith,
  same_symbol_refl c.symbol,
  same_timeframe_refl c.timeframe,
  eq_refl c.open_price,
  eq_refl c.high,
  eq_refl c.low,
  eq_refl c.close,
  eq_refl c.volume,
)

module _ (p : NormalizedCandle → Bool) where
  any-opening :
      (t : Time) (cs : List NormalizedCandle) (c : NormalizedCandle)
      → candle_opening t cs ≡ some c
      → p c ≡ true
      → any p cs ≡ true
  unfolding candle_opening
  any-opening t [] c found holds = ground (arith, found)
  any-opening t (d ∷ ds) c found holds = elim (Bool-cases (d.open_time == t)) [
    | inl here ↦ let same : d ≡ c = ground (arith, found, here) in ground (arith, ap p same, holds)
    | inr other ↦ ground (arith, any-opening t ds c (ground (arith, found, other)) holds)
  ]

  any-end :
      (cs : List NormalizedCandle) (c : NormalizedCandle) → any p (cs ++ c ∷ []) ≡ (any p cs || p c)
  any-end [] c = ground arith
  any-end (d ∷ ds) c = ground (arith, any-end ds c)

  -- The loop only adds to the series.
  any-merge :
      (symbol : MarketSymbol) (timeframe : MarketTimeframe) (by_open later : List NormalizedCandle)
      → any p by_open ≡ true
      → any p (merge_from symbol timeframe by_open later).0 ≡ true
  unfolding merge_from
  any-merge symbol timeframe by_open [] h = h
  any-merge symbol timeframe by_open (a ∷ later) h =
      let rest = any-merge symbol timeframe by_open later h in
      let added =
        any-merge symbol timeframe (by_open ++ a ∷ []) later
          (ground (arith, any-end by_open a, h)) in
      elim (Bool-cases (is_for symbol timeframe a)) [
        | inr other ↦ rw (merge_from, other) rest
        | inl ours ↦ elim (Option-cases (candle_opening a.open_time by_open)) [
          | inl absent ↦ rw (merge_from, ours, absent) added
          | inr (e, found) ↦ elim (Bool-cases (candles_equal e a)) [
            | inl same ↦ rw (merge_from, ours, found, same) rest
            | inr differ ↦ rw (merge_from, ours, found, differ) rest
          ]
        ]
      ]

-- The candle is in the series, or in a conflict.
abbrev pub IsAccounted : List NormalizedCandle × List CandleConflict → NormalizedCandle → Type 0
IsAccounted merged a =
    (any (λ c. candles_equal c a) merged.0
      || any (λ (k : CandleConflict). candles_equal k.incoming a) merged.1)
    ≡ true

-- A conflict in front accounts for what was accounted for.
IsAccounted-rest :
    (symbol : MarketSymbol) (timeframe : MarketTimeframe) (by_open later bs : List NormalizedCandle)
    (k : CandleConflict)
    → All
        (λ b.
          is_for symbol timeframe b ≡ true
          → IsAccounted (merge_from symbol timeframe by_open later) b)
        bs
    → All
        (λ b.
          is_for symbol timeframe b ≡ true
          → IsAccounted
              (
                (merge_from symbol timeframe by_open later).0,
                k ∷ (merge_from symbol timeframe by_open later).1,
              )
              b)
        bs
IsAccounted-rest symbol timeframe by_open later [] k h = tt
IsAccounted-rest symbol timeframe by_open later (b ∷ bs) k h =
    (λ ours. ground (arith, h.0 ours), IsAccounted-rest symbol timeframe by_open later bs k h.1)

-- Every aggregated candle of the symbol and the timeframe is accounted for.
abbrev AllAccounted :
    MarketSymbol
    → MarketTimeframe
    → List NormalizedCandle
    → List NormalizedCandle × List CandleConflict
    → Type 0
AllAccounted symbol timeframe aggregated merged =
    All (λ a. is_for symbol timeframe a ≡ true → IsAccounted merged a) aggregated

merge-accounts :
    (symbol : MarketSymbol) (timeframe : MarketTimeframe)
    (by_open aggregated : List NormalizedCandle)
    → AllAccounted symbol timeframe aggregated (merge_from symbol timeframe by_open aggregated)
unfolding merge_from
merge-accounts symbol timeframe by_open [] = tt
merge-accounts symbol timeframe by_open (a ∷ later) =
    let kept = merge_from symbol timeframe by_open later in
    let added = merge_from symbol timeframe (by_open ++ a ∷ []) later in
    let whole = merge_from symbol timeframe by_open (a ∷ later) in
    let like = (λ (c : NormalizedCandle). candles_equal c a) in
    let itself = candles_equal_refl a in
    let rest = merge-accounts symbol timeframe by_open later in
    let accounted = AllAccounted symbol timeframe (a ∷ later) in
    elim (Bool-cases (is_for symbol timeframe a)) [
      | inr other ↦
          let result : kept ≡ whole = rw (merge_from, other) refl in
          subst accounted result (λ ours. ground (arith, other, ours), rest)
      | inl ours ↦ elim (Option-cases (candle_opening a.open_time by_open)) [
        | inl absent ↦
            let result : added ≡ whole = rw (merge_from, ours, absent) refl in
            let here =
              any-merge like symbol timeframe (by_open ++ a ∷ []) later
                (ground (arith, any-end like by_open a, itself)) in
            subst accounted result
              (λ _. ground (arith, here), merge-accounts symbol timeframe (by_open ++ a ∷ []) later)
        | inr (e, found) ↦ elim (Bool-cases (candles_equal e a)) [
          | inl same ↦
              let result : kept ≡ whole = rw (merge_from, ours, found, same) refl in
              let here =
                any-merge like symbol timeframe by_open later
                  (any-opening like a.open_time by_open e found same) in
              subst accounted result (λ _. ground (arith, here), rest)
          | inr differ ↦
              let conflict = conflict_of symbol timeframe e a in
              let result : (kept.0, conflict ∷ kept.1) ≡ whole =
                rw (merge_from, ours, found, differ) refl in
              subst accounted result (
                λ _. ground (arith, itself),
                IsAccounted-rest symbol timeframe by_open later later conflict rest,
              )
        ]
      ]
    ]

-- A native candle of the symbol and the timeframe that no later native one of the same open time
-- replaces has an equal candle in the merged series; and every aggregated candle of the symbol and the
-- timeframe is equal to one of the series, or reported in a conflict.
pub merge_native_and_aggregated-accounts :
    (native aggregated : List NormalizedCandle) (symbol : MarketSymbol)
    (timeframe : MarketTimeframe)
    → ((earlier later : List NormalizedCandle) (c : NormalizedCandle)
        → native ≡ earlier ++ c ∷ later
        → is_for symbol timeframe c ≡ true
        → All (λ d. is_for symbol timeframe d ≡ true → (d.open_time == c.open_time) ≡ false) later
        → any
            (λ m. candles_equal m c)
            (merge_native_and_aggregated native aggregated symbol timeframe).0
          ≡ true)
      × All
          (λ a.
            is_for symbol timeframe a ≡ true
            → IsAccounted (merge_native_and_aggregated native aggregated symbol timeframe) a)
          aggregated
unfolding merge_native_and_aggregated
merge_native_and_aggregated-accounts native aggregated symbol timeframe =
    let by_open = native_from symbol timeframe [] native in
    let merged = merge_from symbol timeframe by_open aggregated in
    (
      (λ earlier later c split ours none_later.
          let like = (λ (m : NormalizedCandle). candles_equal m c) in
          let found : candle_opening c.open_time by_open ≡ some c =
            ap (λ ns. candle_opening c.open_time (native_from symbol timeframe [] ns)) split
            ∙ opening-native c.open_time symbol timeframe [] earlier later c ours (ground arith)
                none_later in
          any-sort like merged.0
          ∙ any-merge like symbol timeframe by_open aggregated
              (any-opening like c.open_time by_open c found (candles_equal_refl c))),
      sorted_accounts aggregated (merge-accounts symbol timeframe by_open aggregated),
    )
  where
    sorted_accounts :
        (bs : List NormalizedCandle)
        → AllAccounted symbol timeframe bs
            (merge_from symbol timeframe (native_from symbol timeframe [] native) aggregated)
        → AllAccounted symbol timeframe bs
            (merge_native_and_aggregated native aggregated symbol timeframe)
    sorted_accounts [] h = tt
    sorted_accounts (b ∷ bs) h = (
      λ ours. ground (
        arith,
        h.0 ours,
        any-sort (λ c. candles_equal c b)
            (merge_from symbol timeframe (native_from symbol timeframe [] native) aggregated).0,
      ),
      sorted_accounts bs h.1,
    )

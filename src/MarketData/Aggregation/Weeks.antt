-- ===== src/MarketData/Aggregation/Weeks.antt =====
-- The weeks that are made of days.
use save_money_trading_bot.Prelude.{
  ℕ, zero, suc, ◌+◌, ◌*◌, ◌/◌, ◌≤◌, ◌<◌, ◌≡◌, refl, sym, ap, Bool, true, ◌&&◌, ◌||◌, some, List, [],
  ◌∷◌, All, any, leb, ◌==◌, arith, inl, inr, Bool-cases, List-cases, Option-cases,
}
use mathlib.Core.Path.{subst}
use save_money_trading_bot.Decimal.{ok}
use save_money_trading_bot.StrategyEngine.Models.{Time}
use save_money_trading_bot.MarketData.Models.{
  MarketSymbol, same_symbol, market_weekly, NormalizedCandle,
}
use save_money_trading_bot.MarketData.Timeframes.{
  day, second, weekday, daily_open, weekly_open_containing, weekly_close, is_candle_closed,
}
use save_money_trading_bot.MarketData.Validation.{sort_candles}
use save_money_trading_bot.MarketData.Validation.Sorting.{sort-All}
use save_money_trading_bot.MarketData.Aggregation.{
  candles_where, has_time, all_in, same_times, bucket_candle, members_of, days_present,
  aggregate_bucket, day_range, weeks_from, last_candle, dailies_of, aggregate_weekly_from_daily,
}

-- Some candle opens within the day.
abbrev pub has_day : Time → List NormalizedCandle → Bool
has_day t = any (λ (d : NormalizedCandle). daily_open d.open_time == t)

-- A week that is over by the evaluation, of seven days of which every one has a candle.
pub record IsWholeWeek (dailies : List NormalizedCandle) (evaluation_time : Time)
    (w : NormalizedCandle) : Type 0 where
  pub monday : weekday w.open_time ≡ 0
  pub closes : w.close_time ≡ w.open_time + 6 * day + 86399 * second
  pub over : w.close_time ≤ evaluation_time
  pub days : All (λ t. has_day t dailies ≡ true) (day_range w.open_time 7)

some-injective : {a b : NormalizedCandle} → some a ≡ some b → a ≡ b
some-injective h = cc

has_day-map : (t : Time) (cs : List NormalizedCandle) → has_time t (days_present cs) ≡ has_day t cs
has_day-map t [] = refl
has_day-map t (c ∷ cs) = ap (λ b. daily_open c.open_time == t || b) (has_day-map t cs)

where-All :
    (P : NormalizedCandle → Type 0) (test : NormalizedCandle → Bool) (cs : List NormalizedCandle)
    → All P cs
    → All P (candles_where test cs)
unfolding candles_where
where-All P test [] h = tt
where-All P test (c ∷ cs) h = elim (Bool-cases (test c)) [
  | inl kept ↦ rw kept (h.0, where-All P test cs h.1)
  | inr dropped ↦ rw dropped (where-All P test cs h.1)
]

has_day-where :
    (t : Time) (test : NormalizedCandle → Bool) (cs : List NormalizedCandle)
    → has_day t (candles_where test cs) ≡ true
    → has_day t cs ≡ true
unfolding candles_where
has_day-where t test [] h = h
has_day-where t test (c ∷ cs) h = ground (arith, has_day-where t test cs, h)

all_in-All : (ss ts : List Time) → all_in ss ts ≡ true → All (λ t. has_time t ts ≡ true) ss
unfolding all_in
all_in-All [] ts h = tt
all_in-All (s ∷ ss) ts h = (ground (arith, h), all_in-All ss ts (ground (arith, h)))

days_have :
    (test : NormalizedCandle → Bool) (cs : List NormalizedCandle) (ts : List Time)
    → All (λ t. has_time t (days_present (candles_where test cs)) ≡ true) ts
    → All (λ t. has_day t cs ≡ true) ts
days_have test cs [] h = tt
days_have test cs (t ∷ ts) h = (
  ground (arith, has_day-where t test cs, has_day-map t (candles_where test cs), h.0),
  days_have test cs ts h.1,
)

bucket-IsWholeWeek :
    (dailies : List NormalizedCandle) (symbol : MarketSymbol) (evaluation_time week_start : Time)
    (w : NormalizedCandle)
    → weekday week_start ≡ 0
    → aggregate_bucket dailies symbol market_weekly week_start
        (week_start + 6 * day + 86399 * second)
        evaluation_time
        (day_range week_start 7)
      ≡ some w
    → IsWholeWeek dailies evaluation_time w
unfolding aggregate_bucket bucket_candle is_candle_closed
bucket-IsWholeWeek dailies symbol evaluation_time week_start w monday h =
    let close = week_start + 6 * day + 86399 * second in
    let members = members_of week_start close dailies in
    let test = (λ (d : NormalizedCandle). leb week_start d.open_time && leb d.open_time close) in
    elim (Bool-cases (leb close evaluation_time)) [
      | inr open_still ↦ ground (arith, open_still, h)
      | inl over ↦ elim (Bool-cases (same_times (days_present members) (day_range week_start 7))) [
        | inr other ↦ ground (arith, over, other, h)
        | inl whole ↦ elim (List-cases (sort_candles members)) [
          | inl empty ↦ ground (arith, over, whole, empty, h)
          | inr (first, others, full) ↦
              let made : bucket_candle symbol market_weekly week_start close first others ≡ w =
                some-injective (ground (arith, over, whole, full, h)) in
              let days = days_have test dailies (day_range week_start 7) (
                all_in-All (day_range week_start 7) (days_present members)
                  (ground (arith, whole))) in
              subst (IsWholeWeek dailies evaluation_time) made (record {
                monday = monday;
                closes = refl;
                over = ground (arith, over);
                days = days;
              })
        ]
      ]
    ]

weeks_from-IsWholeWeek :
    (fuel : ℕ) (dailies : List NormalizedCandle) (symbol : MarketSymbol)
    (evaluation_time last_day week_start : Time)
    → weekday week_start ≡ 0
    → last_day / day + 2 ≤ week_start / day + fuel
    → 0 < fuel
    → (ws : List NormalizedCandle) × (weeks_from fuel dailies symbol evaluation_time last_day
          week_start
        ≡ ok ws)
      × All (IsWholeWeek dailies evaluation_time) ws
unfolding weeks_from weekly_close
weeks_from-IsWholeWeek zero dailies symbol evaluation_time last_day week_start monday enough
      some_fuel =
    ground arith
weeks_from-IsWholeWeek (suc fuel) dailies symbol evaluation_time last_day week_start monday enough
      some_fuel =
    elim (Bool-cases (leb week_start last_day)) [
      | inr done ↦ ([], ground (arith, done), tt)
      | inl more ↦
          let by : week_start ≤ last_day = ground (arith, more) in
          let close = week_start + 6 * day + 86399 * second in
          let (ws, returns, whole) =
            weeks_from-IsWholeWeek fuel dailies symbol evaluation_time last_day
              (week_start + 7 * day) (omega (arith, monday)) (omega (arith, enough, by))
              (omega (arith, enough, by)) in
          let bucket =
            aggregate_bucket dailies symbol market_weekly week_start close evaluation_time
              (day_range week_start 7) in
          elim (Option-cases bucket) [
            | inl no_week ↦ (ws, ground (arith, more, monday, returns, no_week), whole)
            | inr (w, week) ↦ (
              w ∷ ws,
              ground (arith, more, monday, returns, week),
              (bucket-IsWholeWeek dailies symbol evaluation_time week_start w monday week, whole),
            )
          ]
    ]

-- From 5 January 1970 on, the first Monday of the epoch, the weeks of any daily candles are made, and
-- each is whole: it opens on a Monday, closes a second before the next and by the evaluation, and each of
-- its seven days has a daily candle of the symbol.
pub aggregate_weekly_from_daily-IsWholeWeek :
    (dailies : List NormalizedCandle) (symbol : MarketSymbol) (evaluation_time : Time)
    → All (λ (d : NormalizedCandle). 4 * day ≤ d.open_time) dailies
    → (ws : List NormalizedCandle) × (aggregate_weekly_from_daily dailies symbol evaluation_time
        ≡ ok ws)
      × All (IsWholeWeek (dailies_of dailies symbol) evaluation_time) ws
unfolding aggregate_weekly_from_daily weekly_open_containing daily_open
aggregate_weekly_from_daily-IsWholeWeek dailies symbol evaluation_time late =
    let ordered = dailies_of dailies symbol in
    elim (List-cases ordered) [
      | inl empty ↦ ([], ground (arith, empty), tt)
      | inr (first, others, full) ↦
          let from_then = subst (All (λ (d : NormalizedCandle). 4 * day ≤ d.open_time)) full (
            sort-All (λ (d : NormalizedCandle). 4 * day ≤ d.open_time)
              (candles_where (λ d. same_symbol d.symbol symbol) dailies)
              (where-All (λ (d : NormalizedCandle). 4 * day ≤ d.open_time)
                (λ d. same_symbol d.symbol symbol) dailies late)) in
          let last_day = daily_open (last_candle first others).open_time in
          let week_start = weekly_open_containing (daily_open first.open_time) in
          let (ws, returns, whole) =
            weeks_from-IsWholeWeek (suc (suc (last_day / day))) (first ∷ others) symbol
              evaluation_time last_day week_start (omega (arith, from_then.0)) (omega arith)
              (omega arith) in
          (
            ws,
            ground (arith, full, returns),
            subst (λ l. All (IsWholeWeek l evaluation_time) ws) (sym full) whole,
          )
    ]

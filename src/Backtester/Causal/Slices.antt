-- ===== src/Backtester/Causal/Slices.antt =====
-- What the steps of a day read of a history does not depend on what comes later.
use save_money_trading_bot.Prelude.{
  ◌≤◌, ◌<◌, ◌≡◌, refl, ap, ◌∙◌, String, false, ◌&&◌, Option, none, some, List, [], ◌∷◌, ◌++◌, map,
  All, leb, ◌==◌, arith, inl, inr, Bool-cases, Option-cases,
}
use mathlib.Core.Path.{subst}
use save_money_trading_bot.Decimal.{Decimal}
use save_money_trading_bot.StrategyEngine.Models.{Time, Candle}
use save_money_trading_bot.Backtester.Models.{FundingEvent}
use save_money_trading_bot.Backtester.Portfolio.{prior_from, candle_at, prior_close}
use save_money_trading_bot.Backtester.Portfolio.Marks.{prior_from-earlier}
use save_money_trading_bot.Backtester.Slicing.{
  slice_closed_candles, put_time, by_open_time_from, by_open_time,
}
use save_money_trading_bot.Backtester.Runtime.{Runtime}
use save_money_trading_bot.Backtester.Exits.{pay_events}

module _ (horizon : Time) where
  slice_late :
      (late : List Candle) (as_of : Time)
      → as_of ≤ horizon
      → All (λ (c : Candle). horizon < c.close_time) late
      → slice_closed_candles late as_of ≡ []
  unfolding slice_closed_candles
  slice_late [] as_of b h = refl
  slice_late (c ∷ late) as_of b h = ground (arith, slice_late late as_of b h.1, h.0)

  pub slice-append :
      (cs late : List Candle) (as_of : Time)
      → as_of ≤ horizon
      → All (λ (c : Candle). horizon < c.close_time) late
      → slice_closed_candles (cs ++ late) as_of ≡ slice_closed_candles cs as_of
  unfolding slice_closed_candles
  slice-append [] late as_of b h = slice_late late as_of b h
  slice-append (c ∷ cs) late as_of b h = rw (slice-append cs late as_of b h) refl

  put_time-at :
      (c : Candle) (entries : List (Time × Candle)) (t : Time)
      → t ≤ horizon
      → horizon < c.open_time
      → candle_at (put_time c entries) t ≡ candle_at entries t
  unfolding put_time
  put_time-at c [] t b h = ground arith
  put_time-at c ((s, d) ∷ entries) t b h = ground (arith, put_time-at c entries t b h)

  put_time-prior :
      (c : Candle) (entries : List (Time × Candle)) (before : Time) (prior : Option Time)
      → before ≤ horizon
      → horizon < c.open_time
      → prior_from before prior (map (λ (e : Time × Candle). e.0) (put_time c entries))
        ≡ prior_from before prior (map (λ (e : Time × Candle). e.0) entries)
  unfolding put_time prior_from
  put_time-prior c [] before prior b h = ground arith
  put_time-prior c ((s, d) ∷ entries) before prior b h = elim (Bool-cases (s == c.open_time)) [
    | inl same ↦ rw (put_time, same) refl
    | inr other ↦ rw (put_time, other) (put_time-prior c entries before _ b h)
  ]

  put_time-prior_close :
      (c : Candle) (entries : List (Time × Candle)) (before : Time)
      → before ≤ horizon
      → horizon < c.open_time
      → prior_close (put_time c entries) before ≡ prior_close entries before
  unfolding prior_close
  put_time-prior_close c entries before b h =
      let times = map (λ (e : Time × Candle). e.0) entries in
      let same = put_time-prior c entries before none b h in
      elim (Option-cases (prior_from before none times)) [
        | inl no_prior ↦ ground (arith, same, no_prior)
        | inr (t, found) ↦
            let soon = prior_from-earlier before times t found in
            let at = put_time-at c entries t (omega arith) h in ground (arith, same, found, at)
      ]

  late_entries :
      (late : List Candle) (entries : List (Time × Candle)) (t : Time)
      → t ≤ horizon
      → All (λ (c : Candle). horizon < c.open_time) late
      → (candle_at (by_open_time_from entries late) t ≡ candle_at entries t)
        × (prior_close (by_open_time_from entries late) t ≡ prior_close entries t)
  unfolding by_open_time_from
  late_entries [] entries t b h = (refl, refl)
  late_entries (c ∷ late) entries t b h =
      let (at, prior) = late_entries late (put_time c entries) t b h.1 in
      (at ∙ put_time-at c entries t b h.0, prior ∙ put_time-prior_close c entries t b h.0)

  by_open_time_from-append :
      (entries : List (Time × Candle)) (cs late : List Candle)
      → by_open_time_from entries (cs ++ late)
        ≡ by_open_time_from (by_open_time_from entries cs) late
  unfolding by_open_time_from
  by_open_time_from-append entries [] late = refl
  by_open_time_from-append entries (c ∷ cs) late =
      by_open_time_from-append (put_time c entries) cs late

  -- The candle of a time, and the close before it.
  pub by_open_time-append :
      (cs late : List Candle) (t : Time)
      → t ≤ horizon
      → All (λ (c : Candle). horizon < c.open_time) late
      → (candle_at (by_open_time (cs ++ late)) t ≡ candle_at (by_open_time cs) t)
        × (prior_close (by_open_time (cs ++ late)) t ≡ prior_close (by_open_time cs) t)
  unfolding by_open_time
  by_open_time-append cs late t b h =
      let (at, prior) = late_entries late (by_open_time_from [] cs) t b h in
      let same = by_open_time_from-append [] cs late in
      (ap (λ es. candle_at es t) same ∙ at, ap (λ es. prior_close es t) same ∙ prior)

  pay_late :
      (symbol : String) (notional : Decimal) (candle : Candle) (late : List FundingEvent)
      (rt : Runtime)
      → candle.close_time ≤ horizon
      → All (λ (ev : FundingEvent). horizon < ev.timestamp) late
      → pay_events symbol notional candle late rt ≡ rt
  unfolding pay_events
  pay_late symbol notional candle [] rt b h = refl
  pay_late symbol notional candle (ev ∷ late) rt b h =
      let outside : (leb candle.open_time ev.timestamp && leb ev.timestamp candle.close_time)
          ≡ false =
        ground (arith, h.0) in
      rw (pay_events, outside) (pay_late symbol notional candle late rt b h.1)

  pub pay_events-append :
      (symbol : String) (notional : Decimal) (candle : Candle) (evs late : List FundingEvent)
      (rt : Runtime)
      → candle.close_time ≤ horizon
      → All (λ (ev : FundingEvent). horizon < ev.timestamp) late
      → pay_events symbol notional candle (evs ++ late) rt
        ≡ pay_events symbol notional candle evs rt
  unfolding pay_events
  pay_events-append symbol notional candle [] late rt b h =
      pay_late symbol notional candle late rt b h
  pay_events-append symbol notional candle (ev ∷ evs) late rt b h =
      pay_events-append symbol notional candle evs late _ b h

module _ (P : Candle → Type 0) where
  put_time-All :
      (c : Candle) (entries : List (Time × Candle))
      → P c
      → All (λ (e : Time × Candle). P e.1) entries
      → All (λ (e : Time × Candle). P e.1) (put_time c entries)
  unfolding put_time
  put_time-All c [] p h = (p, tt)
  put_time-All c ((s, d) ∷ entries) p h = elim (Bool-cases (s == c.open_time)) [
    | inl same ↦ rw (put_time, same) (p, h.1)
    | inr other ↦ rw (put_time, other) (h.0, put_time-All c entries p h.1)
  ]

  by_open_time_from-All :
      (entries : List (Time × Candle)) (cs : List Candle)
      → All P cs
      → All (λ (e : Time × Candle). P e.1) entries
      → All (λ (e : Time × Candle). P e.1) (by_open_time_from entries cs)
  unfolding by_open_time_from
  by_open_time_from-All entries [] p h = h
  by_open_time_from-All entries (c ∷ cs) p h =
      by_open_time_from-All (put_time c entries) cs p.1 (put_time-All c entries p.0 h)

  candle_at-All :
      (entries : List (Time × Candle)) (t : Time) (c : Candle)
      → All (λ (e : Time × Candle). P e.1) entries
      → candle_at entries t ≡ some c
      → P c
  candle_at-All [] t c h found = ground (arith, found)
  candle_at-All ((s, d) ∷ entries) t c h found = elim (Bool-cases (s == t)) [
    | inl here ↦ let same : d ≡ c = ground arith in subst P same h.0
    | inr other ↦ candle_at-All entries t c h.1 (ground arith)
  ]

  -- The candle of a time is one of the list.
  pub by_open_time-All :
      (cs : List Candle) (t : Time) (c : Candle)
      → All P cs
      → candle_at (by_open_time cs) t ≡ some c
      → P c
  unfolding by_open_time
  by_open_time-All cs t c p found =
      candle_at-All (by_open_time_from [] cs) t c (by_open_time_from-All [] cs p tt) found

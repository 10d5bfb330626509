-- ===== src/Backtester/Causal/Steps.antt =====
-- What a step of a due day does is the same over the extended history.
use save_money_trading_bot.Prelude.{
  ◌≤◌, ◌≡◌, refl, ap, String, List, [], ◌∷◌, ◌++◌, All, arith, inl, inr, Option-cases,
}
use mathlib.Core.Path.{fun_ext}
use save_money_trading_bot.Prelude.Dict.{lookup}
use save_money_trading_bot.Decimal.{Exc, Exc-cases, ◌>>=◌, mul}
use save_money_trading_bot.StrategyEngine.Models.{Time, Candle}
use save_money_trading_bot.Backtester.Models.{BacktestConfig, HistoricalDataBundle}
use save_money_trading_bot.Backtester.Portfolio.{candle_at}
use save_money_trading_bot.Backtester.Slicing.{
  build_candle_series, evaluation_time_for_daily, by_open_time,
}
use save_money_trading_bot.Backtester.Runtime.{Runtime, for_each}
use save_money_trading_bot.Backtester.Exits.{apply_funding, update_trailing}
use save_money_trading_bot.Backtester.Entries.{strategy_request}
use save_money_trading_bot.Backtester.Engine.{day_candles_of, prior_closes_of, fund_day}
use save_money_trading_bot.Backtester.Causal.{extended, IsDue, IsPast, IsLater}
use save_money_trading_bot.Backtester.Causal.Slices.{
  slice-append, by_open_time-append, by_open_time-All, pay_events-append,
}

-- Loops whose bodies agree on the elements agree.
pub for_each_same :
    {A : Type 0} (P : A → Type 0) (f g : A → Runtime → Exc Runtime) (xs : List A) (rt : Runtime)
    → ((x : A) (rt : Runtime) → P x → f x rt ≡ g x rt)
    → All P xs
    → for_each f xs rt ≡ for_each g xs rt
unfolding for_each
for_each_same P f g [] rt same h = refl
for_each_same P f g (x ∷ xs) rt same h = elim (Exc-cases (g x rt)) [
  | inl (rt₁, e) ↦ rw (for_each, same x rt h.0, e) (for_each_same P f g xs rt₁ same h.1)
  | inr (e, raises) ↦ rw (for_each, same x rt h.0, raises) refl
]

pub for_each-append :
    {A : Type 0} (f : A → Runtime → Exc Runtime) (xs ys : List A) (rt : Runtime)
    → for_each f (xs ++ ys) rt ≡ (for_each f xs rt >>= for_each f ys)
unfolding for_each
for_each-append f [] ys rt = refl
for_each-append f (x ∷ xs) ys rt = elim (Exc-cases (f x rt)) [
  | inl (rt₁, e) ↦ rw (for_each, e) (for_each-append f xs ys rt₁)
  | inr (e, raises) ↦ rw (for_each, raises) refl
]

pub opened-All :
    (horizon : Time) (cs : List Candle)
    → All (IsDue horizon) cs
    → All (λ (c : Candle). c.open_time ≤ horizon) cs
opened-All horizon [] h = tt
opened-All horizon (c ∷ cs) (due, h) = (due.opened, opened-All horizon cs h)

pub loop_same :
    {A : Type 0} (P : A → Type 0) (f g : A → Runtime → Exc Runtime) (xs : List A)
    → ((x : A) (rt : Runtime) → P x → f x rt ≡ g x rt)
    → All P xs
    → for_each f xs ≡ for_each g xs
loop_same P f g xs same h = fun_ext (λ rt. for_each_same P f g xs rt same h)

module _ (horizon : Time) (bundle late : HistoricalDataBundle) (past : IsPast horizon bundle)
    (later : IsLater horizon late) where
  pub day_candles_of-extended :
      (symbols : List String) (t : Time)
      → t ≤ horizon
      → day_candles_of (extended bundle late) symbols t ≡ day_candles_of bundle symbols t
  unfolding day_candles_of
  day_candles_of-extended [] t b = refl
  day_candles_of-extended (s ∷ symbols) t b =
      let (at, _) =
        by_open_time-append horizon (bundle.daily s) (late.daily s) t b (later.opens s) in
      let rest = day_candles_of-extended symbols t b in
      elim (Option-cases (candle_at (by_open_time (bundle.daily s)) t)) [
        | inl absent ↦ rw (day_candles_of, at, absent) rest
        | inr (c, found) ↦ rw (day_candles_of, at, found) (ap (λ es. (s, c) ∷ es) rest)
      ]

  pub prior_closes_of-extended :
      (symbols : List String) (t : Time)
      → t ≤ horizon
      → prior_closes_of (extended bundle late) symbols t ≡ prior_closes_of bundle symbols t
  unfolding prior_closes_of
  prior_closes_of-extended symbols t b = fun_ext (λ s.
      let (_, prior) =
        by_open_time-append horizon (bundle.daily s) (late.daily s) t b (later.opens s) in
      rw prior refl)

  -- The candles of a day are due.
  pub day_candles_of-IsDue :
      (symbols : List String) (t : Time)
      → All (λ (e : String × Candle). IsDue horizon e.1) (day_candles_of bundle symbols t)
  unfolding day_candles_of
  day_candles_of-IsDue [] t = tt
  day_candles_of-IsDue (s ∷ symbols) t =
      elim (Option-cases (candle_at (by_open_time (bundle.daily s)) t)) [
        | inl absent ↦ rw (All, day_candles_of, absent) (day_candles_of-IsDue symbols t)
        | inr (c, found) ↦
            rw (All, day_candles_of, found)
              (
                by_open_time-All (IsDue horizon) (bundle.daily s) t c (past s) found,
                day_candles_of-IsDue symbols t,
              )
      ]

  pub strategy_request-extended :
      (config : BacktestConfig) (s : String) (now : Time)
      → now ≤ horizon
      → strategy_request config (extended bundle late) s now ≡ strategy_request config bundle s now
  unfolding build_candle_series
  strategy_request-extended config s now b =
      rw
        (
          slice-append horizon (bundle.daily s) (late.daily s) now b (later.daily s),
          slice-append horizon (bundle.weekly s) (late.weekly s) now b (later.weekly s),
          slice-append horizon (bundle.monthly s) (late.monthly s) now b (later.monthly s),
        )
        refl

  pub update_trailing-extended :
      (config : BacktestConfig) (s : String) (c : Candle) (now : Time) (rt : Runtime)
      → now ≤ horizon
      → update_trailing config (extended bundle late) s c now rt
        ≡ update_trailing config bundle s c now rt
  unfolding update_trailing
  update_trailing-extended config s c now rt b =
      let same = slice-append horizon (bundle.daily s) (late.daily s) now b (later.daily s) in
      elim (Option-cases (lookup s rt.positions)) [
        | inl unheld ↦ rw (update_trailing, unheld) refl
        | inr (p, held) ↦ rw (update_trailing, held, same) refl
      ]

  pub apply_funding-extended :
      (config : BacktestConfig) (s : String) (c : Candle) (rt : Runtime)
      → c.close_time ≤ horizon
      → apply_funding config (extended bundle late) s c rt ≡ apply_funding config bundle s c rt
  unfolding apply_funding
  apply_funding-extended config s c rt b = elim (Option-cases (lookup s rt.positions)) [
    | inl unheld ↦ rw (apply_funding, unheld) refl
    | inr (p, held) ↦ elim (Option-cases config.funding_model.assumed_rate) [
      | inl events ↦
          rw (apply_funding, held, events)
            (pay_events-append horizon s (mul p.quantity p.entry_price) c (bundle.funding s)
              (late.funding s) rt b (later.funding s))
      | inr (rate, assumed) ↦ rw (apply_funding, held, assumed) refl
    ]
  ]

  pub fund_day-extended :
      (config : BacktestConfig) (e : String × Candle) (rt : Runtime)
      → IsDue horizon e.1
      → fund_day config (extended bundle late) e rt ≡ fund_day config bundle e rt
  unfolding evaluation_time_for_daily
  fund_day-extended config (s, c) rt due =
      let closed : c.close_time ≤ horizon = omega (arith, due.evaluated) in
      rw (apply_funding-extended config s c rt closed) refl

-- ===== src/StrategyEngine/Readings/WarmUp.antt =====
-- services/strategy_engine/engine.py, indicators.py: where an indicator is read at the last candle, the
-- series has as many candles as its configured period asks for.
use save_money_trading_bot.Prelude.{
  ℕ, refl, zero, suc, ◌≡◌, ◌≤◌, ◌+◌, ◌-◌, Option, none, some, List, [], ◌∷◌, map, length, replicate,
  ltb, leb, ◌≢◌, ap, ◌∙◌, inl, inr, Bool-cases, get_elem?, arith,
}
use save_money_trading_bot.Decimal.{Decimal, ok, Exc-cases}
use save_money_trading_bot.StrategyEngine.Models.{Candle}
use save_money_trading_bot.StrategyEngine.Indicators.{Series, compute_ema, compute_wilder_atr}
use save_money_trading_bot.StrategyEngine.Readings.{
  Request, Readings, Values, values_in, values_of, item, read_indicators,
}

nothing_there : (n i : ℕ) (v : Decimal) → get_elem? (replicate n none) i ≢ some (some v)
nothing_there zero i v h = cc
nothing_there (suc n) zero v h = cc
nothing_there (suc n) (suc i) v h = nothing_there n i v h

item-some :
    (s : Series) (i : ℕ) (v : Decimal) → item s i ≡ ok (some v) → get_elem? s i ≡ some (some v)
item-some s i v h = ground arith

compute_ema-long :
    (closes : List Decimal) (period : ℕ) (s : Series) (i : ℕ) (v : Decimal)
    → compute_ema closes period ≡ ok s
    → item s i ≡ ok (some v)
    → period ≤ length closes
unfolding compute_ema
compute_ema-long closes zero s i v h at = ground arith
compute_ema-long closes (suc p) s i v h at = elim (Bool-cases (ltb (length closes) (suc p))) [
  | inr long ↦ ground (arith, long)
  | inl short ↦
      let same : replicate (length closes) none ≡ s = ground (arith, short) in
      absurd (nothing_there (length closes) i v (ap (λ z. get_elem? z i) same ∙ item-some s i v at))
]

compute_wilder_atr-long :
    (candles : List Candle) (period : ℕ) (s : Series) (i : ℕ) (v : Decimal)
    → compute_wilder_atr candles period ≡ ok s
    → item s i ≡ ok (some v)
    → period + 1 ≤ length candles
unfolding compute_wilder_atr
compute_wilder_atr-long [] period s i v h at = ground arith
compute_wilder_atr-long (c ∷ cs) period s i v h at =
    elim (Bool-cases (leb (suc (length cs)) period)) [
      | inr long ↦ ground (arith, long)
      | inl short ↦
          let same : replicate (suc (length cs)) none ≡ s = ground (arith, short) in
          absurd (
            nothing_there (suc (length cs)) i v (ap (λ z. get_elem? z i) same ∙ item-some s i v at))
    ]

length-map : {A : Type 0} {B : Type 0} (f : A → B) (xs : List A) → length (map f xs) ≡ length xs
length-map f [] = refl
length-map f (x ∷ xs) = ap suc (length-map f xs)

abbrev closes_of : List Candle → List Decimal
closes_of = map (λ (c : Candle). c.close)

-- The series that an indicator is read from.
record ReadFrom (r : Request) (x : Readings) : Type 0 where
  daily : Series
  daily_lem : compute_ema (closes_of r.daily_series.candles) r.params.daily_ema_period ≡ ok daily
  daily_at : item daily (length r.daily_series.candles - 1) ≡ ok x.indicators.ema20_daily
  atr : Series
  atr_lem : compute_wilder_atr r.daily_series.candles r.params.atr_period ≡ ok atr
  atr_at : item atr (length r.daily_series.candles - 1) ≡ ok x.indicators.atr14_daily
  fast : Series
  fast_lem : compute_ema (closes_of r.weekly_series.candles) r.params.weekly_ema_fast ≡ ok fast
  fast_at : item fast (length r.weekly_series.candles - 1) ≡ ok x.indicators.ema20_weekly
  slow : Series
  slow_lem : compute_ema (closes_of r.weekly_series.candles) r.params.weekly_ema_slow ≡ ok slow
  slow_at : item slow (length r.weekly_series.candles - 1) ≡ ok x.indicators.ema50_weekly
  monthly : Series
  monthly_lem :
      compute_ema (closes_of r.monthly_series.candles) r.params.monthly_ema_period ≡ ok monthly
  monthly_at : item monthly (length r.monthly_series.candles - 1) ≡ ok x.indicators.ema20_monthly

read_indicators-ReadFrom : (r : Request) (x : Readings) → read_indicators r ≡ ok x → ReadFrom r x
unfolding read_indicators
read_indicators-ReadFrom r x h =
    elim (Exc-cases (compute_ema (closes_of r.daily_series.candles) r.params.daily_ema_period)) [
      | inr (e, raises) ↦ ground arith
      | inl (daily, d) ↦
          elim (Exc-cases (compute_wilder_atr r.daily_series.candles r.params.atr_period)) [
            | inr (e, raises) ↦ ground arith
            | inl (atr, a) ↦
                elim (Exc-cases
                  (compute_ema (closes_of r.weekly_series.candles) r.params.weekly_ema_fast)) [
                    | inr (e, raises) ↦ ground arith
                    | inl (fast, f) ↦
                        elim (Exc-cases (
                          compute_ema (closes_of r.weekly_series.candles)
                            r.params.weekly_ema_slow)) [
                              | inr (e, raises) ↦ ground arith
                              | inl (slow, s) ↦
                                  elim (Exc-cases (
                                    compute_ema (closes_of r.monthly_series.candles)
                                      r.params.monthly_ema_period)) [
                                        | inr (e, raises) ↦ ground arith
                                        | inl (monthly, m) ↦ record {
                                          daily = daily;
                                          daily_lem = d;
                                          daily_at = ground arith;
                                          atr = atr;
                                          atr_lem = a;
                                          atr_at = ground arith;
                                          fast = fast;
                                          fast_lem = f;
                                          fast_at = ground arith;
                                          slow = slow;
                                          slow_lem = s;
                                          slow_at = ground arith;
                                          monthly = monthly;
                                          monthly_lem = m;
                                          monthly_at = ground arith;
                                        }
                                      ]
                            ]
                  ]
          ]
    ]

-- A value that `values_of` takes from each indicator.
values_of-some :
    (d a u f s m : Option Decimal) (v : Values)
    → values_of d a u f s m ≡ some v
    → (d ≡ some v.ema20_daily)
      × (a ≡ some v.atr14)
      × (f ≡ some v.ema20_weekly)
      × (s ≡ some v.ema50_weekly)
      × (m ≡ some v.ema20_monthly)
unfolding values_of
values_of-some (some d) (some a) (some u) (some f) (some s) (some m) v h = ground arith
values_of-some none a u f s m v h = ground arith
values_of-some (some d) none u f s m v h = ground arith
values_of-some (some d) (some a) none f s m v h = ground arith
values_of-some (some d) (some a) (some u) none s m v h = ground arith
values_of-some (some d) (some a) (some u) (some f) none m v h = ground arith
values_of-some (some d) (some a) (some u) (some f) (some s) none v h = ground arith

-- As many candles as the averages and the ATR ask for.
pub record IsLongEnough (r : Request) : Type 0 where
  pub daily_ema : r.params.daily_ema_period ≤ length r.daily_series.candles
  pub daily_atr : r.params.atr_period + 1 ≤ length r.daily_series.candles
  pub weekly_fast : r.params.weekly_ema_fast ≤ length r.weekly_series.candles
  pub weekly_slow : r.params.weekly_ema_slow ≤ length r.weekly_series.candles
  pub monthly_ema : r.params.monthly_ema_period ≤ length r.monthly_series.candles

closes-long :
    (cs : List Candle) (period : ℕ) (s : Series) (o : Option Decimal) (v : Decimal)
    → compute_ema (closes_of cs) period ≡ ok s
    → item s (length cs - 1) ≡ ok o
    → o ≡ some v
    → period ≤ length cs
closes-long cs period s o v h at some_lem =
    let long = compute_ema-long (closes_of cs) period s (length cs - 1) v h (at ∙ ap ok some_lem) in
    ground (arith, long, length-map (λ (c : Candle). c.close) cs)

pub read_indicators-IsLongEnough :
    (r : Request) (x : Readings) (v : Values)
    → read_indicators r ≡ ok x
    → values_in x.indicators ≡ some v
    → IsLongEnough r
read_indicators-IsLongEnough r x v read present =
    let f = read_indicators-ReadFrom r x read in
    let i = x.indicators in
    let (d, a, w, s, m) =
      values_of-some i.ema20_daily i.atr14_daily i.volume_ratio i.ema20_weekly i.ema50_weekly
        i.ema20_monthly v present in
    record {
      daily_ema =
          closes-long r.daily_series.candles _ f.daily _ v.ema20_daily f.daily_lem f.daily_at d;
      daily_atr =
          compute_wilder_atr-long r.daily_series.candles r.params.atr_period f.atr
            (length r.daily_series.candles - 1) v.atr14 f.atr_lem (f.atr_at ∙ ap ok a);
      weekly_fast =
          closes-long r.weekly_series.candles _ f.fast _ v.ema20_weekly f.fast_lem f.fast_at w;
      weekly_slow =
          closes-long r.weekly_series.candles _ f.slow _ v.ema50_weekly f.slow_lem f.slow_at s;
      monthly_ema =
          closes-long r.monthly_series.candles _ f.monthly _ v.ema20_monthly f.monthly_lem
            f.monthly_at m;
    }

-- ===== src/Backtester/Portfolio/Marks.antt =====
-- The prior closes, from which the risk engine is given its marks.
use save_money_trading_bot.Prelude.{
  ◌≡◌, ◌≤◌, ◌<◌, ◌⊎◌, ◌&&◌, inl, inr, refl, true, Option, none, some, List, [], ◌∷◌, map, All, any,
  ltb, ◌==◌, Bool-cases, Option-cases, arith,
}
use save_money_trading_bot.Decimal.{Decimal}
use save_money_trading_bot.StrategyEngine.Models.{Time, Candle}
use save_money_trading_bot.Backtester.Portfolio.{prior_from, candle_at, prior_close}

-- The time that the loop keeps: before the bound, not before an earlier choice, and the latest such.
record IsLatest (before : Time) (prior : Option Time) (ots : List Time) (t : Time) : Type 0 where
  earlier : t < before
  found : (prior ≡ some t) ⊎ (any (λ o. o == t) ots ≡ true)
  latest : All (λ o. (o < before) → o ≤ t) ots
  from_prior : (q : Time) → prior ≡ some q → q ≤ t

prior_from-IsLatest :
    (before : Time) (prior : Option Time) (ots : List Time) (t : Time)
    → ((q : Time) → prior ≡ some q → q < before)
    → prior_from before prior ots ≡ some t
    → IsLatest before prior ots t
unfolding prior_from
prior_from-IsLatest before prior [] t inv h = record {
  earlier = inv t h;
  found = inl h;
  latest = tt;
  from_prior = λ q e. ground arith;
}
prior_from-IsLatest before none (o ∷ ots) t inv h = elim (Bool-cases (ltb o before)) [
  | inl soon ↦
      let r = prior_from-IsLatest before (some o) ots t (λ q e. ground arith) (ground arith) in
      let above = r.from_prior o refl in
      record {
        earlier = r.earlier;
        found = elim r.found [ inl e ↦ ground arith | inr e ↦ ground (arith, e) ];
        latest = (ground arith, r.latest);
        from_prior = λ q e. ground arith;
      }
  | inr late ↦
      let r = prior_from-IsLatest before none ots t inv (ground arith) in
      record {
        earlier = r.earlier;
        found = elim r.found [ inl e ↦ ground arith | inr e ↦ ground (arith, e) ];
        latest = (ground arith, r.latest);
        from_prior = λ q e. ground arith;
      }
]
prior_from-IsLatest before (some p) (o ∷ ots) t inv h =
    elim (Bool-cases (ltb o before && ltb p o)) [
      | inl later ↦
          let r = prior_from-IsLatest before (some o) ots t (λ q e. ground arith) (ground arith) in
          let above = r.from_prior o refl in
          record {
            earlier = r.earlier;
            found = elim r.found [ inl e ↦ ground arith | inr e ↦ ground (arith, e) ];
            latest = (ground arith, r.latest);
            from_prior = λ q e. ground arith;
          }
      | inr kept ↦
          let r = prior_from-IsLatest before (some p) ots t inv (ground arith) in
          let above = r.from_prior p refl in
          record {
            earlier = r.earlier;
            found = elim r.found [ inl e ↦ ground arith | inr e ↦ ground (arith, e) ];
            latest = (ground arith, r.latest);
            from_prior = λ q e. ground arith;
          }
    ]

candle_at-any :
    (entries : List (Time × Candle)) (t : Time)
    → any (λ o. o == t) (map (λ (e : Time × Candle). e.0) entries) ≡ true
    → (c : Candle) × (candle_at entries t ≡ some c)
candle_at-any [] t h = ground arith
candle_at-any ((o, c) ∷ entries) t h = elim (Bool-cases (o == t)) [
  | inl here ↦ (c, ground arith)
  | inr there ↦ let (d, e) = candle_at-any entries t (ground arith) in (d, ground (arith, e))
]

prior_from-none :
    (before : Time) (prior : Option Time) (ots : List Time)
    → prior_from before prior ots ≡ none
    → (prior ≡ none) × All (λ o. before ≤ o) ots
unfolding prior_from
prior_from-none before prior [] h = (h, tt)
prior_from-none before none (o ∷ ots) h = elim (Bool-cases (ltb o before)) [
  | inl soon ↦
      let (kept, _) = prior_from-none before (some o) ots (ground arith) in ground (arith, kept)
  | inr late ↦
      let (_, rest) = prior_from-none before none ots (ground arith) in (refl, (ground arith, rest))
]
prior_from-none before (some p) (o ∷ ots) h = elim (Bool-cases (ltb o before && ltb p o)) [
  | inl later ↦
      let (kept, _) = prior_from-none before (some o) ots (ground arith) in ground (arith, kept)
  | inr same ↦
      let (kept, _) = prior_from-none before (some p) ots (ground arith) in ground (arith, kept)
]

late_entries :
    (before : Time) (entries : List (Time × Candle))
    → All (λ o. before ≤ o) (map (λ (e : Time × Candle). e.0) entries)
    → All (λ (e : Time × Candle). before ≤ e.0) entries
late_entries before [] h = tt
late_entries before (e ∷ entries) h = (h.0, late_entries before entries h.1)

-- A symbol has no prior close only where no candle of it opens before the bound.
prior_close-none :
    (entries : List (Time × Candle)) (before : Time)
    → prior_close entries before ≡ none
    → All (λ (e : Time × Candle). before ≤ e.0) entries
unfolding prior_close
prior_close-none entries before h =
    let times = map (λ (e : Time × Candle). e.0) entries in
    elim (Option-cases (prior_from before none times)) [
      | inl missing ↦
          let (_, late) = prior_from-none before none times missing in
          late_entries before entries late
      | inr (t, chosen) ↦
          let r = prior_from-IsLatest before none times t (λ q e. ground arith) chosen in
          let (c, at) =
            candle_at-any entries t (elim r.found [ inl e ↦ ground arith | inr e ↦ e ]) in
          ground (arith, chosen, at)
    ]

-- The time that the loop keeps is before the bound.
pub prior_from-earlier :
    (before : Time) (ots : List Time) (t : Time) → prior_from before none ots ≡ some t → t < before
prior_from-earlier before ots t h =
    let kept = prior_from-IsLatest before none ots t (λ q e. ground arith) h in kept.earlier

-- ===== src/Backtester/Slicing/Horizon.antt =====
-- The timeline of candles of which some open up to a horizon and the others after it.
use save_money_trading_bot.Prelude.{
  ◌≤◌, ◌<◌, ◌≡◌, refl, sym, ◌∙◌, String, Bool, ◌||◌, List, [], ◌∷◌, ◌++◌, All, any, ◌==◌, arith,
}
use save_money_trading_bot.StrategyEngine.Models.{Time, Candle}
use save_money_trading_bot.Backtester.Slicing.{
  add_time, add_times, build_timeline_from, build_timeline,
}
use save_money_trading_bot.Backtester.Slicing.Timeline.{
  Ascending, opens_at, add_time-All, build_timeline-Ascending, Ascending-unique,
}

add_times-All :
    (P : Time → Type 0) (cs : List Candle) (ts : List Time)
    → All (λ (c : Candle). P c.open_time) cs
    → All P ts
    → All P (add_times cs ts)
unfolding add_times
add_times-All P [] ts p h = h
add_times-All P (c ∷ cs) ts p h =
    add_times-All P cs (add_time c.open_time ts) p.1 (add_time-All P c.open_time ts p.0 h)

timeline_from-All :
    (P : Time → Type 0) (daily : String → List Candle) (symbols : List String) (ts : List Time)
    → ((s : String) → All (λ (c : Candle). P c.open_time) (daily s))
    → All P ts
    → All P (build_timeline_from daily symbols ts)
unfolding build_timeline_from
timeline_from-All P daily [] ts p h = h
timeline_from-All P daily (s ∷ symbols) ts p h =
    timeline_from-All P daily symbols (add_times (daily s) ts) p
      (add_times-All P (daily s) ts (p s) h)

-- What holds of every open time holds on the timeline.
pub build_timeline-All :
    (P : Time → Type 0) (daily : String → List Candle) (symbols : List String)
    → ((s : String) → All (λ (c : Candle). P c.open_time) (daily s))
    → All P (build_timeline daily symbols)
unfolding build_timeline
build_timeline-All P daily symbols p = timeline_from-All P daily symbols [] p tt

any-append :
    {A : Type 0} (p : A → Bool) (xs ys : List A) → any p (xs ++ ys) ≡ (any p xs || any p ys)
any-append p [] ys = refl
any-append p (x ∷ xs) ys = ground (arith, any-append p xs ys)

any_or :
    (daily late : String → List Candle) (symbols : List String) (t : Time)
    → any (λ s. opens_at t (daily s ++ late s)) symbols
      ≡ (any (λ s. opens_at t (daily s)) symbols || any (λ s. opens_at t (late s)) symbols)
any_or daily late [] t = refl
any_or daily late (s ∷ symbols) t = ground (
  arith,
  any_or daily late symbols t,
  any-append (λ (c : Candle). c.open_time == t) (daily s) (late s),
)

Ascending-append :
    (horizon : Time) (xs ys : List Time)
    → Ascending xs
    → Ascending ys
    → All (λ t. t ≤ horizon) xs
    → All (λ t. horizon < t) ys
    → Ascending (xs ++ ys)
Ascending-append horizon [] ys a b h k = b
Ascending-append horizon (x ∷ xs) ys a b h k =
    (above_all xs a.0, Ascending-append horizon xs ys a.1 b h.1 k)
  where
    late : (ts : List Time) → All (λ t. horizon < t) ts → All (λ t. x < t) ts
    late [] k = tt
    late (t ∷ ts) k = (omega (arith, k.0, h.0), late ts k.1)

    above_all : (zs : List Time) → All (λ t. x < t) zs → All (λ t. x < t) (zs ++ ys)
    above_all [] z = late ys k
    above_all (t ∷ ts) z = (z.0, above_all ts z.1)

-- The timeline of candles of which some open up to the horizon and the others after it.
pub build_timeline-append :
    (horizon : Time) (daily late : String → List Candle) (symbols : List String)
    → ((s : String) → All (λ (c : Candle). c.open_time ≤ horizon) (daily s))
    → ((s : String) → All (λ (c : Candle). horizon < c.open_time) (late s))
    → build_timeline (λ s. daily s ++ late s) symbols
      ≡ build_timeline daily symbols ++ build_timeline late symbols
build_timeline-append horizon daily late symbols past later =
    let (whole, has_whole) = build_timeline-Ascending (λ s. daily s ++ late s) symbols in
    let (front, has_front) = build_timeline-Ascending daily symbols in
    let (back, has_back) = build_timeline-Ascending late symbols in
    let before = build_timeline daily symbols in
    let after = build_timeline late symbols in
    let ascending =
      Ascending-append horizon before after front back
        (build_timeline-All (λ t. t ≤ horizon) daily symbols past)
        (build_timeline-All (λ t. horizon < t) late symbols later) in
    Ascending-unique (build_timeline (λ s. daily s ++ late s) symbols) (before ++ after) whole
      ascending
      (λ t.
        has_whole t
        ∙ (any_or daily late symbols t
            ∙ sym
                (any-append (λ s. s == t) before after ∙ ground (arith, has_front t, has_back t))))

-- ===== src/Backtester/Slicing/Timeline.antt =====
-- The timeline: every open time of the symbols' candles, ascending, each once.
use save_money_trading_bot.Prelude.{
  ◌≤◌, ◌<◌, ◌≡◌, refl, sym, ◌∙◌, String, Bool, false, ◌||◌, List, [], ◌∷◌, All, any, ltb, ◌==◌,
  arith, inl, inr, Bool-cases,
}
use save_money_trading_bot.StrategyEngine.Models.{Time, Candle}
use save_money_trading_bot.Backtester.Slicing.{
  add_time, add_times, build_timeline_from, build_timeline,
}

-- Strictly ascending times.
abbrev pub Ascending : List Time → Type 0
Ascending [] = Unit
Ascending (t ∷ ts) = All (λ s. t < s) ts × Ascending ts

-- `t in times`
abbrev pub has : Time → List Time → Bool
has t = any (λ s. s == t)

-- Some candle opens at the time.
abbrev pub opens_at : Time → List Candle → Bool
opens_at t = any (λ (c : Candle). c.open_time == t)

pub add_time-All :
    (P : Time → Type 0) (t : Time) (ts : List Time) → P t → All P ts → All P (add_time t ts)
unfolding add_time
add_time-All P t [] p h = (p, tt)
add_time-All P t (s ∷ ts) p h = elim (Bool-cases (ltb t s)) [
  | inl before ↦ rw before (p, h)
  | inr not_before ↦ elim (Bool-cases (t == s)) [
    | inl same ↦ rw (not_before, same) h
    | inr other ↦ rw (not_before, other) (h.0, add_time-All P t ts p h.1)
  ]
]

pub All-below : (t s : Time) (ts : List Time) → t < s → All (λ u. s < u) ts → All (λ u. t < u) ts
All-below t s [] b h = tt
All-below t s (u ∷ ts) b h = (omega (arith, h.0), All-below t s ts b h.1)

add_time-Ascending : (t : Time) (ts : List Time) → Ascending ts → Ascending (add_time t ts)
unfolding add_time
add_time-Ascending t [] h = (tt, tt)
add_time-Ascending t (s ∷ ts) h = elim (Bool-cases (ltb t s)) [
  | inl before ↦
      rw before ((ground (arith, before), All-below t s ts (ground (arith, before)) h.0), h)
  | inr not_before ↦ elim (Bool-cases (t == s)) [
    | inl same ↦ rw (not_before, same) h
    | inr other ↦
        rw (not_before, other)
          (
            add_time-All (λ u. s < u) t ts (ground (arith, not_before, other)) h.0,
            add_time-Ascending t ts h.1,
          )
  ]
]

add_time-has : (t : Time) (ts : List Time) (u : Time) → has u (add_time t ts) ≡ (t == u || has u ts)
unfolding add_time
add_time-has t [] u = refl
add_time-has t (s ∷ ts) u = ground (arith, add_time-has t ts u)

add_times-Ascending :
    (cs : List Candle) (ts : List Time) → Ascending ts → Ascending (add_times cs ts)
unfolding add_times
add_times-Ascending [] ts h = h
add_times-Ascending (c ∷ cs) ts h =
    add_times-Ascending cs (add_time c.open_time ts) (add_time-Ascending c.open_time ts h)

add_times-has :
    (cs : List Candle) (ts : List Time) (u : Time)
    → has u (add_times cs ts) ≡ (opens_at u cs || has u ts)
unfolding add_times
add_times-has [] ts u = refl
add_times-has (c ∷ cs) ts u =
    ground (arith, add_times-has cs (add_time c.open_time ts) u, add_time-has c.open_time ts u)

timeline_from-Ascending :
    (daily : String → List Candle) (symbols : List String) (ts : List Time)
    → Ascending ts
    → Ascending (build_timeline_from daily symbols ts)
unfolding build_timeline_from
timeline_from-Ascending daily [] ts h = h
timeline_from-Ascending daily (s ∷ symbols) ts h =
    timeline_from-Ascending daily symbols (add_times (daily s) ts)
      (add_times-Ascending (daily s) ts h)

timeline_from-has :
    (daily : String → List Candle) (symbols : List String) (ts : List Time) (u : Time)
    → has u (build_timeline_from daily symbols ts)
      ≡ (any (λ s. opens_at u (daily s)) symbols || has u ts)
unfolding build_timeline_from
timeline_from-has daily [] ts u = refl
timeline_from-has daily (s ∷ symbols) ts u = ground (
  arith,
  timeline_from-has daily symbols (add_times (daily s) ts) u,
  add_times-has (daily s) ts u,
)

-- The timeline is strictly ascending, and a time is on it just if a candle of some symbol opens then.
pub build_timeline-Ascending :
    (daily : String → List Candle) (symbols : List String)
    → Ascending (build_timeline daily symbols)
      × ((t : Time)
          → has t (build_timeline daily symbols) ≡ any (λ s. opens_at t (daily s)) symbols)
unfolding build_timeline
build_timeline-Ascending daily symbols = (
  timeline_from-Ascending daily symbols [] tt,
  λ t. ground (arith, timeline_from-has daily symbols [] t),
)

-- A time before an ascending list is not in it.
has_of_below : (t : Time) (ts : List Time) → All (λ u. t < u) ts → has t ts ≡ false
has_of_below t [] h = refl
has_of_below t (s ∷ ts) h = ground (arith, h.0, has_of_below t ts h.1)

-- A head that is before another list is not in it.
head_not_before :
    (x y : Time) (xs ys : List Time) → All (λ u. y < u) ys → has x (x ∷ xs) ≡ has x (y ∷ ys) → y ≤ x
head_not_before x y xs ys b h = elim (Bool-cases (ltb x y)) [
  | inl before ↦
      let x_y : x < y = ground arith in
      let absent = has_of_below x (y ∷ ys) (x_y, All-below x y ys x_y b) in
      ground (arith, absent, h)
  | inr not_before ↦ ground arith
]

-- Ascending lists of the same times are one list.
pub Ascending-unique :
    (xs ys : List Time) → Ascending xs → Ascending ys → ((t : Time) → has t xs ≡ has t ys) → xs ≡ ys
Ascending-unique [] [] a b h = refl
Ascending-unique [] (y ∷ ys) a b h = ground (arith, h y)
Ascending-unique (x ∷ xs) [] a b h = ground (arith, h x)
Ascending-unique (x ∷ xs) (y ∷ ys) a b h =
    let y_x = head_not_before x y xs ys b.0 (h x) in
    let x_y = head_not_before y x ys xs a.0 (sym (h y)) in
    let same : x ≡ y = omega arith in
    let tails : (t : Time) → has t xs ≡ has t ys = (λ t. elim (Bool-cases (x == t)) [
      | inl here ↦
          let t_x : t ≡ x = ground arith in
          let absent : has t xs ≡ false = rw t_x (has_of_below x xs a.0) in
          let absent' : has t ys ≡ false = rw (t_x, same) (has_of_below y ys b.0) in
          absent ∙ sym absent'
      | inr other ↦ ground (arith, h t, same, other)
    ]) in
    let rest : xs ≡ ys = Ascending-unique xs ys a.1 b.1 tails in rw (same, rest) refl

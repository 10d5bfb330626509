-- ===== src/MarketData/Validation/Sorting.antt =====
-- The sort by open time: the same candles, in the order of their times.
use save_money_trading_bot.Prelude.{
  ◌≤◌, ◌≡◌, refl, ap, ◌∙◌, Bool, true, ◌||◌, List, [], ◌∷◌, All, any, leb, arith, inl, inr,
  Bool-cases,
}
use save_money_trading_bot.StrategyEngine.Models.{Time}
use save_money_trading_bot.MarketData.Models.{NormalizedCandle}
use save_money_trading_bot.MarketData.Validation.{insert_candle, sort_candles}

module _ (p : NormalizedCandle → Bool) where
  any-insert :
      (c : NormalizedCandle) (ds : List NormalizedCandle)
      → any p (insert_candle c ds) ≡ (p c || any p ds)
  unfolding insert_candle
  any-insert c [] = refl
  any-insert c (d ∷ ds) = ground (arith, any-insert c ds)

  pub any-sort : (cs : List NormalizedCandle) → any p (sort_candles cs) ≡ any p cs
  unfolding sort_candles
  any-sort [] = refl
  any-sort (c ∷ cs) = any-insert c (sort_candles cs) ∙ ap (λ b. p c || b) (any-sort cs)

-- Open times that do not fall.
abbrev pub InOrder : List NormalizedCandle → Type 0
InOrder [] = Unit
InOrder (c ∷ cs) = All (λ (d : NormalizedCandle). c.open_time ≤ d.open_time) cs × InOrder cs

insert-All :
    (P : NormalizedCandle → Type 0) (c : NormalizedCandle) (ds : List NormalizedCandle)
    → P c
    → All P ds
    → All P (insert_candle c ds)
unfolding insert_candle
insert-All P c [] p h = (p, tt)
insert-All P c (d ∷ ds) p h = elim (Bool-cases (leb c.open_time d.open_time)) [
  | inl before ↦ rw before (p, h)
  | inr later ↦ rw later (h.0, insert-All P c ds p h.1)
]

pub sort-All :
    (P : NormalizedCandle → Type 0) (cs : List NormalizedCandle)
    → All P cs
    → All P (sort_candles cs)
unfolding sort_candles
sort-All P [] h = tt
sort-All P (c ∷ cs) h = insert-All P c (sort_candles cs) h.0 (sort-All P cs h.1)

all_after :
    (c d : NormalizedCandle) (ds : List NormalizedCandle)
    → c.open_time ≤ d.open_time
    → All (λ (e : NormalizedCandle). d.open_time ≤ e.open_time) ds
    → All (λ (e : NormalizedCandle). c.open_time ≤ e.open_time) ds
all_after c d [] b h = tt
all_after c d (e ∷ ds) b h = (omega (arith, h.0), all_after c d ds b h.1)

insert-InOrder :
    (c : NormalizedCandle) (ds : List NormalizedCandle) → InOrder ds → InOrder (insert_candle c ds)
unfolding insert_candle
insert-InOrder c [] h = (tt, tt)
insert-InOrder c (d ∷ ds) h = elim (Bool-cases (leb c.open_time d.open_time)) [
  | inl before ↦
      let c_d : c.open_time ≤ d.open_time = ground (arith, before) in
      rw before ((c_d, all_after c d ds c_d h.0), h)
  | inr later ↦ rw later (
    insert-All (λ (e : NormalizedCandle). d.open_time ≤ e.open_time) c ds (ground (arith, later))
        h.0,
    insert-InOrder c ds h.1,
  )
]

pub sort-InOrder : (cs : List NormalizedCandle) → InOrder (sort_candles cs)
unfolding sort_candles
sort-InOrder [] = tt
sort-InOrder (c ∷ cs) = insert-InOrder c (sort_candles cs) (sort-InOrder cs)

-- Where some candle opens by a time, the first in order does.
pub first_opens_by :
    (t : Time) (c : NormalizedCandle) (cs : List NormalizedCandle)
    → InOrder (c ∷ cs)
    → any (λ (d : NormalizedCandle). leb d.open_time t) (c ∷ cs) ≡ true
    → c.open_time ≤ t
first_opens_by t c [] h some_by = ground (arith, some_by)
first_opens_by t c (d ∷ cs) h some_by = elim (Bool-cases (leb c.open_time t)) [
  | inl first ↦ ground (arith, first)
  | inr not_first ↦
      let d_t = first_opens_by t d cs h.1 (ground (arith, some_by, not_first)) in
      omega (arith, (h.0).0)
]

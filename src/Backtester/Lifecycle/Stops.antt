-- ===== src/Backtester/Lifecycle/Stops.antt =====
-- When a stop fires, and at what price.
use save_money_trading_bot.Prelude.{◌≡◌, ◌↔◌, ◌⊎◌, inl, inr, true, none, some, arith, Bool-cases}
use save_money_trading_bot.Decimal.{Decimal, le, lt}
use save_money_trading_bot.Decimal.Order.{
  le_of_lt, le_trans, le_of_not_lt, le_refl, lt_of_not_le, not_le_of_lt, not_lt_of_le,
}
use save_money_trading_bot.StrategyEngine.Models.{Candle}
use save_money_trading_bot.Backtester.Lifecycle.{compute_stop_trigger, StopTriggerResult}

-- A candle whose low is not above its open.
abbrev pub LowBounds : Candle → Type 0
LowBounds c = le c.low c.open_price ≡ true

-- On a candle whose low is at most its open, no stop fires exactly where the low stays above the
-- effective stop.
pub compute_stop_trigger-none :
    (c : Candle) (effective initial trail : Decimal)
    → LowBounds c
    → (compute_stop_trigger c effective initial trail ≡ none) ↔ (lt effective c.low ≡ true)
unfolding compute_stop_trigger
compute_stop_trigger-none c effective initial trail h = (
  (λ e. lt_of_not_le c.low effective (ground arith)),
  (λ above.
      let over = not_le_of_lt effective c.low above in
      let open_over =
        not_lt_of_le effective c.open_price
          (le_trans effective c.low c.open_price (le_of_lt effective c.low above) h) in
      ground (arith, over, open_over)),
)

-- A stop that fires exits at the open or at the effective stop, whichever is lower: the exit is one of
-- the two, and above neither.
pub compute_stop_trigger-le :
    (c : Candle) (effective initial trail : Decimal) (t : StopTriggerResult)
    → compute_stop_trigger c effective initial trail ≡ some t
    → (le t.exit_reference effective ≡ true)
      × (le t.exit_reference c.open_price ≡ true)
      × ((t.exit_reference ≡ c.open_price) ⊎ (t.exit_reference ≡ effective))
unfolding compute_stop_trigger
compute_stop_trigger-le c effective initial trail t h =
    elim (Bool-cases (lt c.open_price effective)) [
      | inl gap ↦
          let below = le_of_lt c.open_price effective gap in
          ground (arith, below, le_refl c.open_price)
      | inr no_gap ↦
          let above = le_of_not_lt c.open_price effective no_gap in
          ground (arith, above, le_refl effective)
    ]

-- ===== src/Decimal/Division.antt =====
-- Division by a positive value raises nothing.
use save_money_trading_bot.Prelude.{◌≡◌, false, arith}
use save_money_trading_bot.Decimal.Defs.{Decimal, ok, nonpos, div, quotient, of_ℕ}

pub div_positive : (a b : Decimal) → nonpos b ≡ false → div a b ≡ ok (quotient a b)
unfolding div nonpos
div_positive a b h = ground arith

pub one_positive : nonpos (of_ℕ 1) ≡ false
unfolding nonpos
one_positive = ground arith

-- ===== src/RiskEngine/Rounding.antt =====
-- services/risk_engine/rounding.py
use save_money_trading_bot.Prelude.{if◌then◌else◌}
use save_money_trading_bot.Decimal.{
  Decimal, Exc, ok, raised, value_error, ◌>>=◌, nonpos, div, mul, truncate,
}

-- `floor_to_step`: the quotient is cut off to an integer and multiplied by the step again.
unfoldable pub floor_to_step : Decimal → Decimal → Exc Decimal
floor_to_step value step =
    if nonpos step then raised value_error else (do q ← div value step; ok (mul (truncate q) step))

unfoldable pub round_to_tick : Decimal → Decimal → Exc Decimal
round_to_tick price tick_size =
    if nonpos tick_size
    then raised value_error
    else (do q ← div price tick_size; ok (mul (truncate q) tick_size))

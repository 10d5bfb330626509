-- ===== src/StrategyEngine/Readings/Last.antt =====
-- The candle that the readings of `StrategyEngine.evaluate` stand on is the last daily one.
use save_money_trading_bot.Prelude.{◌≡◌, ◌-◌, length, arith}
use save_money_trading_bot.Decimal.{ok}
use save_money_trading_bot.StrategyEngine.Readings.{Request, Readings, item, read_indicators}

pub read_indicators-last :
    (r : Request) (x : Readings)
    → read_indicators r ≡ ok x
    → item r.daily_series.candles (length r.daily_series.candles - 1) ≡ ok x.candle_t
unfolding read_indicators
read_indicators-last r x h = ground arith

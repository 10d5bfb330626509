-- ===== src/Backtester/Execution.antt =====
-- services/backtester/execution.py: slippage, fees and funding.
use save_money_trading_bot.Decimal.{Decimal, Exc, ok, ◌>>=◌, of_ℕ, add, sub, mul, div, absolute}
use save_money_trading_bot.Backtester.Models.{SlippageModel}

unfoldable pub apply_entry_slippage : Decimal → SlippageModel → Exc Decimal
apply_entry_slippage reference model = do
  share ← div model.slippage_bps (of_ℕ 10000)
  ok (mul reference (add (of_ℕ 1) share))

unfoldable pub apply_exit_slippage : Decimal → SlippageModel → Exc Decimal
apply_exit_slippage reference model = do
  share ← div model.slippage_bps (of_ℕ 10000)
  ok (mul reference (sub (of_ℕ 1) share))

unfoldable pub compute_fee : (notional rate : Decimal) → Decimal
compute_fee notional rate = mul notional rate

unfoldable pub compute_slippage_cost : (reference fill quantity : Decimal) → Decimal
compute_slippage_cost reference fill quantity = mul (absolute (sub fill reference)) quantity

unfoldable pub compute_funding_payment : (notional funding_rate : Decimal) → Decimal
compute_funding_payment notional funding_rate = mul notional funding_rate

-- ===== src/RiskEngine/Portfolio.antt =====
-- services/risk_engine/portfolio.py: open risk, notional and leverage of the portfolio.
use save_money_trading_bot.Prelude.{List, map, if◌then◌else◌}
use save_money_trading_bot.Decimal.{
  Decimal, Exc, ok, ◌>>=◌, nonpos, add, sub, mul, div, max_dec, sum_from, zero_dec, of_ℕ,
}
use save_money_trading_bot.RiskEngine.Models.{PositionState, PortfolioRiskSnapshot}

abbrev pub effective_stop : Decimal → Decimal → Decimal
effective_stop stop_initial trail_stop = max_dec stop_initial trail_stop

unfoldable pub open_risk_usd : PositionState → Decimal
open_risk_usd p =
    mul p.position_size
      (max_dec zero_dec (sub p.entry_price (effective_stop p.stop_initial p.trail_stop)))

unfoldable pub current_open_risk_usd : List PositionState → Decimal
unfolding open_risk_usd
current_open_risk_usd positions = sum_from zero_dec (map open_risk_usd positions)

unfoldable pub total_notional_usd : List PositionState → Decimal
total_notional_usd positions =
    sum_from zero_dec (map (λ p. mul p.position_size p.mark_price) positions)

unfoldable pub build_portfolio_snapshot :
    (equity_usd : Decimal)
    → List PositionState
    → (new_entry_price new_quantity new_stop_distance : Decimal) → Exc PortfolioRiskSnapshot
build_portfolio_snapshot equity_usd positions new_entry_price new_quantity new_stop_distance = do
  let current = current_open_risk_usd positions
  let projected = add current (mul new_quantity new_stop_distance)
  let total_notional = total_notional_usd positions
  let projected_notional = add total_notional (mul new_quantity new_entry_price)
  let equity = if nonpos equity_usd then of_ℕ 1 else equity_usd
  current_pct ← div current equity
  projected_pct ← div projected equity
  leverage ← div projected_notional equity
  ok (record {
    current_open_risk_usd = current;
    current_open_risk_pct = current_pct;
    projected_portfolio_risk_usd = projected;
    projected_portfolio_risk_pct = projected_pct;
    total_notional_usd = total_notional;
    projected_notional_usd = projected_notional;
    effective_leverage = leverage;
  })

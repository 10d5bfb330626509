-- ===== src/RiskEngine/Validation/Accepted.antt =====
-- What each input check accepts: the check is silent exactly where the input satisfies its record.
use save_money_trading_bot.Prelude.{◌≤◌, ◌<◌, ◌≡◌, ◌↔◌, true, false, none, arith}
use save_money_trading_bot.Decimal.{Decimal, nonpos, negative, lt, is_finite}
use save_money_trading_bot.RiskEngine.Models.{
  default_risk_per_trade_pct, default_max_portfolio_risk_pct, default_max_open_positions,
  default_max_leverage, RiskParameters, SymbolConstraints, AccountState,
}
use save_money_trading_bot.RiskEngine.Constraints.{
  is_step_aligned, validate_symbol_constraints_core,
}
use save_money_trading_bot.RiskEngine.Validation.{
  validate_account, validate_constraints, validate_parameters,
}

-- Finite and greater than zero.
abbrev pub IsPositive : Decimal → Type 0
IsPositive v = (is_finite v ≡ true) × (nonpos v ≡ false)

abbrev pub InLimit : Decimal → Decimal → Type 0
InLimit v maximum = IsPositive v × (lt maximum v ≡ false)

pub record AccountAccepted (a : AccountState) : Type 0 where
  pub equity : IsPositive a.equity_usd
  pub margin : (is_finite a.available_margin_usd ≡ true) × (negative a.available_margin_usd ≡ false)

-- The account check is silent exactly for finite values, a positive equity and a margin that is not
-- negative.
pub validate_account_iff : (a : AccountState) → (validate_account a ≡ none) ↔ AccountAccepted a
unfolding validate_account
validate_account_iff a = ((λ h. ground arith), (λ h. ground arith))

pub record ParametersAccepted (p : RiskParameters) : Type 0 where
  pub risk : InLimit p.risk_per_trade_pct default_risk_per_trade_pct
  pub portfolio : InLimit p.max_portfolio_risk_pct default_max_portfolio_risk_pct
  pub leverage : InLimit p.max_leverage default_max_leverage
  pub positions : (0 < p.max_open_positions) × (p.max_open_positions ≤ default_max_open_positions)
  pub tolerance :
      (is_finite p.risk_rounding_tolerance ≡ true) × (negative p.risk_rounding_tolerance ≡ false)

-- The parameter check is silent exactly for finite limits above zero and up to their frozen maxima, and
-- a finite rounding tolerance that is not negative.
pub validate_parameters_iff :
    (p : RiskParameters) → (validate_parameters p ≡ none) ↔ ParametersAccepted p
unfolding validate_parameters
validate_parameters_iff p = ((λ h. ground arith), (λ h. ground arith))

pub record ConstraintsAccepted (c : SymbolConstraints) : Type 0 where
  pub tick : IsPositive c.price_tick_size
  pub step : IsPositive c.quantity_step
  pub minimum : IsPositive c.minimum_quantity
  pub notional : (is_finite c.minimum_notional ≡ true) × (negative c.minimum_notional ≡ false)
  pub one_step : lt c.minimum_quantity c.quantity_step ≡ false
  pub aligned : is_step_aligned c.minimum_quantity c.quantity_step ≡ true

-- The constraint check is silent exactly for a finite positive tick, step and minimum, a finite minimum
-- notional that is not negative, and a minimum of one step or more that passes the alignment test.
pub validate_constraints_iff :
    (c : SymbolConstraints) → (validate_constraints c ≡ none) ↔ ConstraintsAccepted c
unfolding validate_constraints validate_symbol_constraints_core
validate_constraints_iff c = ((λ h. ground arith), (λ h. ground arith))

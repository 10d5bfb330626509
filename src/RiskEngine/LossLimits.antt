-- ===== src/RiskEngine/LossLimits.antt =====
-- services/risk_engine/validation.py, `check_loss_limits`: the optional daily, weekly and drawdown
-- limits. An enabled limit with a missing or malformed value rejects.
pub mod Limits
use save_money_trading_bot.Prelude.{String, Bool, not, ◌||◌, Option, none, some, if◌then◌else◌}
use save_money_trading_bot.Decimal.{
  Decimal, Exc, ok, raised, ◌>>=◌, nonpos, negative, lt, div, sub, absolute, is_finite,
}
use save_money_trading_bot.RiskEngine.Models.{
  LossLimitConfig, RiskParameters, AccountState, RiskError,
}
use save_money_trading_bot.RiskEngine.Validation.{data_error}

-- The body of the daily and of the weekly limit, once it is enabled.
unfoldable pub check_loss_limit :
    Option Decimal → Decimal → Decimal → String → String → Exc (Option RiskError)
check_loss_limit none pnl equity invalid reached = ok (some (data_error invalid))
check_loss_limit (some max_loss_pct) pnl equity invalid reached =
    if not (is_finite max_loss_pct) || (negative max_loss_pct || not (is_finite pnl))
    then ok (some (data_error invalid))
    else if negative pnl
    then (do
      loss_pct ← div (absolute pnl) equity
      ok (if lt max_loss_pct loss_pct then some (data_error reached) else none))
    else ok none

-- The body of the drawdown limit, once it is enabled.
unfoldable pub check_drawdown : Option Decimal → Option Decimal → Decimal → Exc (Option RiskError)
check_drawdown (some max_drawdown_pct) (some peak) equity =
    if not (is_finite max_drawdown_pct)
      || (negative max_drawdown_pct || (not (is_finite peak) || nonpos peak))
    then ok (some (data_error "Drawdown limit enabled but configuration incomplete"))
    else (do
      drawdown ← div (sub peak equity) peak
      ok (
          if lt max_drawdown_pct drawdown
          then some (data_error "Drawdown limit reached")
          else none))
check_drawdown _ _ equity =
    ok (some (data_error "Drawdown limit enabled but configuration incomplete"))

-- A limit that is off passes; the first error ends the function.
unfoldable pub when_enabled : Bool → Exc (Option RiskError) → Exc (Option RiskError)
when_enabled enabled check = if enabled then check else ok none

infixr 6 ◌or_else◌
unfoldable pub ◌or_else◌ : Exc (Option RiskError) → Exc (Option RiskError) → Exc (Option RiskError)
raised e or_else next = raised e
ok (some e) or_else next = ok (some e)
ok none or_else next = next

unfoldable pub check_loss_limits : AccountState → RiskParameters → Exc (Option RiskError)
unfolding check_loss_limit check_drawdown when_enabled ◌or_else◌
check_loss_limits account params =
    when_enabled cfg.daily_loss_limit_enabled (
      check_loss_limit cfg.max_daily_loss_pct account.daily_realized_pnl_usd account.equity_usd
        "Daily loss limit configuration or account value invalid" "Daily loss limit reached")
    or_else when_enabled cfg.weekly_loss_limit_enabled (
        check_loss_limit cfg.max_weekly_loss_pct account.weekly_realized_pnl_usd account.equity_usd
          "Weekly loss limit configuration or account value invalid" "Weekly loss limit reached")
    or_else when_enabled cfg.drawdown_limit_enabled
        (check_drawdown cfg.max_drawdown_pct account.peak_equity_usd account.equity_usd)
  where
    cfg : LossLimitConfig
    cfg = params.loss_limits

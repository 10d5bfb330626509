-- ===== src/RiskEngine/LossLimits/Limits.antt =====
-- What `check_loss_limits` lets through, and that it never raises.
use save_money_trading_bot.Prelude.{
  ◌≡◌, ◌≢◌, refl, String, Bool, true, false, Option, none, some, arith,
}
use save_money_trading_bot.Decimal.{
  Decimal, Exc, ok, raised, Fault, nonpos, negative, le, sub, quotient, absolute,
}
use save_money_trading_bot.Decimal.Division.{div_positive}
use save_money_trading_bot.Decimal.Order.{le_of_not_lt}
use save_money_trading_bot.RiskEngine.Models.{
  RiskParameters, AccountState, RiskError, LossLimitConfig,
}
use save_money_trading_bot.RiskEngine.LossLimits.{
  check_loss_limit, check_drawdown, when_enabled, ◌or_else◌, check_loss_limits,
}

-- An enabled limit is set, and a loss is within it.
pub record LossWithin (max_loss_pct : Option Decimal) (pnl equity : Decimal) : Type 0 where
  pub limit : Decimal
  pub limit_lem : max_loss_pct ≡ some limit
  pub limit_valid : negative limit ≡ false
  pub loss : negative pnl ≡ true → le (quotient (absolute pnl) equity) limit ≡ true

pub record DrawdownWithin (max_pct peak : Option Decimal) (equity : Decimal) : Type 0 where
  pub limit : Decimal
  pub limit_lem : max_pct ≡ some limit
  pub limit_valid : negative limit ≡ false
  pub highest : Decimal
  pub highest_lem : peak ≡ some highest
  pub highest_valid : nonpos highest ≡ false
  pub drawdown : le (quotient (sub highest equity) highest) limit ≡ true

loss_limit_within :
    (o : Option Decimal) (pnl equity : Decimal) (m n : String)
    → nonpos equity ≡ false
    → check_loss_limit o pnl equity m n ≡ ok none
    → LossWithin o pnl equity
unfolding check_loss_limit
loss_limit_within none pnl equity m n he h = cc
loss_limit_within (some l) pnl equity m n he h = record {
  limit = l;
  limit_lem = refl;
  limit_valid = ground arith;
  loss = λ neg.
      ground (
        arith,
        div_positive (absolute pnl) equity,
        le_of_not_lt l (quotient (absolute pnl) equity),
      );
}

drawdown_within :
    (o peak : Option Decimal) (equity : Decimal)
    → check_drawdown o peak equity ≡ ok none
    → DrawdownWithin o peak equity
unfolding check_drawdown
drawdown_within (some l) (some p) equity h = record {
  limit = l;
  limit_lem = refl;
  limit_valid = ground arith;
  highest = p;
  highest_lem = refl;
  highest_valid = ground arith;
  drawdown =
      ground (arith, div_positive (sub p equity) p, le_of_not_lt l (quotient (sub p equity) p));
}
drawdown_within (some l) none equity h = cc
drawdown_within none p equity h = cc

loss_limit_quiet :
    (o : Option Decimal) (pnl equity : Decimal) (m n : String) {e : Fault}
    → nonpos equity ≡ false
    → check_loss_limit o pnl equity m n ≢ raised e
unfolding check_loss_limit
loss_limit_quiet none pnl equity m n he h = cc
loss_limit_quiet (some l) pnl equity m n he h = ground (arith, div_positive (absolute pnl) equity)

drawdown_quiet :
    (o peak : Option Decimal) (equity : Decimal) {e : Fault}
    → check_drawdown o peak equity ≢ raised e
unfolding check_drawdown
drawdown_quiet (some l) (some p) equity h = ground (arith, div_positive (sub p equity) p)
drawdown_quiet (some l) none equity h = cc
drawdown_quiet none p equity h = cc

when_enabled-none :
    (b : Bool) (m : Exc (Option RiskError)) → when_enabled b m ≡ ok none → b ≡ true → m ≡ ok none
unfolding when_enabled
when_enabled-none true m h e = h
when_enabled-none false m h e = cc

when_enabled_quiet :
    (b : Bool) (m : Exc (Option RiskError)) {e : Fault} → m ≢ raised e → when_enabled b m ≢ raised e
unfolding when_enabled
when_enabled_quiet true m q h = q h
when_enabled_quiet false m q h = cc

or_else-none :
    (m n : Exc (Option RiskError)) → (m or_else n) ≡ ok none → (m ≡ ok none) × (n ≡ ok none)
unfolding ◌or_else◌
or_else-none (raised e) n h = cc
or_else-none (ok (some e)) n h = cc
or_else-none (ok none) n h = (refl, h)

or_else_quiet :
    (m n : Exc (Option RiskError)) {e : Fault}
    → m ≢ raised e
    → n ≢ raised e
    → (m or_else n) ≢ raised e
unfolding ◌or_else◌
or_else_quiet (raised e) n hm hn h = hm h
or_else_quiet (ok (some e)) n hm hn h = cc
or_else_quiet (ok none) n hm hn h = hn h

-- The limits that an account is held to.
pub record LossesAccepted (a : AccountState) (cfg : LossLimitConfig) : Type 0 where
  pub daily :
      cfg.daily_loss_limit_enabled ≡ true
      → LossWithin cfg.max_daily_loss_pct a.daily_realized_pnl_usd a.equity_usd
  pub weekly :
      cfg.weekly_loss_limit_enabled ≡ true
      → LossWithin cfg.max_weekly_loss_pct a.weekly_realized_pnl_usd a.equity_usd
  pub drawdown :
      cfg.drawdown_limit_enabled ≡ true
      → DrawdownWithin cfg.max_drawdown_pct a.peak_equity_usd a.equity_usd

-- With a positive equity, a silent check means that every enabled limit is set to a value that is not
-- negative and is kept: a daily or weekly loss, as a share of the equity, and the drawdown from a
-- positive peak, are at most the limit.
pub check_loss_limits-LossesAccepted :
    (a : AccountState) (p : RiskParameters)
    → nonpos a.equity_usd ≡ false
    → check_loss_limits a p ≡ ok none
    → LossesAccepted a p.loss_limits
unfolding check_loss_limits
check_loss_limits-LossesAccepted a p he h =
    let (d, rest) = or_else-none _ _ h in
    let (w, dd) = or_else-none _ _ rest in
    record {
      daily = λ e. loss_limit_within _ _ _ _ _ he (when_enabled-none _ _ d e);
      weekly = λ e. loss_limit_within _ _ _ _ _ he (when_enabled-none _ _ w e);
      drawdown = λ e. drawdown_within _ _ _ (when_enabled-none _ _ dd e);
    }

pub check_loss_limits_quiet :
    (a : AccountState) (p : RiskParameters) {e : Fault}
    → nonpos a.equity_usd ≡ false
    → check_loss_limits a p ≢ raised e
unfolding check_loss_limits
check_loss_limits_quiet a p he =
    or_else_quiet _ _
      (when_enabled_quiet l.daily_loss_limit_enabled _ (
        loss_limit_quiet l.max_daily_loss_pct a.daily_realized_pnl_usd a.equity_usd
          "Daily loss limit configuration or account value invalid" "Daily loss limit reached" he))
      (or_else_quiet _ _
        (when_enabled_quiet l.weekly_loss_limit_enabled _ (
          loss_limit_quiet l.max_weekly_loss_pct a.weekly_realized_pnl_usd a.equity_usd
            "Weekly loss limit configuration or account value invalid" "Weekly loss limit reached"
            he))
        (when_enabled_quiet l.drawdown_limit_enabled _
          (drawdown_quiet l.max_drawdown_pct a.peak_equity_usd a.equity_usd)))
  where
    open p use {loss_limits as l}

-- ===== src/RiskEngine/Sizing/Cap.antt =====
-- What the risk cap, the caps by leverage and by margin and the sizing return.
use save_money_trading_bot.Prelude.{
  ℕ, zero, suc, ◌≡◌, inl, inr, true, false, none, some, arith, Bool-cases,
}
use save_money_trading_bot.Decimal.{Decimal, ok, Exc-cases, le, sub, mul, div, zero_dec}
use save_money_trading_bot.Decimal.Order.{le_refl, min-le_left}
use save_money_trading_bot.RiskEngine.Models.{PositionSizingResult, RiskParameters}
use save_money_trading_bot.RiskEngine.Sizing.{
  CapInputs, trade_limit, within_risk, step_down, cap_loop, apply_risk_cap_after_rounding, rounds,
  compute_position_sizing, cap_quantity_for_leverage, cap_quantity_for_margin,
}

-- A quantity that the cap lets through keeps the trade within the budget and the tolerance.
pub record IsCapped (i : CapInputs) (q : Decimal) : Type 0 where
  pub at_least_minimum : le i.minimum_quantity q ≡ true
  pub within_budget : le (mul q i.stop_distance_usd) i.risk_budget_usd ≡ true
  pub pct : Decimal
  pub pct_lem : div (mul q i.stop_distance_usd) i.equity_usd ≡ ok pct
  pub within_tolerance : le pct (trade_limit i.params) ≡ true

within_risk-IsCapped :
    (i : CapInputs) (q : Decimal)
    → le i.minimum_quantity q ≡ true
    → within_risk i q ≡ ok true
    → IsCapped i q
unfolding within_risk
within_risk-IsCapped i q m h = elim (Exc-cases (div (mul q i.stop_distance_usd) i.equity_usd)) [
  | inr (e, raises) ↦ ground arith
  | inl (p, ep) ↦ record {
    at_least_minimum = m;
    within_budget = ground arith;
    pct = p;
    pct_lem = ep;
    within_tolerance = ground arith;
  }
]

cap_loop-IsCapped :
    (i : CapInputs) (fuel : ℕ) (qty : Decimal) {q : Decimal}
    → cap_loop i fuel qty ≡ ok (some q)
    → IsCapped i q
unfolding cap_loop
cap_loop-IsCapped i zero qty h = cc
cap_loop-IsCapped i (suc fuel) qty {q} h = elim (Bool-cases (le i.minimum_quantity qty)) [
  | inr below ↦ ground arith
  | inl enough ↦ elim (Exc-cases (within_risk i qty)) [
    | inr (e, raises) ↦ ground arith
    | inl (true, e) ↦
        let same : qty ≡ q = ground arith in rw (← same) (within_risk-IsCapped i qty enough e)
    | inl (false, e) ↦ elim (Exc-cases (step_down i qty)) [
      | inr (f, raises) ↦ ground arith
      | inl (none, s) ↦ ground arith
      | inl (some next, s) ↦ cap_loop-IsCapped i fuel next (ground arith)
    ]
  ]
]

pub apply_risk_cap-IsCapped :
    (i : CapInputs) (qty q : Decimal)
    → apply_risk_cap_after_rounding i qty ≡ ok (some q)
    → IsCapped i q
unfolding apply_risk_cap_after_rounding
apply_risk_cap-IsCapped i qty q h = elim (Exc-cases (rounds qty i.quantity_step)) [
  | inr (e, raises) ↦ ground arith
  | inl (fuel, e) ↦ cap_loop-IsCapped i fuel qty (ground arith)
]

-- The sizing reports the distance from the entry to the stop.
pub stop_distance-sizing :
    (equity entry stop step minimum : Decimal) (params : RiskParameters) (s : PositionSizingResult)
    → compute_position_sizing equity entry stop step minimum params ≡ ok (some s)
    → s.stop_distance_usd ≡ sub entry stop
unfolding compute_position_sizing
stop_distance-sizing equity entry stop step minimum params s h = ground arith

-- The cap by leverage returns at most what it is given.
pub cap_quantity_for_leverage-le :
    (quantity entry equity notional step max_leverage : Decimal) (q : Decimal)
    → le zero_dec quantity ≡ true
    → cap_quantity_for_leverage quantity entry equity notional step max_leverage ≡ ok q
    → le q quantity ≡ true
unfolding cap_quantity_for_leverage
cap_quantity_for_leverage-le quantity entry equity notional step max_leverage q nonneg h =
    grind (arith, le_refl quantity, min-le_left)

-- The cap by margin returns at most what it is given.
pub cap_quantity_for_margin-le :
    (quantity entry margin max_leverage step : Decimal) (q : Decimal)
    → le zero_dec quantity ≡ true
    → cap_quantity_for_margin quantity entry margin max_leverage step ≡ ok q
    → le q quantity ≡ true
unfolding cap_quantity_for_margin
cap_quantity_for_margin-le quantity entry margin max_leverage step q nonneg h =
    grind (arith, le_refl quantity, min-le_left)

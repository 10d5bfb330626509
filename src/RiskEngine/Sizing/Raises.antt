-- ===== src/RiskEngine/Sizing/Raises.antt =====
-- With positive equity, prices, steps and leverage the sizing functions divide by no zero: the only
-- fault left is the fuel of the loop.
use save_money_trading_bot.Prelude.{
  ℕ, zero, suc, ◌≡◌, ◌≢◌, inl, inr, true, false, Option, none, some, List, arith, Bool-cases,
}
use save_money_trading_bot.Decimal.{
  Decimal, ok, raised, Fault, out_of_fuel, Exc-cases, nonpos, sub, mul, add, div, quotient,
  truncate, le,
}
use save_money_trading_bot.Decimal.Division.{div_positive}
use save_money_trading_bot.RiskEngine.Models.{RiskParameters, PositionState}
use save_money_trading_bot.RiskEngine.Rounding.{floor_to_step, round_to_tick}
use save_money_trading_bot.RiskEngine.Sizing.{
  CapInputs, within_risk, step_down, cap_loop, rounds, apply_risk_cap_after_rounding, sizing_inputs,
  compute_position_sizing, sized, cap_quantity_for_leverage, cap_quantity_for_margin,
}
use save_money_trading_bot.RiskEngine.Portfolio.{build_portfolio_snapshot}

pub floor_to_step_ok :
    (v s : Decimal) → nonpos s ≡ false → floor_to_step v s ≡ ok (mul (truncate (quotient v s)) s)
unfolding floor_to_step
floor_to_step_ok v s h = ground (arith, div_positive v s)

pub round_to_tick_ok :
    (v s : Decimal) → nonpos s ≡ false → round_to_tick v s ≡ ok (mul (truncate (quotient v s)) s)
unfolding round_to_tick
round_to_tick_ok v s h = ground (arith, div_positive v s)

module _ (i : CapInputs) (eq_pos : nonpos i.equity_usd ≡ false)
    (st : nonpos i.quantity_step ≡ false) where
  pub within_risk_quiet : (q : Decimal) {e : Fault} → within_risk i q ≢ raised e
  unfolding within_risk
  within_risk_quiet q h = ground (arith, div_positive (mul q i.stop_distance_usd) i.equity_usd)

  step_down_quiet : (q : Decimal) {e : Fault} → step_down i q ≢ raised e
  unfolding step_down
  step_down_quiet q h = ground (arith, floor_to_step_ok (sub q i.quantity_step) i.quantity_step)

  cap_loop_quiet :
      (fuel : ℕ) (q : Decimal) {e : Fault} → cap_loop i fuel q ≡ raised e → e ≡ out_of_fuel
  unfolding cap_loop
  cap_loop_quiet zero q h = cc
  cap_loop_quiet (suc fuel) q h = elim (Bool-cases (le i.minimum_quantity q)) [
    | inr below ↦ ground arith
    | inl enough ↦ elim (Exc-cases (within_risk i q)) [
      | inr (f, raises) ↦ absurd (within_risk_quiet q raises)
      | inl (true, e) ↦ ground arith
      | inl (false, e) ↦ elim (Exc-cases (step_down i q)) [
        | inr (f, raises) ↦ absurd (step_down_quiet q raises)
        | inl (none, s) ↦ ground arith
        | inl (some next, s) ↦ cap_loop_quiet fuel next (ground arith)
      ]
    ]
  ]

  pub apply_risk_cap_quiet :
      (q : Decimal) {e : Fault} → apply_risk_cap_after_rounding i q ≡ raised e → e ≡ out_of_fuel
  unfolding apply_risk_cap_after_rounding
  apply_risk_cap_quiet q h = elim (Exc-cases (rounds q i.quantity_step)) [
    | inl (fuel, r) ↦ cap_loop_quiet fuel q (ground arith)
    | inr (f, raises) ↦ ground (arith, div_positive q i.quantity_step)
  ]

pub cap_quantity_for_leverage_quiet :
    (q entry equity notional step lev : Decimal)
    → nonpos equity ≡ false
    → nonpos entry ≡ false
    → nonpos step ≡ false
    → {e : Fault} → cap_quantity_for_leverage q entry equity notional step lev ≢ raised e
unfolding cap_quantity_for_leverage
cap_quantity_for_leverage_quiet q entry equity notional step lev he hp hs h = ground (
  arith,
  div_positive (add notional (mul q entry)) equity,
  div_positive (sub (mul lev equity) notional) entry,
  floor_to_step_ok (quotient (sub (mul lev equity) notional) entry) step,
)

pub cap_quantity_for_margin_quiet :
    (q entry margin lev step : Decimal)
    → nonpos lev ≡ false
    → nonpos entry ≡ false
    → nonpos step ≡ false
    → {e : Fault} → cap_quantity_for_margin q entry margin lev step ≢ raised e
unfolding cap_quantity_for_margin
cap_quantity_for_margin_quiet q entry margin lev step hl hp hs h = ground (
  arith,
  div_positive (mul q entry) lev,
  div_positive (mul margin lev) entry,
  floor_to_step_ok (quotient (mul margin lev) entry) step,
)

pub snapshot_quiet :
    (equity : Decimal) (ps : List PositionState) (entry q dist : Decimal) {e : Fault}
    → nonpos equity ≡ false
    → build_portfolio_snapshot equity ps entry q dist ≢ raised e
unfolding build_portfolio_snapshot
snapshot_quiet equity ps entry q dist he h = grind (arith, div_positive)

sized_quiet :
    (equity budget dist raw : Decimal) (o : Option Decimal) {e : Fault}
    → nonpos equity ≡ false
    → sized equity budget dist raw o ≢ raised e
unfolding sized
sized_quiet equity budget dist raw none he h = cc
sized_quiet equity budget dist raw (some q) he h = ground (arith, div_positive (mul q dist) equity)

pub compute_position_sizing_quiet :
    (equity entry stop step minimum : Decimal) (params : RiskParameters)
    → nonpos equity ≡ false
    → nonpos step ≡ false
    → {e : Fault} → compute_position_sizing equity entry stop step minimum params ≡ raised e
    → e ≡ out_of_fuel
unfolding compute_position_sizing
compute_position_sizing_quiet equity entry stop step minimum params he hs h =
    elim (Bool-cases (nonpos (sub entry stop))) [
      | inl narrow ↦ ground arith
      | inr wide ↦ elim (Bool-cases (nonpos rounded)) [
        | inl nothing ↦ ground (arith, raw_ok wide, rounded_ok)
        | inr some_quantity ↦ elim (Exc-cases (apply_risk_cap_after_rounding inputs rounded)) [
          | inr (f, raises) ↦
              ground
                (arith, raw_ok wide, rounded_ok, apply_risk_cap_quiet inputs he hs rounded raises)
          | inl (o, done) ↦ elim (Exc-cases (sized equity budget dist raw o)) [
            | inr (f, raises) ↦ absurd (sized_quiet equity budget dist raw o he raises)
            | inl (s, ends) ↦ ground (arith, raw_ok wide, rounded_ok)
          ]
        ]
      ]
    ]
  where
    dist : Decimal
    dist = sub entry stop

    budget : Decimal
    budget = mul equity params.risk_per_trade_pct

    raw : Decimal
    raw = quotient budget dist

    rounded : Decimal
    rounded = mul (truncate (quotient raw step)) step

    inputs : CapInputs
    inputs = sizing_inputs equity dist step minimum params

    raw_ok : nonpos dist ≡ false → div budget dist ≡ ok raw
    raw_ok w = div_positive budget dist w

    rounded_ok : floor_to_step raw step ≡ ok rounded
    rounded_ok = floor_to_step_ok raw step hs

-- ===== src/RiskEngine/Engine/Stages.antt =====
-- What a stage of `evaluate` that goes on has established.
use save_money_trading_bot.Prelude.{◌<◌, ◌≡◌, inl, inr, false, none, some, [], arith, length}
use save_money_trading_bot.Decimal.{Exc-cases, Decimal, ok, nonpos, lt, mul, div}
use save_money_trading_bot.RiskEngine.Models.{PositionSizingResult, PortfolioRiskSnapshot}
use save_money_trading_bot.RiskEngine.Rounding.{round_to_tick}
use save_money_trading_bot.RiskEngine.Validation.{
  validate_account, validate_constraints, validate_parameters, validate_open_positions,
  validate_proposal, validate_long_stop, seen,
}
use save_money_trading_bot.RiskEngine.LossLimits.{check_loss_limits}
use save_money_trading_bot.RiskEngine.Sizing.{
  apply_risk_cap_after_rounding, cap_quantity_for_leverage, cap_quantity_for_margin,
  compute_position_sizing,
}
use save_money_trading_bot.RiskEngine.Portfolio.{total_notional_usd}
use save_money_trading_bot.RiskEngine.Step.{go}
use save_money_trading_bot.RiskEngine.Engine.{
  Request, check_inputs, rounded_stop, check_slots, sized_quantity, capped_quantity,
  check_portfolio, holds_symbol, has_entry_order, cap_inputs,
}

-- The inputs pass every check.
pub record InputsPass (r : Request) : Type 0 where
  pub parameters : validate_parameters r.p ≡ none
  pub account : validate_account r.account ≡ none
  pub constraints : validate_constraints r.constraints ≡ none
  pub proposal : validate_proposal r.proposal ≡ []
  pub positions : validate_open_positions r.open_positions ≡ none
  pub losses : check_loss_limits r.account r.p ≡ ok none

pub check_inputs-InputsPass : (r : Request) → check_inputs r ≡ go tt → InputsPass r
unfolding check_inputs
check_inputs-InputsPass r h = ground arith

pub rounded_stop_lem :
    (r : Request) {stop : Decimal}
    → rounded_stop r ≡ go stop
    → (round_to_tick r.proposal.stop_price r.constraints.price_tick_size ≡ ok stop)
      × (validate_long_stop r.proposal.entry_price stop ≡ none)
unfolding rounded_stop
rounded_stop_lem r h = ground arith

-- No duplicate, and a free slot.
pub record SlotsFree (r : Request) : Type 0 where
  pub fresh : seen r.proposal.client_intent_id r.processed_intent_ids ≡ false
  pub no_position : holds_symbol r ≡ false
  pub no_order : has_entry_order r ≡ false
  pub room : length r.open_positions < r.p.max_open_positions

pub check_slots-SlotsFree : (r : Request) → check_slots r ≡ go tt → SlotsFree r
unfolding check_slots
check_slots-SlotsFree r h = ground arith

pub sized_quantity_lem :
    (r : Request) (stop : Decimal) {sizing : PositionSizingResult}
    → sized_quantity r stop ≡ go sizing
    → (compute_position_sizing r.account.equity_usd r.proposal.entry_price stop
          r.constraints.quantity_step r.constraints.minimum_quantity r.p
        ≡ ok (some sizing))
      × (nonpos sizing.rounded_quantity ≡ false)
unfolding sized_quantity
sized_quantity_lem r stop h = ground arith

pub record QuantityCapped (r : Request) (sizing : PositionSizingResult) (q : Decimal) : Type 0 where
  pub positive : nonpos q ≡ false
  pub at_least_minimum : lt q r.constraints.minimum_quantity ≡ false
  pub notional : lt (mul q r.proposal.entry_price) r.constraints.minimum_notional ≡ false
  pub by_leverage : Decimal
  pub by_margin : Decimal
  pub leverage_cap :
      cap_quantity_for_leverage sizing.rounded_quantity r.proposal.entry_price r.account.equity_usd
        (total_notional_usd r.open_positions)
        r.constraints.quantity_step
        r.p.max_leverage
      ≡ ok by_leverage
  pub margin_cap :
      cap_quantity_for_margin by_leverage r.proposal.entry_price r.account.available_margin_usd
        r.p.max_leverage r.constraints.quantity_step
      ≡ ok by_margin
  pub risk_cap : apply_risk_cap_after_rounding (cap_inputs r sizing) by_margin ≡ ok (some q)

pub capped_quantity-QuantityCapped :
    (r : Request) (sizing : PositionSizingResult) (q : Decimal)
    → capped_quantity r sizing ≡ go q
    → QuantityCapped r sizing q
unfolding capped_quantity
capped_quantity-QuantityCapped r sizing q h =
    elim (Exc-cases (
      cap_quantity_for_leverage sizing.rounded_quantity r.proposal.entry_price r.account.equity_usd
        (total_notional_usd r.open_positions) r.constraints.quantity_step r.p.max_leverage)) [
          | inr (e, raises) ↦ ground arith
          | inl (l, lev) ↦
              elim (Exc-cases (
                cap_quantity_for_margin l r.proposal.entry_price r.account.available_margin_usd
                  r.p.max_leverage r.constraints.quantity_step)) [
                    | inr (e, raises) ↦ ground arith
                    | inl (m, mar) ↦ record {
                      positive = ground arith;
                      at_least_minimum = ground arith;
                      notional = ground arith;
                      by_leverage = l;
                      by_margin = m;
                      leverage_cap = lev;
                      margin_cap = mar;
                      risk_cap = ground arith;
                    }
                  ]
        ]

pub check_portfolio_lem :
    (r : Request) (q : Decimal) (s : PortfolioRiskSnapshot) {margin : Decimal}
    → check_portfolio r q s ≡ go margin
    → (lt (mul r.account.equity_usd r.p.max_portfolio_risk_pct) s.projected_portfolio_risk_usd
        ≡ false)
      × (lt r.p.max_leverage s.effective_leverage ≡ false)
      × (div (mul q r.proposal.entry_price) r.p.max_leverage ≡ ok margin)
      × (lt r.account.available_margin_usd margin ≡ false)
unfolding check_portfolio
check_portfolio_lem r q s h = ground arith

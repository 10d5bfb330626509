-- ===== src/RiskEngine/Engine.antt =====
-- services/risk_engine/engine.py: `RiskEngine.evaluate`, in the stages of its source.
pub mod Stages
pub mod Approval
pub mod Faults
pub mod Refusals
pub mod Rejection
use save_money_trading_bot.Prelude.{
  String, Bool, true, false, ◌&&◌, Option, none, some, List, [], ◌∷◌, map, any, length, leb, str_eq,
  if◌then◌else◌,
}
use save_money_trading_bot.Decimal.{Decimal, nonpos, lt, mul, div}
use save_money_trading_bot.StrategyEngine.Codes.{
  ReasonCode, rc_reject_data, rc_reject_duplicate_symbol, rc_reject_max_positions,
  rc_reject_risk_trade, rc_reject_leverage, rc_reject_risk_portfolio, rc_risk_approved,
}
use save_money_trading_bot.RiskEngine.Models.{
  RiskParameters, SymbolConstraints, AccountState, PositionState, OpenOrderState, TradeProposal,
  PositionSizingResult, PortfolioRiskSnapshot, RiskError, RiskDecision,
}
use save_money_trading_bot.RiskEngine.Rounding.{round_to_tick}
use save_money_trading_bot.RiskEngine.Validation.{
  validate_account, validate_constraints, validate_parameters, validate_open_positions,
  validate_proposal, validate_long_stop, seen,
}
use save_money_trading_bot.RiskEngine.LossLimits.{check_loss_limits}
use save_money_trading_bot.RiskEngine.Sizing.{
  CapInputs, apply_risk_cap_after_rounding, cap_quantity_for_leverage, cap_quantity_for_margin,
  compute_position_sizing, sizing_inputs,
}
use save_money_trading_bot.RiskEngine.Portfolio.{total_notional_usd, build_portfolio_snapshot}
use save_money_trading_bot.RiskEngine.Step.{Step, go, reject, ◌>>=◌, ◌>>◌, call, reject_if}

-- The arguments of `evaluate`; `p` is `params or RiskParameters()`.
pub record Request : Type 0 where
  pub proposal : TradeProposal
  pub account : AccountState
  pub constraints : SymbolConstraints
  pub open_positions : List PositionState
  pub open_orders : List OpenOrderState
  pub processed_intent_ids : List String
  pub p : RiskParameters

-- `_reject`
unfoldable pub reject_decision :
    TradeProposal
    → (reason_codes : List ReasonCode) (errors : List RiskError) → RiskParameters
    → (current_open_risk : Option Decimal) → RiskDecision
reject_decision proposal reason_codes errors params current_open_risk = record {
  approved = false;
  symbol = proposal.symbol;
  requested_entry_price = proposal.entry_price;
  requested_stop_price = proposal.stop_price;
  raw_quantity = none;
  rounded_quantity = none;
  actual_trade_risk_usd = none;
  actual_trade_risk_pct = none;
  current_open_risk_usd = current_open_risk;
  projected_portfolio_risk_usd = none;
  projected_portfolio_risk_pct = none;
  required_margin_usd = none;
  effective_leverage = none;
  reason_codes = reason_codes;
  strategy_version = params.strategy_version;
  spec_version = params.spec_version;
  errors = errors;
}

-- `RiskError(code=code, message=message)`
abbrev pub risk_error : ReasonCode → String → RiskError
risk_error code message = record { code = code; message = message }

-- The one reason and the one error that a guard appends.
abbrev pub rejection : Request → (reason : ReasonCode) → RiskError → RiskDecision
rejection r reason error = reject_decision r.proposal (reason ∷ []) (error ∷ []) r.p none

-- A check's error, if there is one, is the decision.
abbrev pub pass : Request → Option RiskError → Step (Unit {0})
pass r none = go tt
pass r (some e) = reject (reject_decision r.proposal (e.code ∷ []) (e ∷ []) r.p none)

abbrev pub pass_all : Request → List RiskError → Step (Unit {0})
pass_all r [] = go tt
pass_all r (e ∷ es) =
    reject (reject_decision r.proposal (map (λ (x : RiskError). x.code) (e ∷ es)) (e ∷ es) r.p none)

-- The validation of the inputs, in the order of the source.
unfoldable pub check_inputs : Request → Step (Unit {0})
unfolding reject_decision
check_inputs r = do
  pass r (validate_parameters r.p)
  pass r (validate_account r.account)
  pass r (validate_constraints r.constraints)
  pass_all r (validate_proposal r.proposal)
  pass r (validate_open_positions r.open_positions)
  loss_err ← call (check_loss_limits r.account r.p)
  pass r loss_err

-- The stop, rounded to the tick, below the entry.
unfoldable pub rounded_stop : Request → Step Decimal
unfolding reject_decision
rounded_stop r = do
  stop_price ← call (round_to_tick r.proposal.stop_price r.constraints.price_tick_size)
  pass r (validate_long_stop r.proposal.entry_price stop_price)
  go stop_price

abbrev pub holds_symbol : Request → Bool
holds_symbol r = any (λ (pos : PositionState). str_eq pos.symbol r.proposal.symbol) r.open_positions

abbrev pub has_entry_order : Request → Bool
has_entry_order r =
    any (λ (o : OpenOrderState). str_eq o.symbol r.proposal.symbol && o.is_entry) r.open_orders

-- Duplicates and the number of positions.
unfoldable pub check_slots : Request → Step (Unit {0})
unfolding reject_decision
check_slots r = do
  reject_if (seen r.proposal.client_intent_id r.processed_intent_ids) (
      rejection r rc_reject_data
        (risk_error rc_reject_data "Duplicate client_intent_id already processed"))
  reject_if (holds_symbol r) (
      rejection r rc_reject_duplicate_symbol
        (risk_error rc_reject_duplicate_symbol "Position already open for symbol"))
  reject_if (has_entry_order r) (
      rejection r rc_reject_duplicate_symbol
        (risk_error rc_reject_duplicate_symbol "Conflicting open entry order for symbol"))
  reject_if (leb r.p.max_open_positions (length r.open_positions)) (
      rejection r rc_reject_max_positions
        (risk_error rc_reject_max_positions "Maximum open positions reached"))

abbrev pub sizing_or_reject : Request → Option PositionSizingResult → Step PositionSizingResult
sizing_or_reject r none =
    reject (rejection r rc_reject_data (risk_error rc_reject_data "Invalid stop distance"))
sizing_or_reject r (some sizing) = go sizing

-- The sizing, with a positive quantity.
unfoldable pub sized_quantity : Request → Decimal → Step PositionSizingResult
unfolding reject_decision
sized_quantity r stop_price = do
  result ← call (
      compute_position_sizing r.account.equity_usd r.proposal.entry_price stop_price
        r.constraints.quantity_step r.constraints.minimum_quantity r.p)
  sizing ← sizing_or_reject r result
  reject_if (nonpos sizing.rounded_quantity) (
      rejection r rc_reject_risk_trade
        (risk_error rc_reject_risk_trade "Quantity zero after rounding"))
  go sizing

abbrev pub capped_or_reject : Request → Option Decimal → Step Decimal
capped_or_reject r none = reject (
    rejection r rc_reject_leverage
      (risk_error rc_reject_leverage "Quantity insufficient after leverage/margin reduction"))
capped_or_reject r (some capped) =
    if nonpos capped
    then reject (
        rejection r rc_reject_leverage
          (risk_error rc_reject_leverage "Quantity insufficient after leverage/margin reduction"))
    else go capped

-- The inputs of the risk cap for a request and its sizing.
abbrev pub cap_inputs : Request → PositionSizingResult → CapInputs
cap_inputs r sizing =
    sizing_inputs r.account.equity_usd sizing.stop_distance_usd r.constraints.quantity_step
      r.constraints.minimum_quantity r.p

-- The exchange's minima.
unfoldable pub check_minima : Request → Decimal → Step Decimal
unfolding reject_decision
check_minima r quantity = do
  reject_if (lt quantity r.constraints.minimum_quantity) (
      rejection r rc_reject_risk_trade (risk_error rc_reject_risk_trade "Minimum quantity not met"))
  reject_if (lt (mul quantity r.proposal.entry_price) r.constraints.minimum_notional) (
      rejection r rc_reject_risk_trade (risk_error rc_reject_risk_trade "Minimum notional not met"))
  go quantity

-- The caps by leverage, margin and risk, then the exchange's minima.
unfoldable pub capped_quantity : Request → PositionSizingResult → Step Decimal
unfolding reject_decision check_minima
capped_quantity r sizing = do
  by_leverage ← call (
      cap_quantity_for_leverage sizing.rounded_quantity r.proposal.entry_price r.account.equity_usd
        (total_notional_usd r.open_positions) r.constraints.quantity_step r.p.max_leverage)
  by_margin ← call (
      cap_quantity_for_margin by_leverage r.proposal.entry_price r.account.available_margin_usd
        r.p.max_leverage r.constraints.quantity_step)
  capped ← call (apply_risk_cap_after_rounding (cap_inputs r sizing) by_margin)
  quantity ← capped_or_reject r capped
  check_minima r quantity

-- A rejection that reports the open risk.
abbrev pub late_rejection :
    Request → PortfolioRiskSnapshot → (reason : ReasonCode) → RiskError → RiskDecision
late_rejection r portfolio reason error =
    reject_decision r.proposal (reason ∷ []) (error ∷ []) r.p (some portfolio.current_open_risk_usd)

-- The limits of the whole portfolio; the result is the margin that the trade needs.
unfoldable pub check_portfolio : Request → Decimal → PortfolioRiskSnapshot → Step Decimal
unfolding reject_decision
check_portfolio r quantity portfolio = do
  reject_if
      (lt (mul r.account.equity_usd r.p.max_portfolio_risk_pct)
        portfolio.projected_portfolio_risk_usd)
      (late_rejection r portfolio rc_reject_risk_portfolio
        (risk_error rc_reject_risk_portfolio "Projected portfolio risk exceeds limit"))
  reject_if (lt r.p.max_leverage portfolio.effective_leverage) (
      late_rejection r portfolio rc_reject_leverage
        (risk_error rc_reject_leverage "Effective leverage exceeds max_leverage"))
  required_margin ← call (div (mul quantity r.proposal.entry_price) r.p.max_leverage)
  reject_if (lt r.account.available_margin_usd required_margin) (
      late_rejection r portfolio rc_reject_leverage
        (risk_error rc_reject_leverage "Insufficient available margin"))
  go required_margin

-- The approving decision at the end.
unfoldable pub approve :
    Request
    → (stop_price : Decimal) → PositionSizingResult
    → (quantity : Decimal) → PortfolioRiskSnapshot
    → (required_margin actual_pct : Decimal) → RiskDecision
approve r stop_price sizing quantity portfolio required_margin actual_pct = record {
  approved = true;
  symbol = r.proposal.symbol;
  requested_entry_price = r.proposal.entry_price;
  requested_stop_price = stop_price;
  raw_quantity = some sizing.raw_quantity;
  rounded_quantity = some quantity;
  actual_trade_risk_usd = some (mul quantity sizing.stop_distance_usd);
  actual_trade_risk_pct = some actual_pct;
  current_open_risk_usd = some portfolio.current_open_risk_usd;
  projected_portfolio_risk_usd = some portfolio.projected_portfolio_risk_usd;
  projected_portfolio_risk_pct = some portfolio.projected_portfolio_risk_pct;
  required_margin_usd = some required_margin;
  effective_leverage = some portfolio.effective_leverage;
  reason_codes = rc_risk_approved ∷ [];
  strategy_version = r.p.strategy_version;
  spec_version = r.p.spec_version;
  errors = [];
}

-- `RiskEngine.evaluate`: `go` carries the approving decision.
unfoldable pub evaluate : Request → Step RiskDecision
unfolding check_inputs rounded_stop check_slots sized_quantity capped_quantity check_portfolio
    approve
evaluate r = do
  check_inputs r
  stop_price ← rounded_stop r
  check_slots r
  sizing ← sized_quantity r stop_price
  quantity ← capped_quantity r sizing
  portfolio ← call (
      build_portfolio_snapshot r.account.equity_usd r.open_positions r.proposal.entry_price quantity
        sizing.stop_distance_usd)
  required_margin ← check_portfolio r quantity portfolio
  actual_pct ← call (div (mul quantity sizing.stop_distance_usd) r.account.equity_usd)
  go (approve r stop_price sizing quantity portfolio required_margin actual_pct)

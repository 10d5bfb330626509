-- ===== src/RiskEngine/Tests.antt =====
-- Runs of the risk engine, and its theorems at concrete inputs.
use save_money_trading_bot.Prelude.{
  ◌⊎◌, ◌*◌, ◌^◌, ◌≡◌, refl, true, false, Option, none, some, [], ◌∷◌, arith,
}
use save_money_trading_bot.Decimal.{
  Decimal, ok, out_of_fuel, dec, zero_dec, of_ℕ, nonpos, le, lt, fix, digits, div, mul, sub, add,
  quotient, truncate, min_dec, sum_from, is_finite, eq, to_integral_value, negative,
}
use save_money_trading_bot.StrategyEngine.Codes.{long_entry, rc_reject_data}
use save_money_trading_bot.RiskEngine.Models.{
  LossLimitConfig, RiskParameters, SymbolConstraints, AccountState, TradeProposal, RiskDecision,
  risk_specification_version, default_risk_per_trade_pct, default_max_portfolio_risk_pct,
  default_max_open_positions, default_max_leverage, default_risk_rounding_tolerance, long,
  market_ok, active, paused,
}
use save_money_trading_bot.RiskEngine.Engine.{Request, evaluate}
use save_money_trading_bot.RiskEngine.Step.{go, reject, fault}
use save_money_trading_bot.StrategyEngine.Codes.{rc_risk_approved}
use save_money_trading_bot.Decimal.Exact.{multiple}
use save_money_trading_bot.RiskEngine.Constraints.{
  validate_symbol_constraints_core, is_step_aligned,
}
use save_money_trading_bot.RiskEngine.Validation.{
  validate_account, validate_constraints, validate_parameters, validate_open_positions,
  validate_proposal, validate_long_stop,
}
use save_money_trading_bot.RiskEngine.LossLimits.{check_loss_limits}
use save_money_trading_bot.RiskEngine.Rounding.{round_to_tick, floor_to_step}
use save_money_trading_bot.RiskEngine.Sizing.{
  CapInputs, apply_risk_cap_after_rounding, cap_quantity_for_leverage, cap_quantity_for_margin,
  compute_position_sizing,
}
use save_money_trading_bot.RiskEngine.Sizing.Termination.{IsLargest, apply_risk_cap-IsLargest}
use save_money_trading_bot.RiskEngine.Portfolio.{
  current_open_risk_usd, total_notional_usd, build_portfolio_snapshot,
}
use save_money_trading_bot.RiskEngine.Engine.{reject_decision}
use save_money_trading_bot.StrategyEngine.Codes.{rc_reject_no_signal}
use save_money_trading_bot.RiskEngine.Engine.Approval.{IsSafe, evaluate-IsSafe}
use save_money_trading_bot.RiskEngine.Engine.Rejection.{IsRejection, evaluate-IsRejection}
use save_money_trading_bot.RiskEngine.Engine.Faults.{evaluate_never_raises}
use save_money_trading_bot.RiskEngine.Models.{PositionState}
use save_money_trading_bot.Prelude.{All, ◌↔◌}
use save_money_trading_bot.Prelude.Int.{pos}
use save_money_trading_bot.Decimal.{absolute}
use save_money_trading_bot.RiskEngine.LossLimits.{check_loss_limit, check_drawdown}
use save_money_trading_bot.RiskEngine.LossLimits.Limits.{
  LossesAccepted, check_loss_limits-LossesAccepted,
}
use save_money_trading_bot.RiskEngine.Validation.Proposal.{
  Only, DataAccepted, SignalAccepted, validate_proposal_iff,
}
use save_money_trading_bot.RiskEngine.Validation.Positions.{
  PositionAccepted, Distinct, validate_open_positions_iff,
}
use save_money_trading_bot.RiskEngine.Sizing.Termination.{floor_to_step-multiple}

abbrev no_limits : LossLimitConfig
no_limits = record {
  daily_loss_limit_enabled = false;
  max_daily_loss_pct = none;
  weekly_loss_limit_enabled = false;
  max_weekly_loss_pct = none;
  drawdown_limit_enabled = false;
  max_drawdown_pct = none;
}

-- `RiskParameters()`
abbrev defaults : RiskParameters
defaults = record {
  spec_version = risk_specification_version;
  strategy_version = "1.0.0";
  risk_per_trade_pct = default_risk_per_trade_pct;
  max_portfolio_risk_pct = default_max_portfolio_risk_pct;
  max_open_positions = default_max_open_positions;
  max_leverage = default_max_leverage;
  risk_rounding_tolerance = default_risk_rounding_tolerance;
  loss_limits = no_limits;
}

abbrev btc_constraints : SymbolConstraints
btc_constraints = record {
  quantity_step = dec 1 3;
  minimum_quantity = dec 1 3;
  minimum_notional = of_ℕ 10;
  price_tick_size = dec 1 1;
}

abbrev account : AccountState
account = record {
  equity_usd = of_ℕ 100000;
  available_margin_usd = of_ℕ 100000;
  daily_realized_pnl_usd = zero_dec;
  weekly_realized_pnl_usd = zero_dec;
  peak_equity_usd = none;
}

abbrev proposal : TradeProposal
proposal = record {
  symbol = "BTC";
  side = long;
  entry_price = of_ℕ 50000;
  stop_price = dec 4900004 2;
  client_intent_id = "btc-1";
  signal_intent_kind = long_entry;
  strategy_approved = true;
  market_data_status = market_ok;
  bot_system_state = active;
  atr14 = some (of_ℕ 400);
}

abbrev request : Request
request = record {
  proposal = proposal;
  account = account;
  constraints = btc_constraints;
  open_positions = [];
  open_orders = [];
  processed_intent_ids = [];
  p = defaults;
}

-- Half a bitcoin: 500 of 100000 at risk over a distance of 1000.
abbrev decision : RiskDecision
decision = record {
  approved = true;
  symbol = "BTC";
  requested_entry_price = of_ℕ 50000;
  requested_stop_price = dec 490000 1;
  raw_quantity = some (dec (5 * 10 ^ 27) 28);
  rounded_quantity = some (dec 500 3);
  actual_trade_risk_usd = some (dec 5000000 4);
  actual_trade_risk_pct = some (dec (5 * 10 ^ 27) 30);
  current_open_risk_usd = some zero_dec;
  projected_portfolio_risk_usd = some (dec 5000000 4);
  projected_portfolio_risk_pct = some (dec (5 * 10 ^ 27) 30);
  required_margin_usd = some (dec (125 * 10 ^ 25) 23);
  effective_leverage = some (dec (25 * 10 ^ 26) 28);
  reason_codes = rc_risk_approved ∷ [];
  strategy_version = "1.0.0";
  spec_version = "1.0.0";
  errors = [];
}

evaluate_approves : evaluate request ≡ go decision
unfolding evaluate validate_parameters validate_account validate_constraints
    validate_symbol_constraints_core is_step_aligned validate_proposal validate_open_positions
    check_loss_limits round_to_tick validate_long_stop compute_position_sizing floor_to_step
    apply_risk_cap_after_rounding cap_quantity_for_leverage cap_quantity_for_margin
    build_portfolio_snapshot current_open_risk_usd total_notional_usd is_finite nonpos negative lt
    le eq to_integral_value sub add mul div quotient truncate fix digits min_dec sum_from
evaluate_approves = refl

evaluate-IsSafe_example : IsSafe request decision
evaluate-IsSafe_example = evaluate-IsSafe request decision evaluate_approves

evaluate_never_raises_example :
    ((d : RiskDecision) × (evaluate request ≡ go d))
    ⊎ (((d : RiskDecision) × (evaluate request ≡ reject d))
        ⊎ (evaluate request ≡ fault out_of_fuel))
evaluate_never_raises_example = evaluate_never_raises request

-- The bot is paused.
abbrev paused_request : Request
paused_request = record request { proposal = record proposal { bot_system_state = paused } }

abbrev paused_decision : RiskDecision
paused_decision =
    reject_decision (record proposal { bot_system_state = paused }) (rc_reject_data ∷ [])
      (record { code = rc_reject_data; message = "Bot system state does not allow entries" } ∷ [])
      defaults none

evaluate_rejects : evaluate paused_request ≡ reject paused_decision
unfolding evaluate validate_parameters validate_account validate_constraints
    validate_symbol_constraints_core is_step_aligned validate_proposal is_finite nonpos negative lt
    le eq to_integral_value sub add mul div quotient truncate fix digits
evaluate_rejects = refl

evaluate-IsRejection_example : IsRejection paused_request paused_decision
evaluate-IsRejection_example = evaluate-IsRejection paused_request paused_decision evaluate_rejects

abbrev cap : CapInputs
cap = record {
  stop_distance_usd = of_ℕ 1000;
  equity_usd = of_ℕ 100000;
  risk_budget_usd = of_ℕ 500;
  quantity_step = dec 1 3;
  minimum_quantity = dec 1 3;
  params = defaults;
}

apply_risk_cap-IsLargest_example :
    (o : Option Decimal) × (apply_risk_cap_after_rounding cap (multiple 1 3 700) ≡ ok o)
    × IsLargest cap 1 3 700 o
unfolding nonpos le
apply_risk_cap-IsLargest_example =
    apply_risk_cap-IsLargest cap 1 3 refl (omega arith) refl refl 700 (omega arith)

validate_proposal_iff_example :
    (Only rc_reject_no_signal (validate_proposal proposal) ↔ DataAccepted proposal)
    × (Only rc_reject_data (validate_proposal proposal) ↔ SignalAccepted proposal)
    × ((validate_proposal proposal ≡ []) ↔ (DataAccepted proposal × SignalAccepted proposal))
validate_proposal_iff_example = validate_proposal_iff proposal

abbrev eth_position : PositionState
eth_position = record {
  symbol = "ETH";
  position_size = of_ℕ 2;
  entry_price = of_ℕ 3000;
  mark_price = of_ℕ 3100;
  stop_initial = of_ℕ 2800;
  trail_stop = of_ℕ 2900;
}

validate_open_positions_iff_example :
    (validate_open_positions (eth_position ∷ []) ≡ none)
    ↔ (All PositionAccepted (eth_position ∷ []) × Distinct (eth_position ∷ []))
validate_open_positions_iff_example = validate_open_positions_iff (eth_position ∷ [])

-- A daily limit of five percent, and a loss of one percent.
abbrev limited : RiskParameters
limited = record defaults {
  loss_limits = record no_limits {
    daily_loss_limit_enabled = true;
    max_daily_loss_pct = some (dec 5 2);
  };
}

abbrev losing_account : AccountState
losing_account = record account { daily_realized_pnl_usd = sub zero_dec (of_ℕ 1000) }

losses_quiet : check_loss_limits losing_account limited ≡ ok none
unfolding check_loss_limits check_loss_limit check_drawdown nonpos negative lt le sub absolute div
    quotient fix digits is_finite
losses_quiet = refl

check_loss_limits-LossesAccepted_example : LossesAccepted losing_account limited.loss_limits
unfolding nonpos le
check_loss_limits-LossesAccepted_example =
    check_loss_limits-LossesAccepted losing_account limited refl losses_quiet

floor_to_step-multiple_example :
    floor_to_step (multiple 5 3 700) (record { coeff = pos 5; scale = 3 }) ≡ ok (multiple 5 3 700)
floor_to_step-multiple_example = floor_to_step-multiple 5 3 700 (omega arith) (omega arith)

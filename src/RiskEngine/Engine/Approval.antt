-- ===== src/RiskEngine/Engine/Approval.antt =====
-- What an approving decision of `evaluate` guarantees.
use save_money_trading_bot.Prelude.{
  ◌≡◌, refl, sym, ap, true, false, none, some, List, [], ◌∷◌, arith,
}
use mathlib.Core.Path.{subst}
use save_money_trading_bot.Decimal.{
  Decimal, Exc, ok, raised, nonpos, lt, le, add, sub, mul, div, zero_dec,
}
use save_money_trading_bot.Decimal.Order.{le_of_not_lt, pos_of_not_nonpos, lt_of_not_le}
use save_money_trading_bot.StrategyEngine.Codes.{rc_risk_approved}
use save_money_trading_bot.RiskEngine.Models.{
  PositionSizingResult, PortfolioRiskSnapshot, RiskDecision, AccountState, PositionState,
}
use save_money_trading_bot.RiskEngine.Rounding.{round_to_tick}
use save_money_trading_bot.RiskEngine.Validation.{validate_account, validate_long_stop}
use save_money_trading_bot.RiskEngine.Sizing.{trade_limit}
use save_money_trading_bot.RiskEngine.Sizing.Cap.{apply_risk_cap-IsCapped, stop_distance-sizing}
use save_money_trading_bot.RiskEngine.Portfolio.{
  current_open_risk_usd, total_notional_usd, build_portfolio_snapshot,
}
use save_money_trading_bot.RiskEngine.Step.{go, >>=-eq-go, call}
use save_money_trading_bot.RiskEngine.Engine.{
  Request, check_inputs, rounded_stop, check_slots, sized_quantity, capped_quantity,
  check_portfolio, approve, evaluate,
}
use save_money_trading_bot.RiskEngine.Engine.Stages.{
  InputsPass, check_inputs-InputsPass, rounded_stop_lem, SlotsFree, check_slots-SlotsFree,
  sized_quantity_lem, capped_quantity-QuantityCapped, check_portfolio_lem,
}

-- The stop is the proposal's, cut to the tick, and lies below the entry.
pub record StopPlaced (r : Request) (d : RiskDecision) : Type 0 where
  pub on_tick :
      round_to_tick r.proposal.stop_price r.constraints.price_tick_size ≡ ok d.requested_stop_price
  pub entry : d.requested_entry_price ≡ r.proposal.entry_price
  pub below_entry : lt d.requested_stop_price r.proposal.entry_price ≡ true

-- The approved quantity, against each limit on the single trade.
pub record TradeWithin (r : Request) (d : RiskDecision) : Type 0 where
  pub quantity : Decimal
  pub quantity_lem : d.rounded_quantity ≡ some quantity
  pub positive : lt zero_dec quantity ≡ true
  pub at_least_minimum : le r.constraints.minimum_quantity quantity ≡ true
  pub notional : le r.constraints.minimum_notional (mul quantity r.proposal.entry_price) ≡ true
  pub risk : Decimal
  pub risk_lem : risk ≡ mul quantity (sub r.proposal.entry_price d.requested_stop_price)
  pub reported_risk : d.actual_trade_risk_usd ≡ some risk
  pub within_budget : le risk (mul r.account.equity_usd r.p.risk_per_trade_pct) ≡ true
  pub pct : Decimal
  pub pct_lem : div risk r.account.equity_usd ≡ ok pct
  pub reported_pct : d.actual_trade_risk_pct ≡ some pct
  pub within_tolerance : le pct (trade_limit r.p) ≡ true

-- The portfolio with the new trade, against each limit on the whole.
pub record PortfolioWithin (r : Request) (d : RiskDecision) (quantity risk : Decimal) : Type 0 where
  pub projected :
      d.projected_portfolio_risk_usd ≡ some (add (current_open_risk_usd r.open_positions) risk)
  pub within_risk :
      le
        (add (current_open_risk_usd r.open_positions) risk)
        (mul r.account.equity_usd r.p.max_portfolio_risk_pct)
      ≡ true
  pub leverage : Decimal
  pub leverage_lem :
      div
        (add (total_notional_usd r.open_positions) (mul quantity r.proposal.entry_price))
        r.account.equity_usd
      ≡ ok leverage
  pub within_leverage : le leverage r.p.max_leverage ≡ true
  pub margin : Decimal
  pub margin_lem : div (mul quantity r.proposal.entry_price) r.p.max_leverage ≡ ok margin
  pub reported_margin : d.required_margin_usd ≡ some margin
  pub within_margin : le margin r.account.available_margin_usd ≡ true

-- The snapshot's fields, for an account that has passed its check.
snapshot_lem :
    (equity : Decimal) (ps : List PositionState) (entry q dist : Decimal)
    (s : PortfolioRiskSnapshot)
    → nonpos equity ≡ false
    → build_portfolio_snapshot equity ps entry q dist ≡ ok s
    → (s.projected_portfolio_risk_usd ≡ add (current_open_risk_usd ps) (mul q dist))
      × (div (add (total_notional_usd ps) (mul q entry)) equity ≡ ok s.effective_leverage)
unfolding build_portfolio_snapshot
snapshot_lem equity ps entry q dist s h e = ground arith

equity_positive : (a : AccountState) → validate_account a ≡ none → nonpos a.equity_usd ≡ false
unfolding validate_account
equity_positive a h = ground arith

stop_below : (entry stop : Decimal) → validate_long_stop entry stop ≡ none → lt stop entry ≡ true
unfolding validate_long_stop
stop_below entry stop h = lt_of_not_le entry stop (ground arith)

-- The stages that `evaluate` went through to an approving decision.
record Passed (r : Request) (d : RiskDecision) : Type 0 where
  inputs : check_inputs r ≡ go tt
  stop : Decimal
  stop_lem : rounded_stop r ≡ go stop
  slots : check_slots r ≡ go tt
  sizing : PositionSizingResult
  sizing_lem : sized_quantity r stop ≡ go sizing
  quantity : Decimal
  quantity_lem : capped_quantity r sizing ≡ go quantity
  portfolio : PortfolioRiskSnapshot
  portfolio_lem :
      build_portfolio_snapshot r.account.equity_usd r.open_positions r.proposal.entry_price quantity
        sizing.stop_distance_usd
      ≡ ok portfolio
  margin : Decimal
  margin_lem : check_portfolio r quantity portfolio ≡ go margin
  pct : Decimal
  pct_lem : div (mul quantity sizing.stop_distance_usd) r.account.equity_usd ≡ ok pct
  decision : d ≡ approve r stop sizing quantity portfolio margin pct

call-eq-go : {A : Type 0} (m : Exc A) {a : A} → call m ≡ go a → m ≡ ok a
call-eq-go (ok a) h = ground arith
call-eq-go (raised e) h = cc

go-injective : {A : Type 0} {a b : A} → go a ≡ go b → a ≡ b
go-injective h = cc

evaluate-Passed : (r : Request) (d : RiskDecision) → evaluate r ≡ go d → Passed r d
unfolding evaluate
evaluate-Passed r d h0 =
    let (u, e1, h1) = >>=-eq-go (check_inputs r) _ h0 in
    let (stop, e2, h2) = >>=-eq-go (rounded_stop r) _ h1 in
    let (v, e3, h3) = >>=-eq-go (check_slots r) _ h2 in
    let (sizing, e4, h4) = >>=-eq-go (sized_quantity r stop) _ h3 in
    let (q, e5, h5) = >>=-eq-go (capped_quantity r sizing) _ h4 in
    let (s, e6, h6) =
      >>=-eq-go
        (call (
          build_portfolio_snapshot r.account.equity_usd r.open_positions r.proposal.entry_price q
            sizing.stop_distance_usd))
        _ h5 in
    let (margin, e7, h7) = >>=-eq-go (check_portfolio r q s) _ h6 in
    let (pct, e8, h8) =
      >>=-eq-go (call (div (mul q sizing.stop_distance_usd) r.account.equity_usd)) _ h7 in
    record {
      inputs = e1;
      stop = stop;
      stop_lem = e2;
      slots = e3;
      sizing = sizing;
      sizing_lem = e4;
      quantity = q;
      quantity_lem = e5;
      portfolio = s;
      portfolio_lem = call-eq-go _ e6;
      margin = margin;
      margin_lem = e7;
      pct = pct;
      pct_lem = call-eq-go _ e8;
      decision = sym (go-injective h8);
    }

-- Everything that an approving decision guarantees.
pub record IsSafe (r : Request) (d : RiskDecision) : Type 0 where
  pub approved : d.approved ≡ true
  pub symbol : d.symbol ≡ r.proposal.symbol
  pub reason : d.reason_codes ≡ rc_risk_approved ∷ []
  pub no_errors : d.errors ≡ []
  pub inputs : InputsPass r
  pub slots : SlotsFree r
  pub stop : StopPlaced r d
  pub trade : TradeWithin r d
  pub portfolio : PortfolioWithin r d trade.quantity trade.risk

module _ {r : Request} {d : RiskDecision} (v : Passed r d) where
  dist_lem : v.sizing.stop_distance_usd ≡ sub r.proposal.entry_price v.stop
  dist_lem =
      stop_distance-sizing r.account.equity_usd r.proposal.entry_price v.stop
        r.constraints.quantity_step r.constraints.minimum_quantity r.p v.sizing
        (sized_quantity_lem r v.stop v.sizing_lem).0

  final : RiskDecision
  final = approve r v.stop v.sizing v.quantity v.portfolio v.margin v.pct

  stop_placed : StopPlaced r final
  unfolding final approve
  stop_placed =
      let (tick, valid) = rounded_stop_lem r v.stop_lem in
      record { on_tick = tick; entry = refl; below_entry = stop_below _ _ valid }

  trade_within : TradeWithin r final
  unfolding final approve
  trade_within =
      let capped = capped_quantity-QuantityCapped r v.sizing v.quantity v.quantity_lem in
      let cap = apply_risk_cap-IsCapped _ _ v.quantity capped.risk_cap in
      record {
        quantity = v.quantity;
        quantity_lem = refl;
        positive = pos_of_not_nonpos _ capped.positive;
        at_least_minimum = cap.at_least_minimum;
        notional = le_of_not_lt _ _ capped.notional;
        risk = mul v.quantity v.sizing.stop_distance_usd;
        risk_lem = ap (mul v.quantity) dist_lem;
        reported_risk = refl;
        within_budget = cap.within_budget;
        pct = v.pct;
        pct_lem = v.pct_lem;
        reported_pct = refl;
        within_tolerance = ground (arith, cap.pct_lem, v.pct_lem, cap.within_tolerance);
      }

  portfolio_within : PortfolioWithin r final v.quantity (mul v.quantity v.sizing.stop_distance_usd)
  unfolding final approve
  portfolio_within =
      let inputs = check_inputs-InputsPass r v.inputs in
      let (projected_lem, leverage_lem) =
        snapshot_lem _ _ _ _ _ v.portfolio (equity_positive _ inputs.account) v.portfolio_lem in
      let (risk, leverage, margin, room) =
        check_portfolio_lem r v.quantity v.portfolio v.margin_lem in
      record {
        projected = ap some projected_lem;
        within_risk = rw (← projected_lem) (le_of_not_lt _ _ risk);
        leverage = v.portfolio.effective_leverage;
        leverage_lem = leverage_lem;
        within_leverage = le_of_not_lt _ _ leverage;
        margin = v.margin;
        margin_lem = margin;
        reported_margin = refl;
        within_margin = le_of_not_lt _ _ room;
      }

  final-IsSafe : IsSafe r final
  unfolding final approve trade_within
  final-IsSafe = record {
    approved = refl;
    symbol = refl;
    reason = refl;
    no_errors = refl;
    inputs = check_inputs-InputsPass r v.inputs;
    slots = check_slots-SlotsFree r v.slots;
    stop = stop_placed;
    trade = trade_within;
    portfolio = portfolio_within;
  }

-- Where `evaluate` returns an approving decision, the inputs pass every check, the symbol has no
-- position and no entry order, the proposal's own intent id is not among those processed, a position
-- slot is free, the stop is the proposal's cut to the tick and below the entry, and the quantity keeps
-- to the exchange's minima, the risk budget with its tolerance, the portfolio risk, the leverage and
-- the available margin.
pub evaluate-IsSafe : (r : Request) (d : RiskDecision) → evaluate r ≡ go d → IsSafe r d
unfolding final
evaluate-IsSafe r d h =
    let v = evaluate-Passed r d h in subst (λ x. IsSafe r x) (sym v.decision) (final-IsSafe v)

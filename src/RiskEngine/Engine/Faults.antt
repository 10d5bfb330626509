-- ===== src/RiskEngine/Engine/Faults.antt =====
-- `evaluate` raises nothing but, in the model, the end of the fuel of the risk cap.
use save_money_trading_bot.Prelude.{
  ◌⊎◌, inl, inr, List, [], ◌∷◌, ◌≡◌, refl, false, Option, none, some, arith,
}
use save_money_trading_bot.Decimal.{Decimal, Exc, ok, raised, Fault, out_of_fuel, nonpos, mul, div}
use save_money_trading_bot.Decimal.Division.{div_positive}
use save_money_trading_bot.RiskEngine.Models.{
  RiskDecision, RiskError, PositionSizingResult, PortfolioRiskSnapshot,
}
use save_money_trading_bot.RiskEngine.Validation.{
  validate_account, validate_constraints, validate_parameters, validate_open_positions,
  validate_proposal,
}
use save_money_trading_bot.RiskEngine.Validation.Proposal.{validate_proposal_iff}
use save_money_trading_bot.RiskEngine.Validation.Accepted.{
  validate_account_iff, validate_parameters_iff, validate_constraints_iff,
}
use save_money_trading_bot.RiskEngine.LossLimits.{check_loss_limits}
use save_money_trading_bot.RiskEngine.LossLimits.Limits.{check_loss_limits_quiet}
use save_money_trading_bot.RiskEngine.Sizing.Raises.{
  round_to_tick_ok, apply_risk_cap_quiet, cap_quantity_for_leverage_quiet,
  cap_quantity_for_margin_quiet, snapshot_quiet, compute_position_sizing_quiet,
}
use save_money_trading_bot.RiskEngine.Sizing.{cap_quantity_for_leverage, cap_quantity_for_margin}
use save_money_trading_bot.RiskEngine.Portfolio.{total_notional_usd, build_portfolio_snapshot}
use save_money_trading_bot.RiskEngine.Step.{
  Step-cases, reject, Step, go, reject, fault, ◌>>=◌, call,
}
use save_money_trading_bot.RiskEngine.Engine.{
  pass, pass_all, capped_or_reject, check_minima, Request, check_inputs, rounded_stop, check_slots,
  sized_quantity, capped_quantity, check_portfolio, cap_inputs, evaluate,
}
use save_money_trading_bot.RiskEngine.Engine.Stages.{InputsPass, check_inputs-InputsPass}

-- A fault of the stage can only be the end of the fuel.
record OnlyFuel {ℓ} {A : Type ℓ} (m : Step A) : Type ℓ where
  only : (e : Fault) → m ≡ fault e → e ≡ out_of_fuel

-- The rest of a block may use that the stage before it went on.
OnlyFuel-bind {ℓ κ} :
    {A : Type ℓ} {B : Type κ} (m : Step A) (f : A → Step B)
    → OnlyFuel m
    → ((a : A) → m ≡ go a → OnlyFuel (f a))
    → OnlyFuel (m >>= f)
OnlyFuel-bind (go a) f hm hf = hf a refl
OnlyFuel-bind (reject d) f hm hf = record { only = λ e h. cc }
OnlyFuel-bind (fault e) f hm hf = record { only = λ d h. hm.only d (ground arith) }

-- The values that the engine divides by are positive once the inputs have passed.
record Divisors (r : Request) : Type 0 where
  equity : nonpos r.account.equity_usd ≡ false
  leverage : nonpos r.p.max_leverage ≡ false
  tick : nonpos r.constraints.price_tick_size ≡ false
  step : nonpos r.constraints.quantity_step ≡ false
  entry : nonpos r.proposal.entry_price ≡ false

InputsPass-Divisors : (r : Request) → InputsPass r → Divisors r
InputsPass-Divisors r i =
    let a = (validate_account_iff r.account).0 i.account in
    let p = (validate_parameters_iff r.p).0 i.parameters in
    let c = (validate_constraints_iff r.constraints).0 i.constraints in
    let t = (validate_proposal_iff r.proposal).2.0 i.proposal in
    record {
      equity = a.equity.1;
      leverage = p.leverage.0.1;
      tick = c.tick.1;
      step = c.step.1;
      entry = t.0.entry.1;
    }

module _ (r : Request) where
  pass-OnlyFuel : (o : Option RiskError) → OnlyFuel (pass r o)
  pass-OnlyFuel none = record { only = λ e h. cc }
  pass-OnlyFuel (some x) = record { only = λ e h. cc }

  pass_all-OnlyFuel : (es : List RiskError) → OnlyFuel (pass_all r es)
  pass_all-OnlyFuel [] = record { only = λ e h. cc }
  pass_all-OnlyFuel (x ∷ xs) = record { only = λ e h. cc }

  pass-eq-go : (o : Option RiskError) (u : Unit {0}) → pass r o ≡ go u → o ≡ none
  pass-eq-go none u h = refl
  pass-eq-go (some x) u h = cc

  account_equity : validate_account r.account ≡ none → nonpos r.account.equity_usd ≡ false
  account_equity h = ((validate_account_iff r.account).0 h).equity.1

  call-OnlyFuel :
      {A : Type 0} (m : Exc A) → ((e : Fault) → m ≡ raised e → e ≡ out_of_fuel) → OnlyFuel (call m)
  call-OnlyFuel (ok a) h = record { only = λ e k. cc }
  call-OnlyFuel (raised f) h = record { only = λ e k. h e (ground arith) }

  losses-OnlyFuel :
      nonpos r.account.equity_usd ≡ false → OnlyFuel (call (check_loss_limits r.account r.p))
  losses-OnlyFuel he = call-OnlyFuel _ (λ e h. absurd (check_loss_limits_quiet r.account r.p he h))

  check_inputs-OnlyFuel : OnlyFuel (check_inputs r)
  unfolding check_inputs
  check_inputs-OnlyFuel = OnlyFuel-bind _ _ (pass-OnlyFuel (validate_parameters r.p)) λ _ _.
      OnlyFuel-bind _ _ (pass-OnlyFuel (validate_account r.account)) λ u account.
        OnlyFuel-bind _ _ (pass-OnlyFuel (validate_constraints r.constraints)) λ _ _.
          OnlyFuel-bind _ _ (pass_all-OnlyFuel (validate_proposal r.proposal)) λ _ _.
            OnlyFuel-bind _ _ (pass-OnlyFuel (validate_open_positions r.open_positions)) λ _ _.
              OnlyFuel-bind _ _ (losses-OnlyFuel (account_equity (pass-eq-go _ u account)))
                λ loss_err _. pass-OnlyFuel loss_err

module _ (r : Request) (d : Divisors r) where
  rounded_stop-OnlyFuel : OnlyFuel (rounded_stop r)
  unfolding rounded_stop
  rounded_stop-OnlyFuel = record {
    only = λ e h.
        ground (arith, round_to_tick_ok r.proposal.stop_price r.constraints.price_tick_size d.tick);
  }

  check_slots-OnlyFuel : OnlyFuel (check_slots r)
  unfolding check_slots
  check_slots-OnlyFuel = record { only = λ e h. ground arith }

  sized_quantity-OnlyFuel : (stop : Decimal) → OnlyFuel (sized_quantity r stop)
  unfolding sized_quantity
  sized_quantity-OnlyFuel stop = record {
    only = λ e h. ground (
      arith,
      compute_position_sizing_quiet r.account.equity_usd r.proposal.entry_price stop
          r.constraints.quantity_step r.constraints.minimum_quantity r.p d.equity d.step {e = e},
    );
  }

  check_portfolio-OnlyFuel :
      (q : Decimal) (s : PortfolioRiskSnapshot) → OnlyFuel (check_portfolio r q s)
  unfolding check_portfolio
  check_portfolio-OnlyFuel q s = record {
    only = λ e h.
        ground (arith, div_positive (mul q r.proposal.entry_price) r.p.max_leverage d.leverage);
  }

  capped_or_reject-OnlyFuel : (o : Option Decimal) → OnlyFuel (capped_or_reject r o)
  capped_or_reject-OnlyFuel none = record { only = λ e h. cc }
  capped_or_reject-OnlyFuel (some q) = record { only = λ e h. ground arith }

  minima-OnlyFuel : (q : Decimal) → OnlyFuel (check_minima r q)
  unfolding check_minima
  minima-OnlyFuel q = record { only = λ e h. ground arith }

  leverage_cap-OnlyFuel :
      (q notional lev : Decimal)
      → OnlyFuel (
          call (
            cap_quantity_for_leverage q r.proposal.entry_price r.account.equity_usd notional
              r.constraints.quantity_step lev))
  leverage_cap-OnlyFuel q notional lev = call-OnlyFuel r _ (λ e h.
      absurd (cap_quantity_for_leverage_quiet q _ _ notional _ lev d.equity d.entry d.step h))

  margin_cap-OnlyFuel :
      (q margin : Decimal)
      → OnlyFuel (
          call (
            cap_quantity_for_margin q r.proposal.entry_price margin r.p.max_leverage
              r.constraints.quantity_step))
  margin_cap-OnlyFuel q margin =
      call-OnlyFuel r _
        (λ e h. absurd (cap_quantity_for_margin_quiet q _ margin _ _ d.leverage d.entry d.step h))

  capped_quantity-OnlyFuel : (s : PositionSizingResult) → OnlyFuel (capped_quantity r s)
  unfolding capped_quantity
  capped_quantity-OnlyFuel s =
      OnlyFuel-bind _ _
        (leverage_cap-OnlyFuel s.rounded_quantity (total_notional_usd r.open_positions)
          r.p.max_leverage)
        λ by_leverage _.
          OnlyFuel-bind _ _ (margin_cap-OnlyFuel by_leverage r.account.available_margin_usd)
            λ by_margin _.
              OnlyFuel-bind _ _
                (call-OnlyFuel r _
                  (λ e h. apply_risk_cap_quiet (cap_inputs r s) d.equity d.step by_margin h))
                λ capped _.
                  OnlyFuel-bind _ _ (capped_or_reject-OnlyFuel capped) λ q _. minima-OnlyFuel q

  snapshot-OnlyFuel :
      (q dist : Decimal)
      → OnlyFuel (
          call (
            build_portfolio_snapshot r.account.equity_usd r.open_positions r.proposal.entry_price q
              dist))
  snapshot-OnlyFuel q dist = call-OnlyFuel r _ (λ e h. absurd (snapshot_quiet _ _ _ _ _ d.equity h))

  ratio-OnlyFuel : (x : Decimal) → OnlyFuel (call (div x r.account.equity_usd))
  ratio-OnlyFuel x =
      call-OnlyFuel r _ (λ e h. ground (arith, div_positive x r.account.equity_usd d.equity))

evaluate-OnlyFuel : (r : Request) → OnlyFuel (evaluate r)
unfolding evaluate
evaluate-OnlyFuel r = OnlyFuel-bind _ _ (check_inputs-OnlyFuel r) λ u passed.
    let d = InputsPass-Divisors r (check_inputs-InputsPass r passed) in
    OnlyFuel-bind _ _ (rounded_stop-OnlyFuel r d) λ stop _.
      OnlyFuel-bind _ _ (check_slots-OnlyFuel r d) λ _ _.
        OnlyFuel-bind _ _ (sized_quantity-OnlyFuel r d stop) λ sizing _.
          OnlyFuel-bind _ _ (capped_quantity-OnlyFuel r d sizing) λ q _.
            OnlyFuel-bind _ _ (snapshot-OnlyFuel r d q sizing.stop_distance_usd) λ s _.
              OnlyFuel-bind _ _ (check_portfolio-OnlyFuel r d q s) λ margin _.
                OnlyFuel-bind _ _ (ratio-OnlyFuel r d _) λ pct _. record { only = λ e h. cc }

-- Whatever the inputs, `evaluate` returns an approving or a rejecting decision, or the model's fuel
-- for the risk cap ends: it raises neither the ValueError of a step that is not positive nor a
-- division by zero.
pub evaluate_never_raises :
    (r : Request)
    → ((d : RiskDecision) × (evaluate r ≡ go d))
      ⊎ (((d : RiskDecision) × (evaluate r ≡ reject d)) ⊎ (evaluate r ≡ fault out_of_fuel))
evaluate_never_raises r = elim (Step-cases (evaluate r)) [
  | inl g ↦ inl g
  | inr (inl d) ↦ inr (inl d)
  | inr (inr (e, h)) ↦ inr (inr (rw (← (evaluate-OnlyFuel r).only e h) h))
]

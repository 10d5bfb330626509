-- ===== src/RiskEngine/Engine/Rejection.antt =====
-- A rejecting decision of `evaluate` is fail-closed.
use save_money_trading_bot.Prelude.{
  String, ◌≡◌, ◌≢◌, refl, Bool, true, false, Option, none, some, List, [], ◌∷◌, map, All, arith,
  if◌then◌else◌,
}
use save_money_trading_bot.Decimal.{Decimal, Exc, ok, raised, nonpos}
use save_money_trading_bot.StrategyEngine.Codes.{ReasonCode}
use save_money_trading_bot.RiskEngine.Models.{
  RiskError, RiskDecision, PositionSizingResult, PortfolioRiskSnapshot,
}
use save_money_trading_bot.RiskEngine.Step.{Step, go, reject, fault, ◌>>=◌, call, reject_if}
use save_money_trading_bot.RiskEngine.Validation.{
  validate_account, validate_constraints, validate_parameters, validate_proposal,
  validate_open_positions, validate_long_stop,
}
use save_money_trading_bot.RiskEngine.Engine.Refusals.{
  is_refusal, Refuses, AllRefuse, validate_account-Refuses, validate_long_stop-Refuses,
  validate_constraints-Refuses, validate_parameters-Refuses, validate_open_positions-Refuses,
  validate_proposal-AllRefuse, losses-Refuses,
}
use save_money_trading_bot.RiskEngine.Engine.{
  Request, risk_error, reject_decision, pass, pass_all, sizing_or_reject, capped_or_reject,
  check_inputs, rounded_stop, check_slots, sized_quantity, capped_quantity, check_portfolio,
  evaluate,
}

-- Not approved, with no quantity, for stated reasons: the codes are those of the errors, and refuse.
pub record IsRejection (r : Request) (d : RiskDecision) : Type 0 where
  pub not_approved : d.approved ≡ false
  pub symbol : d.symbol ≡ r.proposal.symbol
  pub no_quantity : d.rounded_quantity ≡ none
  pub no_margin : d.required_margin_usd ≡ none
  pub codes : d.reason_codes ≡ map (λ (e : RiskError). e.code) d.errors
  pub explained : d.reason_codes ≢ []
  pub refusals : All (λ c. is_refusal c ≡ true) d.reason_codes

codes-refuse :
    (es : List RiskError)
    → All (λ (e : RiskError). is_refusal e.code ≡ true) es
    → All (λ c. is_refusal c ≡ true) (map (λ (e : RiskError). e.code) es)
codes-refuse [] h = tt
codes-refuse (e ∷ es) h = (h.0, codes-refuse es h.1)

-- Whatever decision a stage returns early is such a rejection.
record Rejects {ℓ} {A : Type ℓ} (r : Request) (m : Step A) : Type ℓ where
  early : (d : RiskDecision) → m ≡ reject d → IsRejection r d

module _ {ℓ κ} {A : Type ℓ} {B : Type κ} {r : Request} where
  Rejects-bind :
      (m : Step A) (f : A → Step B)
      → Rejects r m
      → ((a : A) → Rejects r (f a))
      → Rejects r (m >>= f)
  Rejects-bind (go a) f hm hf = hf a
  Rejects-bind (reject e) f hm hf = record { early = λ d h. hm.early d (ground arith) }
  Rejects-bind (fault e) f hm hf = record { early = λ d h. cc }

module _ {r : Request} where
  Rejects-go {ℓ} : {A : Type ℓ} (a : A) → Rejects r (go a)
  Rejects-go a = record { early = λ d h. cc }

  Rejects-call {ℓ} : {A : Type ℓ} (m : Exc A) → Rejects r (call m)
  Rejects-call (ok a) = record { early = λ d h. cc }
  Rejects-call (raised e) = record { early = λ d h. cc }

  -- A reason for each error, and one at least.
  reject_all-IsRejection :
      (e : RiskError) (es : List RiskError) (risk : Option Decimal)
      → AllRefuse (e ∷ es)
      → IsRejection r
          (reject_decision r.proposal (map (λ (x : RiskError). x.code) (e ∷ es)) (e ∷ es) r.p risk)
  unfolding reject_decision
  reject_all-IsRejection e es risk h = record {
    not_approved = refl;
    symbol = refl;
    no_quantity = refl;
    no_margin = refl;
    codes = refl;
    explained = λ h. cc;
    refusals = codes-refuse (e ∷ es) h.all;
  }

  -- One error, under its own code.
  reject_decision-IsRejection :
      (code : ReasonCode) (message : String) (risk : Option Decimal)
      → is_refusal code ≡ true
      → IsRejection r
          (reject_decision r.proposal (code ∷ []) (risk_error code message ∷ []) r.p risk)
  reject_decision-IsRejection code message risk h =
      reject_all-IsRejection (risk_error code message) [] risk (record { all = (h, tt) })

  Rejects-reject {ℓ} :
      {A : Type ℓ} (d : RiskDecision) → IsRejection r d → Rejects {A = A} r (reject d)
  Rejects-reject d h = record { early = λ e k. ground arith }

module _ {r : Request} where
  Rejects-reject_if : (b : Bool) (d : RiskDecision) → IsRejection r d → Rejects r (reject_if b d)
  Rejects-reject_if true d h = Rejects-reject d h
  Rejects-reject_if false d h = Rejects-go tt

  Rejects-pass : (o : Option RiskError) → Refuses o → Rejects r (pass r o)
  Rejects-pass none h = Rejects-go tt
  Rejects-pass (some e) h =
      Rejects-reject _ (reject_all-IsRejection e [] none (record { all = (h, tt) }))

  Rejects-pass_all : (es : List RiskError) → AllRefuse es → Rejects r (pass_all r es)
  Rejects-pass_all [] h = Rejects-go tt
  Rejects-pass_all (e ∷ es) h = Rejects-reject _ (reject_all-IsRejection e es none h)

  Rejects-sizing : (o : Option PositionSizingResult) → Rejects r (sizing_or_reject r o)
  Rejects-sizing none = Rejects-reject _ (reject_decision-IsRejection _ _ none refl)
  Rejects-sizing (some s) = Rejects-go s

  Rejects-capped_if :
      (b : Bool) (d : RiskDecision) (q : Decimal)
      → IsRejection r d
      → Rejects r (if b then reject d else go q)
  Rejects-capped_if true d q h = Rejects-reject d h
  Rejects-capped_if false d q h = Rejects-go q

  Rejects-capped : (o : Option Decimal) → Rejects r (capped_or_reject r o)
  Rejects-capped none = Rejects-reject _ (reject_decision-IsRejection _ _ none refl)
  Rejects-capped (some q) =
      Rejects-capped_if (nonpos q) _ q (reject_decision-IsRejection _ _ none refl)

ruleset rejection_rules = (
  Rejects-bind, Rejects-go, Rejects-call, Rejects-reject_if, Rejects-sizing, Rejects-capped,
  reject_decision-IsRejection,
)

-- The checks of the inputs.
module _ (r : Request) where
  parameters-Rejects : Rejects r (pass r (validate_parameters r.p))
  parameters-Rejects = Rejects-pass _ (validate_parameters-Refuses r.p)

  account-Rejects : Rejects r (pass r (validate_account r.account))
  account-Rejects = Rejects-pass _ (validate_account-Refuses r.account)

  constraints-Rejects : Rejects r (pass r (validate_constraints r.constraints))
  constraints-Rejects = Rejects-pass _ (validate_constraints-Refuses r.constraints)

  proposal-Rejects : Rejects r (pass_all r (validate_proposal r.proposal))
  proposal-Rejects = Rejects-pass_all _ (validate_proposal-AllRefuse r.proposal)

  positions-Rejects : Rejects r (pass r (validate_open_positions r.open_positions))
  positions-Rejects = Rejects-pass _ (validate_open_positions-Refuses r.open_positions)

  stop-Rejects : (entry stop : Decimal) → Rejects r (pass r (validate_long_stop entry stop))
  stop-Rejects entry stop = Rejects-pass _ (validate_long_stop-Refuses entry stop)

  losses-Rejects :
      (m : Exc (Option RiskError))
      → ((o : Option RiskError) → m ≡ ok o → Refuses o)
      → Rejects r (call m >>= λ o. pass r o)
  losses-Rejects (ok o) h = Rejects-pass o (h o refl)
  losses-Rejects (raised e) h = record { early = λ d k. cc }

ruleset input_rules = (
  parameters-Rejects, account-Rejects, constraints-Rejects, proposal-Rejects, positions-Rejects,
  stop-Rejects, losses-Rejects, losses-Refuses,
)

module _ (r : Request) where
  check_inputs-Rejects : Rejects r (check_inputs r)
  unfolding check_inputs
  check_inputs-Rejects = search (input_rules, rejection_rules) depth 14

  rounded_stop-Rejects : Rejects r (rounded_stop r)
  unfolding rounded_stop
  rounded_stop-Rejects = search (input_rules, rejection_rules) depth 8

  check_slots-Rejects : Rejects r (check_slots r)
  unfolding check_slots
  check_slots-Rejects = search rejection_rules depth 8

  sized_quantity-Rejects : (stop : Decimal) → Rejects r (sized_quantity r stop)
  unfolding sized_quantity
  sized_quantity-Rejects stop = search rejection_rules depth 8

  capped_quantity-Rejects : (s : PositionSizingResult) → Rejects r (capped_quantity r s)
  unfolding capped_quantity
  capped_quantity-Rejects s = search rejection_rules depth 12

  check_portfolio-Rejects :
      (q : Decimal) (s : PortfolioRiskSnapshot) → Rejects r (check_portfolio r q s)
  unfolding check_portfolio
  check_portfolio-Rejects q s = search rejection_rules depth 12

  evaluate-Rejects : Rejects r (evaluate r)
  unfolding evaluate
  evaluate-Rejects =
      search
        (
          rejection_rules, check_inputs-Rejects, rounded_stop-Rejects, check_slots-Rejects,
          sized_quantity-Rejects, capped_quantity-Rejects, check_portfolio-Rejects,
        )
        depth 14

-- Where `evaluate` returns early, the decision is not approved, carries no quantity and no margin, and
-- gives at least one reason code, one for each error in their order; and every code is one of those that
-- refuse, whichever check or guard reports it.
pub evaluate-IsRejection :
    (r : Request) (d : RiskDecision) → evaluate r ≡ reject d → IsRejection r d
evaluate-IsRejection r d h = (evaluate-Rejects r).early d h

-- ===== src/RiskEngine/Engine/Refusals.antt =====
-- services/risk_engine/validation.py: the codes under which the checks report.
use save_money_trading_bot.Prelude.{
  ◌≡◌, String, Bool, true, false, Option, none, some, List, [], ◌∷◌, ◌++◌, All, arith, inl, inr,
  Option-cases, Bool-cases, ◌||◌, str_eq,
}
use save_money_trading_bot.Decimal.{Decimal, Exc, ok, raised, div, absolute, sub, Exc-cases}
use save_money_trading_bot.StrategyEngine.Codes.{
  ReasonCode, rc_reject_regime, rc_reject_trend, rc_reject_volume, rc_reject_warmup, rc_reject_data,
  rc_reject_duplicate_symbol, rc_reject_risk_trade, rc_reject_risk_portfolio,
  rc_reject_max_positions, rc_reject_leverage, rc_reject_no_signal,
}
use save_money_trading_bot.RiskEngine.Models.{
  RiskError, RiskParameters, SymbolConstraints, AccountState, PositionState, TradeProposal,
}
use save_money_trading_bot.RiskEngine.Validation.{
  validate_account, validate_constraints, validate_parameters, validate_proposal,
  validate_open_positions, validate_positions_from, validate_position, validate_long_stop, error_if,
  seen,
}
use save_money_trading_bot.RiskEngine.Constraints.{validate_symbol_constraints_core}
use save_money_trading_bot.RiskEngine.LossLimits.{
  check_loss_limits, check_loss_limit, check_drawdown, when_enabled, ◌or_else◌,
}

-- The codes whose names start with RC_REJECT.
abbrev pub is_refusal : ReasonCode → Bool
is_refusal rc_reject_regime = true
is_refusal rc_reject_trend = true
is_refusal rc_reject_volume = true
is_refusal rc_reject_warmup = true
is_refusal rc_reject_data = true
is_refusal rc_reject_duplicate_symbol = true
is_refusal rc_reject_risk_trade = true
is_refusal rc_reject_risk_portfolio = true
is_refusal rc_reject_max_positions = true
is_refusal rc_reject_leverage = true
is_refusal rc_reject_no_signal = true
is_refusal _ = false

-- An error, if there is one, refuses.
abbrev pub Refuses : Option RiskError → Type 0
Refuses none = Unit
Refuses (some e) = is_refusal e.code ≡ true

-- Every error of a list does.
pub record AllRefuse (errors : List RiskError) : Type 0 where
  pub all : All (λ (e : RiskError). is_refusal e.code ≡ true) errors

pub validate_account-Refuses : (a : AccountState) → Refuses (validate_account a)
unfolding validate_account
validate_account-Refuses a = ground arith

pub validate_long_stop-Refuses : (entry stop : Decimal) → Refuses (validate_long_stop entry stop)
unfolding validate_long_stop
validate_long_stop-Refuses entry stop = ground arith

pub validate_constraints-Refuses : (c : SymbolConstraints) → Refuses (validate_constraints c)
unfolding validate_constraints
validate_constraints-Refuses c = elim (Option-cases (validate_symbol_constraints_core c)) [
  | inl quiet ↦ ground (arith, quiet)
  | inr (e, found) ↦ ground (arith, found)
]

or-Refuses :
    (o next : Option RiskError)
    → Refuses o
    → Refuses next
    → Refuses (elim o [ some e ↦ some e | none ↦ next ])
or-Refuses none next h k = k
or-Refuses (some e) next h k = h

pub validate_parameters-Refuses : (p : RiskParameters) → Refuses (validate_parameters p)
unfolding validate_parameters
validate_parameters-Refuses p = ground arith

validate_position-Refuses : (p : PositionState) → Refuses (validate_position p)
unfolding validate_position
validate_position-Refuses p = ground arith

positions_from-Refuses :
    (ss : List String) (ps : List PositionState) → Refuses (validate_positions_from ss ps)
unfolding validate_positions_from
positions_from-Refuses ss [] = tt
positions_from-Refuses ss (p ∷ ps) =
    let later =
      or-Refuses _ _ (validate_position-Refuses p) (positions_from-Refuses (p.symbol ∷ ss) ps) in
    elim (Bool-cases (str_eq p.symbol "" || seen p.symbol ss)) [
      | inl bad ↦ ground (arith, bad)
      | inr fine ↦ rw (validate_positions_from, fine) later
    ]

pub validate_open_positions-Refuses :
    (ps : List PositionState) → Refuses (validate_open_positions ps)
unfolding validate_open_positions
validate_open_positions-Refuses ps = positions_from-Refuses [] ps

AllRefuse-error_if :
    (b : Bool) (c : ReasonCode) (m : String) (rest : List RiskError)
    → is_refusal c ≡ true
    → AllRefuse rest
    → AllRefuse (error_if b c m ++ rest)
AllRefuse-error_if true c m rest h k = record { all = (h, k.all) }
AllRefuse-error_if false c m rest h k = k

AllRefuse-last :
    (b : Bool) (c : ReasonCode) (m : String) → is_refusal c ≡ true → AllRefuse (error_if b c m)
AllRefuse-last true c m h = record { all = (h, tt) }
AllRefuse-last false c m h = record { all = tt }

pub validate_proposal-AllRefuse : (p : TradeProposal) → AllRefuse (validate_proposal p)
unfolding validate_proposal
validate_proposal-AllRefuse p = search (AllRefuse-error_if, AllRefuse-last) depth 16

-- A check that may raise, and refuses where it reports.
record Checks (m : Exc (Option RiskError)) : Type 0 where
  refuses : (o : Option RiskError) → m ≡ ok o → Refuses o

loss_limit-Checks :
    (limit : Option Decimal) (pnl equity : Decimal) (invalid reached : String)
    → Checks (check_loss_limit limit pnl equity invalid reached)
unfolding check_loss_limit
loss_limit-Checks none pnl equity invalid reached = record { refuses = λ o h. ground arith }
loss_limit-Checks (some limit) pnl equity invalid reached =
    elim (Exc-cases (div (absolute pnl) equity)) [
      | inl (share, e) ↦ record { refuses = λ o h. ground (arith, e) }
      | inr (f, e) ↦ record { refuses = λ o h. ground (arith, e) }
    ]

drawdown-Checks :
    (limit peak : Option Decimal) (equity : Decimal) → Checks (check_drawdown limit peak equity)
unfolding check_drawdown
drawdown-Checks none peak equity = record { refuses = λ o h. ground arith }
drawdown-Checks (some limit) none equity = record { refuses = λ o h. ground arith }
drawdown-Checks (some limit) (some peak) equity = elim (Exc-cases (div (sub peak equity) peak)) [
  | inl (share, e) ↦ record { refuses = λ o h. ground (arith, e) }
  | inr (f, e) ↦ record { refuses = λ o h. ground (arith, e) }
]

when_enabled-Checks :
    (enabled : Bool) (m : Exc (Option RiskError)) → Checks m → Checks (when_enabled enabled m)
unfolding when_enabled
when_enabled-Checks true m h = h
when_enabled-Checks false m h = record { refuses = λ o k. ground arith }

or_else-Checks : (m n : Exc (Option RiskError)) → Checks m → Checks n → Checks (m or_else n)
unfolding ◌or_else◌
or_else-Checks (raised e) n h k = record { refuses = λ o j. cc }
or_else-Checks (ok none) n h k = k
or_else-Checks (ok (some e)) n h k = h

losses-Checks : (a : AccountState) (p : RiskParameters) → Checks (check_loss_limits a p)
unfolding check_loss_limits
losses-Checks a p =
    search (or_else-Checks, when_enabled-Checks, loss_limit-Checks, drawdown-Checks) depth 10

pub losses-Refuses :
    (a : AccountState) (p : RiskParameters) (o : Option RiskError)
    → check_loss_limits a p ≡ ok o
    → Refuses o
losses-Refuses a p o h = (losses-Checks a p).refuses o h

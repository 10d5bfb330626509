-- ===== src/RiskEngine/Validation.antt =====
-- services/risk_engine/validation.py: the fail-closed checks of every input. A check returns the
-- first violation, or none. The texts that go into an error's `details` are not kept.
pub mod Accepted
pub mod Proposal
pub mod Positions
use Prim.Native.String.{◌++◌ as append}
use save_money_trading_bot.Prelude.{
  String, Bool, true, false, not, ◌||◌, Option, none, some, List, [], ◌∷◌, ◌++◌, str_eq, any, ltb,
  ◌==◌, if◌then◌else◌,
}
use save_money_trading_bot.Decimal.{Decimal, nonpos, negative, lt, le, sub, is_finite}
use save_money_trading_bot.StrategyEngine.Codes.{
  ReasonCode, rc_reject_data, rc_reject_no_signal, is_long_entry,
}
use save_money_trading_bot.RiskEngine.Models.{
  default_risk_per_trade_pct, default_max_portfolio_risk_pct, default_max_open_positions,
  default_max_leverage, TradeSide, long, short, MarketDataStatus, market_ok, BotSystemState, active,
  RiskParameters, SymbolConstraints, AccountState, PositionState, TradeProposal, RiskError,
}
use save_money_trading_bot.RiskEngine.Constraints.{validate_symbol_constraints_core}

abbrev pub data_error : String → RiskError
data_error message = record { code = rc_reject_data; message = message }

-- `validate_account`
unfoldable pub validate_account : AccountState → Option RiskError
validate_account account =
    if not (is_finite account.equity_usd) || not (is_finite account.available_margin_usd)
    then some (data_error "Account values must be finite")
    else if nonpos account.equity_usd
    then some (data_error "Equity must be greater than zero")
    else if negative account.available_margin_usd
    then some (data_error "Available margin must not be negative")
    else none

-- `validate_constraints`
unfoldable pub validate_constraints : SymbolConstraints → Option RiskError
validate_constraints constraints = elim (validate_symbol_constraints_core constraints) [
  | none ↦ none
  | some violation ↦ some (data_error violation.message)
]

-- The loop of `validate_parameters` over its three decimal limits.
unfoldable pub first_bad_limit : List (String × Decimal × Decimal) → Option RiskError
first_bad_limit [] = none
first_bad_limit ((name, value, frozen_maximum) ∷ limits) =
    if not (is_finite value) || (nonpos value || lt frozen_maximum value)
    then some (data_error (append "Invalid " (append name " for Specification Freeze 1.0")))
    else first_bad_limit limits

unfoldable pub validate_parameters : RiskParameters → Option RiskError
unfolding first_bad_limit
validate_parameters params =
    elim (first_bad_limit (
      ("risk_per_trade_pct", params.risk_per_trade_pct, default_risk_per_trade_pct)
      ∷ ("max_portfolio_risk_pct", params.max_portfolio_risk_pct, default_max_portfolio_risk_pct)
      ∷ ("max_leverage", params.max_leverage, default_max_leverage)
      ∷ [])) [
        | some e ↦ some e
        | none ↦
            if params.max_open_positions == 0
              || ltb default_max_open_positions params.max_open_positions
            then some (data_error "Invalid max_open_positions for Specification Freeze 1.0")
            else if not (is_finite params.risk_rounding_tolerance)
                || negative params.risk_rounding_tolerance
            then some (data_error "Invalid risk_rounding_tolerance")
            else none
      ]

abbrev pub seen : String → List String → Bool
seen symbol = any (λ s. str_eq s symbol)

-- The inner loop over the five prices and sizes of one open position.
unfoldable pub first_bad_value : List (String × Decimal) → Option RiskError
first_bad_value [] = none
first_bad_value ((name, value) ∷ fields) =
    if not (is_finite value) || nonpos value
    then some (data_error (append "Invalid open-position " name))
    else first_bad_value fields

-- The loop body of `validate_open_positions` after the test on the symbol.
unfoldable pub validate_position : PositionState → Option RiskError
unfolding first_bad_value
validate_position position =
    elim (first_bad_value (
      ("entry_price", position.entry_price)
      ∷ ("position_size", position.position_size)
      ∷ ("stop_initial", position.stop_initial)
      ∷ ("trail_stop", position.trail_stop)
      ∷ ("mark_price", position.mark_price)
      ∷ [])) [
        | some e ↦ some e
        | none ↦
            if le position.entry_price position.stop_initial
            then some (data_error "Open-position initial stop must be below entry price")
            else none
      ]

-- The loop of `validate_open_positions`, with the symbols seen so far.
unfoldable pub validate_positions_from : List String → List PositionState → Option RiskError
unfolding validate_position
validate_positions_from seen_symbols [] = none
validate_positions_from seen_symbols (position ∷ positions) =
    let rest = validate_positions_from (position.symbol ∷ seen_symbols) positions in
    if str_eq position.symbol "" || seen position.symbol seen_symbols
    then some (data_error "Invalid or duplicate symbol in open positions")
    else elim (validate_position position) [ some e ↦ some e | none ↦ rest ]

unfoldable pub validate_open_positions : List PositionState → Option RiskError
unfolding validate_positions_from
validate_open_positions = validate_positions_from []

abbrev pub is_long : TradeSide → Bool
is_long long = true
is_long short = false

abbrev pub is_market_ok : MarketDataStatus → Bool
is_market_ok market_ok = true
is_market_ok _ = false

abbrev pub is_active : BotSystemState → Bool
is_active active = true
is_active _ = false

abbrev pub is_bad_price : Decimal → Bool
is_bad_price value = not (is_finite value) || nonpos value

abbrev pub is_bad_atr : Option Decimal → Bool
is_bad_atr none = false
is_bad_atr (some atr14) = is_bad_price atr14

-- `errors.append` under a test.
abbrev pub error_if : Bool → ReasonCode → String → List RiskError
error_if test code message = if test then record { code = code; message = message } ∷ [] else []

-- `validate_proposal` collects every violation.
unfoldable pub validate_proposal : TradeProposal → List RiskError
validate_proposal p =
    error_if (not (is_long p.side)) rc_reject_data "V1 is long-only; short proposals rejected"
    ++ (error_if (is_bad_price p.entry_price) rc_reject_data "Invalid entry_price"
        ++ (error_if (is_bad_price p.stop_price) rc_reject_data "Invalid stop_price"
            ++ (error_if (is_bad_atr p.atr14) rc_reject_data "Invalid ATR14"
                ++ (error_if (not (is_long_entry p.signal_intent_kind)) rc_reject_no_signal
                      "Signal intent must be LONG_ENTRY"
                    ++ (error_if (not p.strategy_approved) rc_reject_no_signal
                          "Strategy approval missing"
                        ++ (error_if (not (is_market_ok p.market_data_status)) rc_reject_data
                              "Market data not OK"
                            ++ error_if (not (is_active p.bot_system_state)) rc_reject_data
                                "Bot system state does not allow entries"))))))

-- `validate_long_stop`
unfoldable pub validate_long_stop : Decimal → Decimal → Option RiskError
validate_long_stop entry_price stop_price =
    if le entry_price stop_price
    then some (data_error "Long stop must be below entry price")
    else if nonpos (sub entry_price stop_price)
    then some (data_error "Stop distance must be positive")
    else none

-- ===== src/Backtester/Lifecycle.antt =====
-- services/backtester/paper_lifecycle.py: what an entry costs, what the risk engine says of it, when a
-- stop fires and what an exit brings. `EntryFillComputation` and the other results are records here too.
pub mod Stops
use save_money_trading_bot.Prelude.{
  String, Bool, true, false, Option, none, some, List, [], ◌∷◌, if◌then◌else◌,
}
use save_money_trading_bot.Decimal.{Decimal, Exc, ok, raised, ◌>>=◌, of_ℕ, lt, le, add, sub, mul}
use save_money_trading_bot.StrategyEngine.Codes.{ReasonCode, rc_risk_approved, long_entry}
use save_money_trading_bot.StrategyEngine.Models.{
  Time, Candle, StrategyParameters, TrailingStopState,
}
use save_money_trading_bot.StrategyEngine.Stops.{
  compute_initial_stop, initialize_trailing_stop, update_trailing_stop,
}
use save_money_trading_bot.RiskEngine.Models.{
  RiskParameters, SymbolConstraints, RiskDecision, TradeProposal, long, market_ok, active,
}
use save_money_trading_bot.RiskEngine.Step.{Step, go, reject, fault}
use save_money_trading_bot.RiskEngine.Engine as RiskEngine
use save_money_trading_bot.Backtester.Models.{
  ExitReason, stop_initial_hit, stop_trailing_hit, stop_gap_hit, PendingIntent, SimulatedPosition,
}
use save_money_trading_bot.Backtester.Execution.{
  apply_entry_slippage, apply_exit_slippage, compute_fee, compute_slippage_cost,
}
use save_money_trading_bot.Backtester.Portfolio.{
  Marks, resolve_marks_at_open, position_margin, to_position_states, to_open_orders,
  build_account_state,
}

pub record EntryFillComputation : Type 0 where
  pub open_ref : Decimal
  pub fill_price : Decimal
  pub stop_initial : Decimal
  pub slippage_cost : Decimal

pub record EntryAccounting : Type 0 where
  pub quantity : Decimal
  pub notional : Decimal
  pub fee : Decimal
  pub slippage_cost : Decimal
  pub margin_reserved : Decimal
  pub initial_risk_usd : Decimal
  pub trail_state : TrailingStopState

pub record StopTriggerResult : Type 0 where
  pub exit_reference : Decimal
  pub exit_reason : ExitReason

pub record ExitAccounting : Type 0 where
  pub fill_price : Decimal
  pub fee : Decimal
  pub slippage_cost : Decimal
  pub gross_pnl : Decimal
  pub net_wallet_delta : Decimal

unfoldable pub compute_entry_fill_prices :
    (open_ref atr14 slippage_bps : Decimal)
    → StrategyParameters
    → (price_tick_size : Decimal) → Exc EntryFillComputation
compute_entry_fill_prices open_ref atr14 slippage_bps params price_tick_size = do
  fill_price ← apply_entry_slippage open_ref (record { slippage_bps = slippage_bps })
  stop_initial ← compute_initial_stop fill_price atr14 params (some price_tick_size)
  ok (record {
    open_ref = open_ref;
    fill_price = fill_price;
    stop_initial = stop_initial;
    slippage_cost = compute_slippage_cost open_ref fill_price (of_ℕ 1);
  })

-- What the risk engine reads of the backtest.
pub record EntryContext : Type 0 where
  pub wallet_cash : Decimal
  pub open_positions : List SimulatedPosition
  pub pending_intents : List PendingIntent
  pub processed_intent_ids : List String
  pub day_candles : String → Option Candle
  pub prior_closes : Marks

-- The request of `evaluate_entry_risk_decision`, with its defaults for the market and the bot.
unfoldable pub entry_request :
    EntryContext
    → (symbol : String) (fill_price stop_initial : Decimal) (client_intent_id : String)
      (atr14 : Decimal)
    → SymbolConstraints
    → RiskParameters
    → RiskEngine.Request
entry_request x symbol fill_price stop_initial client_intent_id atr14 constraints params =
    let marks = resolve_marks_at_open x.open_positions x.day_candles x.prior_closes in
    record {
      proposal = record {
        symbol = symbol;
        side = long;
        entry_price = fill_price;
        stop_price = stop_initial;
        client_intent_id = client_intent_id;
        signal_intent_kind = long_entry;
        strategy_approved = true;
        market_data_status = market_ok;
        bot_system_state = active;
        atr14 = some atr14;
      };
      account = build_account_state x.wallet_cash x.open_positions marks;
      constraints = constraints;
      open_positions = to_position_states x.open_positions marks;
      open_orders = to_open_orders x.pending_intents;
      processed_intent_ids = x.processed_intent_ids;
      p = params;
    }

-- The decision that `RiskEngine.evaluate` returns, early or at its end.
abbrev pub decision_of : Step RiskDecision → Exc RiskDecision
decision_of (go d) = ok d
decision_of (reject d) = ok d
decision_of (fault e) = raised e

unfoldable pub evaluate_entry_risk_decision :
    EntryContext
    → (symbol : String) (fill_price stop_initial : Decimal) (client_intent_id : String)
      (atr14 : Decimal)
    → SymbolConstraints
    → RiskParameters
    → Exc RiskDecision
unfolding entry_request
evaluate_entry_risk_decision x symbol fill_price stop_initial client_intent_id atr14 constraints
      params =
    decision_of (
      RiskEngine.evaluate
        (entry_request x symbol fill_price stop_initial client_intent_id atr14 constraints params))

unfoldable pub compute_entry_accounting :
    (fill_price open_ref quantity stop_initial fee_rate max_leverage : Decimal)
    → StrategyParameters
    → (price_tick_size atr14 : Decimal) → Exc EntryAccounting
compute_entry_accounting fill_price open_ref quantity stop_initial fee_rate max_leverage params
      price_tick_size atr14 =
    do
      let notional = mul fill_price quantity
      margin ← position_margin notional max_leverage
      trail_state ←
          initialize_trailing_stop fill_price atr14 stop_initial params (some price_tick_size)
      ok (record {
        quantity = quantity;
        notional = notional;
        fee = compute_fee notional fee_rate;
        slippage_cost = compute_slippage_cost open_ref fill_price quantity;
        margin_reserved = margin;
        initial_risk_usd = mul quantity (sub fill_price stop_initial);
        trail_state = trail_state;
      })

abbrev pub is_approval : ReasonCode → Bool
is_approval rc_risk_approved = true
is_approval _ = false

unfoldable pub without_approval : List ReasonCode → List ReasonCode
without_approval [] = []
without_approval (c ∷ cs) =
    let rest = without_approval cs in if is_approval c then rest else c ∷ rest

-- All codes but the approval, or all of them if nothing is left.
unfoldable pub filter_rejection_reason_codes : RiskDecision → List ReasonCode
unfolding without_approval
filter_rejection_reason_codes decision = elim (without_approval decision.reason_codes) [
  | [] ↦ decision.reason_codes
  | c ∷ cs ↦ c ∷ cs
]

unfoldable pub compute_gap_stop_at_open :
    Candle → (effective_stop : Decimal) → Option StopTriggerResult
compute_gap_stop_at_open candle effective_stop =
    if lt candle.open_price effective_stop
    then some (record { exit_reference = candle.open_price; exit_reason = stop_gap_hit })
    else none

unfoldable pub compute_intraday_stop :
    Candle → (effective_stop initial_stop trail_stop : Decimal) → Option StopTriggerResult
compute_intraday_stop candle effective_stop initial_stop trail_stop =
    if le candle.low effective_stop
    then some (record {
      exit_reference = effective_stop;
      exit_reason = if le initial_stop trail_stop then stop_trailing_hit else stop_initial_hit;
    })
    else none

unfoldable pub compute_stop_trigger :
    Candle → (effective_stop initial_stop trail_stop : Decimal) → Option StopTriggerResult
unfolding compute_gap_stop_at_open compute_intraday_stop
compute_stop_trigger candle effective_stop initial_stop trail_stop =
    elim (compute_gap_stop_at_open candle effective_stop) [
      | some gap ↦ some gap
      | none ↦ compute_intraday_stop candle effective_stop initial_stop trail_stop
    ]

unfoldable pub compute_exit_accounting :
    (exit_reference quantity entry_price slippage_bps fee_rate : Decimal) → Exc ExitAccounting
compute_exit_accounting exit_reference quantity entry_price slippage_bps fee_rate = do
  fill_price ← apply_exit_slippage exit_reference (record { slippage_bps = slippage_bps })
  let notional = mul fill_price quantity
  let fee = compute_fee notional fee_rate
  let gross = mul (sub fill_price entry_price) quantity
  ok (record {
    fill_price = fill_price;
    fee = fee;
    slippage_cost = compute_slippage_cost exit_reference fill_price quantity;
    gross_pnl = gross;
    net_wallet_delta = sub gross fee;
  })

unfoldable pub compute_trailing_stop_update :
    TrailingStopState
    → (daily_close atr14 : Decimal) → StrategyParameters
    → (price_tick_size : Decimal) → Exc TrailingStopState
compute_trailing_stop_update state daily_close atr14 params price_tick_size =
    update_trailing_stop state daily_close atr14 params (some price_tick_size)

unfoldable pub build_simulated_position_from_entry :
    (symbol : String) (quantity fill_price : Decimal) (entry_time : Time)
    → EntryAccounting
    → (atr14 : Decimal) (client_intent_id : String) → SimulatedPosition
build_simulated_position_from_entry symbol quantity fill_price entry_time accounting atr14
      client_intent_id =
    record {
      symbol = symbol;
      quantity = quantity;
      entry_price = fill_price;
      entry_time = entry_time;
      initial_stop = accounting.trail_state.stop_initial;
      trail_stop = accounting.trail_state.trail_stop;
      effective_stop = accounting.trail_state.effective_stop;
      highest_close = accounting.trail_state.highest_close;
      entry_atr14 = atr14;
      client_intent_id = client_intent_id;
      margin_reserved = accounting.margin_reserved;
    }

-- ===== src/Backtester/Entries.antt =====
-- services/backtester/engine.py: `_fill_pending_at_open` and `_strategy_and_queue`; and
-- services/backtester/intent.py.
use Prim.Native.String.{◌++◌ as append}
use save_money_trading_bot.Prelude.{
  String, Bool, true, false, not, Option, none, some, List, [], ◌∷◌, ◌++◌, any, str_eq,
  if◌then◌else◌,
}
use save_money_trading_bot.Prelude.Dict.{contains, put, values}
use save_money_trading_bot.Decimal.{Decimal, Exc, ok, ◌>>=◌, lt, add, sub, zero_dec}
use save_money_trading_bot.StrategyEngine.Codes.{
  EntryType, breakout, pullback, is_long_entry, daily, weekly, monthly, rc_reject_leverage,
}
use save_money_trading_bot.StrategyEngine.Models.{Time, Candle, StrategyEvaluation}
use save_money_trading_bot.StrategyEngine.Engine as StrategyEngine
use save_money_trading_bot.StrategyEngine.Readings.{Request}
use save_money_trading_bot.RiskEngine.Models.{SymbolConstraints, RiskDecision}
use save_money_trading_bot.RiskEngine.Validation.{seen}
use save_money_trading_bot.Backtester.Models.{
  order_filled, BacktestConfig, HistoricalDataBundle, PendingIntent, BacktestTrade,
  TrailingStopSnapshot,
}
use save_money_trading_bot.Backtester.Portfolio.{Marks}
use save_money_trading_bot.Backtester.Lifecycle.{
  EntryFillComputation, EntryAccounting, EntryContext, compute_entry_fill_prices,
  evaluate_entry_risk_decision, compute_entry_accounting, filter_rejection_reason_codes,
  build_simulated_position_from_entry,
}
use save_money_trading_bot.Backtester.Slicing.{build_candle_series}
use save_money_trading_bot.Backtester.Runtime.{
  Runtime, get_constraints, mark_terminal_intent, reject_intent, for_each,
}
use save_money_trading_bot.Backtester.Exits.{check_stop_exit}

-- Of a symbol's pending intents, those of the symbol (true) or the others.
unfoldable pub intents_of :
    (of_symbol : Bool) (symbol : String) → List PendingIntent → List PendingIntent
intents_of true symbol [] = []
intents_of true symbol (p ∷ ps) =
    let rest = intents_of true symbol ps in if str_eq p.symbol symbol then p ∷ rest else rest
intents_of false symbol [] = []
intents_of false symbol (p ∷ ps) =
    let rest = intents_of false symbol ps in if str_eq p.symbol symbol then rest else p ∷ rest

-- The trade that an entry opens.
unfoldable pub opened_trade :
    (symbol : String)
    → Candle
    → PendingIntent
    → RiskDecision
    → EntryFillComputation
    → EntryAccounting
    → List TrailingStopSnapshot
    → BacktestTrade
opened_trade symbol candle intent decision fills accounting history = record {
  symbol = symbol;
  client_intent_id = intent.client_intent_id;
  strategy_version = intent.strategy_version;
  entry_type = intent.entry_type;
  strategy_reason_codes = intent.strategy_reason_codes;
  risk_reason_codes = decision.reason_codes;
  signal_time = intent.signal_time;
  order_time = intent.order_time;
  entry_time = candle.open_time;
  entry_reference_price = candle.open_price;
  entry_fill_price = fills.fill_price;
  quantity = accounting.quantity;
  initial_stop = fills.stop_initial;
  trailing_stop_history = history;
  exit_time = none;
  exit_reason = none;
  exit_reference_price = none;
  exit_fill_price = none;
  gross_pnl = none;
  fees = accounting.fee;
  funding = zero_dec;
  slippage_cost = accounting.slippage_cost;
  net_pnl = none;
  initial_risk_usd = some accounting.initial_risk_usd;
  r_multiple = none;
  holding_period_days = none;
}

-- The end of an entry that is approved and paid for.
unfoldable pub open_position :
    (symbol : String)
    → Candle
    → PendingIntent
    → RiskDecision
    → EntryFillComputation
    → EntryAccounting
    → Runtime
    → Runtime
unfolding build_simulated_position_from_entry opened_trade mark_terminal_intent
open_position symbol candle intent decision fills accounting rt =
    let p =
      build_simulated_position_from_entry symbol accounting.quantity fills.fill_price
        candle.open_time accounting intent.atr14 intent.client_intent_id in
    let history =
      record {
        time = candle.open_time;
        trail_stop = p.trail_stop;
        effective_stop = p.effective_stop;
      }
      ∷ [] in
    mark_terminal_intent intent order_filled (some accounting.quantity) (some candle.open_price)
      (record rt {
        cash = sub rt.cash accounting.fee;
        total_fees = add rt.total_fees accounting.fee;
        total_slippage = add rt.total_slippage accounting.slippage_cost;
        positions = put symbol p rt.positions;
        trail_history = put symbol history rt.trail_history;
        active_trades =
            put symbol (opened_trade symbol candle intent decision fills accounting history)
              rt.active_trades;
      })

-- The quantity of an approved decision.
abbrev pub approved_quantity : RiskDecision → Option Decimal
approved_quantity decision = if decision.approved then decision.rounded_quantity else none

-- The entry of an approved quantity, unless its fee is more than the cash.
unfoldable pub enter :
    BacktestConfig
    → (symbol : String) → Candle
    → PendingIntent
    → SymbolConstraints
    → EntryFillComputation
    → RiskDecision
    → (quantity : Decimal) → Runtime
    → Exc Runtime
unfolding open_position reject_intent
enter config symbol candle intent constraints fills decision quantity rt = do
  accounting ←
      compute_entry_accounting fills.fill_price candle.open_price quantity fills.stop_initial
        config.fee_model.entry_fee_rate config.risk_params.max_leverage config.strategy_params
        constraints.price_tick_size intent.atr14
  if lt rt.cash accounting.fee
      then ok (reject_intent candle symbol intent (rc_reject_leverage ∷ []) rt)
      else check_stop_exit config true symbol candle
          (open_position symbol candle intent decision fills accounting rt)

-- What `_fill_pending_at_open` hands to the risk engine.
abbrev pub entry_context :
    (day_candles : String → Option Candle) (prior_closes : Marks) → Runtime → EntryContext
entry_context day_candles prior_closes rt = record {
  wallet_cash = rt.cash;
  open_positions = values rt.positions;
  pending_intents = rt.pending_intents;
  processed_intent_ids = rt.processed_intent_ids;
  day_candles = day_candles;
  prior_closes = prior_closes;
}

-- The loop body of `_fill_pending_at_open`.
unfoldable pub fill_intent :
    BacktestConfig
    → (symbol : String) → Candle
    → (day_candles : String → Option Candle) (prior_closes : Marks) → PendingIntent
    → Runtime
    → Exc Runtime
unfolding enter reject_intent
fill_intent config symbol candle day_candles prior_closes intent rt =
    if seen intent.client_intent_id rt.processed_intent_ids then ok rt else (do
      constraints ← get_constraints config symbol
      fills ←
          compute_entry_fill_prices candle.open_price intent.atr14
            config.slippage_model.slippage_bps config.strategy_params constraints.price_tick_size
      decision ←
          evaluate_entry_risk_decision (entry_context day_candles prior_closes rt) symbol
            fills.fill_price fills.stop_initial intent.client_intent_id intent.atr14 constraints
            config.risk_params
      elim (approved_quantity decision) [
        | none ↦ ok (reject_intent candle symbol intent (filter_rejection_reason_codes decision) rt)
        | some quantity ↦ enter config symbol candle intent constraints fills decision quantity rt
      ])

-- `_fill_pending_at_open`
unfoldable pub fill_pending_at_open :
    BacktestConfig
    → (symbol : String) → Candle
    → (day_candles : String → Option Candle) (prior_closes : Marks) → Runtime
    → Exc Runtime
unfolding fill_intent intents_of
fill_pending_at_open config symbol candle day_candles prior_closes rt =
    for_each (fill_intent config symbol candle day_candles prior_closes)
      (intents_of true symbol rt.pending_intents)
      (record rt { pending_intents = intents_of false symbol rt.pending_intents })

-- `entry_type.value`
abbrev pub entry_type_value : EntryType → String
entry_type_value breakout = "BREAKOUT"
entry_type_value pullback = "PULLBACK"

-- What `_strategy_and_queue` hands to the strategy engine.
abbrev pub strategy_request :
    BacktestConfig → HistoricalDataBundle → (symbol : String) (eval_time : Time) → Request
strategy_request config bundle symbol eval_time = record {
  daily_series = build_candle_series symbol daily (bundle.daily symbol) eval_time;
  weekly_series = build_candle_series symbol weekly (bundle.weekly symbol) eval_time;
  monthly_series = build_candle_series symbol monthly (bundle.monthly symbol) eval_time;
  evaluation_time = eval_time;
  params = config.strategy_params;
}

module _ (format_time : Time → String) where
  -- `build_client_intent_id`, over the text that `strftime` gives for a time.
  unfoldable pub build_client_intent_id :
      (symbol strategy_version : String) → (signal_time : Time) → EntryType → String
  build_client_intent_id symbol strategy_version signal_time entry_type = append symbol (
      append ":" (
        append strategy_version (
          append ":"
            (append (format_time signal_time) (append ":" (entry_type_value entry_type))))))

  -- The guards of `_strategy_and_queue` below its evaluation, and what it appends.
  unfoldable pub queue_intent :
      (symbol : String) (eval_time : Time)
      → StrategyEvaluation
      → EntryType
      → (stop_initial atr : Decimal) → Runtime
      → Runtime
  unfolding build_client_intent_id
  queue_intent symbol eval_time e entry_type stop_initial atr rt =
      let id = build_client_intent_id symbol e.version eval_time entry_type in
      if seen id rt.processed_intent_ids
      then rt
      else if contains symbol rt.positions
      then rt
      else if any (λ (p : PendingIntent). str_eq p.symbol symbol) rt.pending_intents
      then rt
      else record rt {
        pending_intents =
            rt.pending_intents
            ++ record {
              client_intent_id = id;
              symbol = symbol;
              strategy_version = e.version;
              entry_type = entry_type;
              strategy_reason_codes = e.reason_codes;
              signal_time = eval_time;
              order_time = eval_time;
              signal_close_price = elim e.signal_intent.entry_price [
                | some price ↦ price
                | none ↦ zero_dec
              ];
              stop_price = stop_initial;
              atr14 = atr;
              strategy_evaluation = e;
            }
              ∷ [];
      }

  -- The early returns on the evaluation's own fields.
  unfoldable pub queue_evaluation :
      (symbol : String) (eval_time : Time) → StrategyEvaluation → Runtime → Runtime
  unfolding queue_intent
  queue_evaluation symbol eval_time e rt =
      if not (is_long_entry e.signal_intent.kind) then rt else elim e.selected_entry_type [
        | none ↦ rt
        | some entry_type ↦ elim e.signal_intent.stop_initial [
          | none ↦ rt
          | some stop_initial ↦ elim e.atr [
            | none ↦ rt
            | some atr ↦ queue_intent symbol eval_time e entry_type stop_initial atr rt
          ]
        ]
      ]

  -- `_strategy_and_queue`
  unfoldable pub strategy_and_queue :
      BacktestConfig
      → HistoricalDataBundle
      → (symbol : String) (eval_time : Time) → Runtime
      → Exc Runtime
  unfolding queue_evaluation
  strategy_and_queue config bundle symbol eval_time rt = do
    e ← StrategyEngine.evaluate (strategy_request config bundle symbol eval_time)
    ok (queue_evaluation symbol eval_time e (record rt { evaluations = rt.evaluations ++ e ∷ [] }))

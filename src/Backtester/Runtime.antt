-- ===== src/Backtester/Runtime.antt =====
-- services/backtester/engine.py: `_Runtime`, the state of a run, and what the steps do to it first.
use save_money_trading_bot.Prelude.{
  ℕ, ◌-◌, ◌/◌, String, Option, none, some, List, [], ◌∷◌, ◌++◌, leb, if◌then◌else◌,
}
use save_money_trading_bot.Prelude.Int.{ℤ, pos, negsuc}
use save_money_trading_bot.Prelude.Dict.{Dict, put}
use save_money_trading_bot.Decimal.{Decimal, Exc, ok, raised, value_error, ◌>>=◌, zero_dec}
use save_money_trading_bot.StrategyEngine.Codes.{ReasonCode}
use save_money_trading_bot.StrategyEngine.Models.{Time, Candle, StrategyEvaluation}
use save_money_trading_bot.RiskEngine.Models.{SymbolConstraints}
use save_money_trading_bot.RiskEngine.Validation.{seen}
use save_money_trading_bot.Backtester.Models.{
  OrderStatus, order_rejected, BacktestConfig, PendingIntent, SimulatedOrder, SimulatedPosition,
  TrailingStopSnapshot, BacktestTrade, EquitySnapshot, RiskRejectionRecord,
}

-- The set of processed intents is a list; the warnings of the data are no part of the state.
pub record Runtime : Type 0 where
  pub cash : Decimal
  pub positions : Dict SimulatedPosition
  pub pending_intents : List PendingIntent
  pub processed_intent_ids : List String
  pub intent_orders : Dict SimulatedOrder
  pub active_trades : Dict BacktestTrade
  pub closed_trades : List BacktestTrade
  pub evaluations : List StrategyEvaluation
  pub rejections : List RiskRejectionRecord
  pub equity_curve : List EquitySnapshot
  pub total_fees : Decimal
  pub total_funding : Decimal
  pub total_slippage : Decimal
  pub realized_pnl : Decimal
  pub trail_history : Dict (List TrailingStopSnapshot)
  pub peak_equity : Decimal

-- The state in which `run` starts.
unfoldable pub initial_runtime : BacktestConfig → Runtime
initial_runtime config = record {
  cash = config.initial_cash;
  positions = [];
  pending_intents = [];
  processed_intent_ids = config.initial_processed_intent_ids;
  intent_orders = [];
  active_trades = [];
  closed_trades = [];
  evaluations = [];
  rejections = [];
  equity_curve = [];
  total_fees = zero_dec;
  total_funding = zero_dec;
  total_slippage = zero_dec;
  realized_pnl = zero_dec;
  trail_history = [];
  peak_equity = config.initial_cash;
}

-- `_get_constraints`
unfoldable pub get_constraints : BacktestConfig → String → Exc SymbolConstraints
get_constraints config symbol = elim (config.symbol_constraints symbol) [
  | some c ↦ ok c
  | none ↦ raised value_error
]

-- `processed_intent_ids.add(id)`
abbrev pub add_id : String → List String → List String
add_id id ids = if seen id ids then ids else id ∷ ids

-- `_mark_terminal_intent`
unfoldable pub mark_terminal_intent :
    PendingIntent → OrderStatus → (quantity reference_price : Option Decimal) → Runtime → Runtime
mark_terminal_intent intent status quantity reference_price rt = record rt {
  processed_intent_ids = add_id intent.client_intent_id rt.processed_intent_ids;
  intent_orders =
      put intent.client_intent_id
        (record {
          client_intent_id = intent.client_intent_id;
          symbol = intent.symbol;
          status = status;
          quantity = quantity;
          reference_price = reference_price;
        })
        rt.intent_orders;
}

-- A rejected entry: the intent ends, and the rejection is recorded.
unfoldable pub reject_intent :
    Candle → (symbol : String) → PendingIntent → List ReasonCode → Runtime → Runtime
unfolding mark_terminal_intent
reject_intent candle symbol intent codes rt =
    let marked = mark_terminal_intent intent order_rejected none none rt in
    record marked {
      rejections =
          marked.rejections
          ++ record {
            time = candle.open_time;
            symbol = symbol;
            client_intent_id = intent.client_intent_id;
            reason_codes = codes;
            strategy_reason_codes = intent.strategy_reason_codes;
          }
            ∷ [];
    }

-- A day, in microseconds.
abbrev pub one_day : ℕ
one_day = 86400000000

-- `(exit - entry).days`, rounded down also where the exit is earlier.
unfoldable pub days_between : (entry exit : Time) → ℤ
days_between entry exit =
    if leb entry exit then pos ((exit - entry) / one_day) else negsuc ((entry - exit - 1) / one_day)

-- A loop over a list that may raise.
unfoldable pub for_each {ℓ} :
    {A : Type ℓ} → (A → Runtime → Exc Runtime) → List A → Runtime → Exc Runtime
for_each f [] rt = ok rt
for_each f (x ∷ xs) rt = do rt' ← f x rt; for_each f xs rt'

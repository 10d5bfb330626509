-- ===== src/PaperTrading/Enums.antt =====
-- services/paper_trading/enums.py: the statuses of the runtime, of intents and of orders.
use save_money_trading_bot.Prelude.{ℕ, Bool, ◌==◌}

-- `class RuntimeStatus`
pub data RuntimeStatus : Type 0 where
  stopped starting recovering syncing ready degraded paused killed shutting_down : RuntimeStatus
  runtime_failed : RuntimeStatus

-- `class TradeIntentStatus`
pub data TradeIntentStatus : Type 0 where
  created approved scheduled submitted_to_paper_engine partially_filled filled : TradeIntentStatus
  cancelled rejected expired failed : TradeIntentStatus

-- `class PaperOrderStatus`
pub data PaperOrderStatus : Type 0 where
  order_pending order_open order_partially_filled order_filled : PaperOrderStatus
  order_cancelled order_rejected order_expired : PaperOrderStatus

-- The place of a member in its enumeration, to compare by.
abbrev pub runtime_place : RuntimeStatus → ℕ
runtime_place stopped = 0
runtime_place starting = 1
runtime_place recovering = 2
runtime_place syncing = 3
runtime_place ready = 4
runtime_place degraded = 5
runtime_place paused = 6
runtime_place killed = 7
runtime_place shutting_down = 8
runtime_place runtime_failed = 9

abbrev pub intent_place : TradeIntentStatus → ℕ
intent_place created = 0
intent_place approved = 1
intent_place scheduled = 2
intent_place submitted_to_paper_engine = 3
intent_place partially_filled = 4
intent_place filled = 5
intent_place cancelled = 6
intent_place rejected = 7
intent_place expired = 8
intent_place failed = 9

abbrev pub order_place : PaperOrderStatus → ℕ
order_place order_pending = 0
order_place order_open = 1
order_place order_partially_filled = 2
order_place order_filled = 3
order_place order_cancelled = 4
order_place order_rejected = 5
order_place order_expired = 6

abbrev pub same_runtime : RuntimeStatus → RuntimeStatus → Bool
same_runtime a b = runtime_place a == runtime_place b

abbrev pub same_intent : TradeIntentStatus → TradeIntentStatus → Bool
same_intent a b = intent_place a == intent_place b

abbrev pub same_order : PaperOrderStatus → PaperOrderStatus → Bool
same_order a b = order_place a == order_place b

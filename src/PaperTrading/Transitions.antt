-- ===== src/PaperTrading/Transitions.antt =====
-- services/paper_trading/transitions.py: the tables of permitted changes and the checks that read them.
pub mod Intents
pub mod Runtime
use save_money_trading_bot.Prelude.{Bool, not, List, [], ◌∷◌, any, if◌then◌else◌}
use save_money_trading_bot.PaperTrading.Enums.{
  RuntimeStatus, stopped, starting, recovering, syncing, ready, degraded, paused, killed,
  shutting_down, runtime_failed, TradeIntentStatus, created, approved, scheduled,
  submitted_to_paper_engine, filled, cancelled, rejected, expired, failed, PaperOrderStatus,
  order_pending, order_open, order_filled, order_cancelled, order_rejected, order_expired,
  same_runtime, same_intent, same_order,
}

-- How a check ends: it returns, or raises `InvalidTransitionError` with one of its two messages.
pub data Verdict : Type 0 where
  permitted already_terminal invalid_transition : Verdict

-- `TERMINAL_INTENT_STATUSES`
abbrev pub terminal_intent_statuses : List TradeIntentStatus
terminal_intent_statuses = rejected ∷ cancelled ∷ expired ∷ failed ∷ filled ∷ []

-- `TERMINAL_ORDER_STATUSES`
abbrev pub terminal_order_statuses : List PaperOrderStatus
terminal_order_statuses = order_rejected ∷ order_cancelled ∷ order_expired ∷ order_filled ∷ []

-- `_INTENT_TRANSITIONS.get(current, frozenset())`
unfoldable pub intent_transitions : TradeIntentStatus → List TradeIntentStatus
intent_transitions created = approved ∷ scheduled ∷ rejected ∷ cancelled ∷ failed ∷ []
intent_transitions approved =
    scheduled ∷ submitted_to_paper_engine ∷ rejected ∷ cancelled ∷ failed ∷ expired ∷ []
intent_transitions scheduled =
    submitted_to_paper_engine ∷ filled ∷ rejected ∷ cancelled ∷ failed ∷ expired ∷ []
intent_transitions submitted_to_paper_engine = filled ∷ rejected ∷ failed ∷ []
intent_transitions _ = []

-- `_ORDER_TRANSITIONS.get(current, frozenset())`
unfoldable pub order_transitions : PaperOrderStatus → List PaperOrderStatus
order_transitions order_pending = order_open ∷ order_rejected ∷ order_cancelled ∷ order_expired ∷ []
order_transitions order_open = order_filled ∷ order_rejected ∷ order_cancelled ∷ order_expired ∷ []
order_transitions _ = []

-- `_RUNTIME_TRANSITIONS.get(current, frozenset())`
unfoldable pub runtime_transitions : RuntimeStatus → List RuntimeStatus
runtime_transitions stopped = starting ∷ []
runtime_transitions starting = recovering ∷ syncing ∷ runtime_failed ∷ []
runtime_transitions recovering = syncing ∷ ready ∷ degraded ∷ runtime_failed ∷ []
runtime_transitions syncing = ready ∷ degraded ∷ runtime_failed ∷ []
runtime_transitions ready = degraded ∷ runtime_failed ∷ paused ∷ killed ∷ shutting_down ∷ []
runtime_transitions degraded =
    recovering ∷ ready ∷ paused ∷ killed ∷ shutting_down ∷ runtime_failed ∷ []
runtime_transitions paused = ready ∷ shutting_down ∷ []
runtime_transitions killed = shutting_down ∷ []
runtime_transitions shutting_down = stopped ∷ runtime_failed ∷ []
runtime_transitions runtime_failed = []

unfoldable pub validate_intent_transition : (current target : TradeIntentStatus) → Verdict
unfolding intent_transitions
validate_intent_transition current target =
    if same_intent current target
    then permitted
    else if any (same_intent current) terminal_intent_statuses
    then already_terminal
    else if not (any (same_intent target) (intent_transitions current))
    then invalid_transition
    else permitted

unfoldable pub validate_order_transition : (current target : PaperOrderStatus) → Verdict
unfolding order_transitions
validate_order_transition current target =
    if same_order current target
    then permitted
    else if any (same_order current) terminal_order_statuses
    then already_terminal
    else if not (any (same_order target) (order_transitions current))
    then invalid_transition
    else permitted

unfoldable pub validate_runtime_transition : (current target : RuntimeStatus) → Verdict
unfolding runtime_transitions
validate_runtime_transition current target =
    if same_runtime current target
    then permitted
    else if not (any (same_runtime target) (runtime_transitions current))
    then invalid_transition
    else permitted

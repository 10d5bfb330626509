-- ===== src/PaperTrading/Tests.antt =====
-- The paper trading theorems at concrete inputs.
use save_money_trading_bot.Prelude.{
  ℕ, ◌≡◌, ◌≤◌, ◌<◌, ◌⊎◌, refl, true, Option, none, some, List, [], ◌∷◌, any, length, String, str_eq,
  arith, if◌then◌else◌,
}
use save_money_trading_bot.PaperTrading.Enums.{
  TradeIntentStatus, created, approved, scheduled, submitted_to_paper_engine, filled, order_pending,
  order_open, order_filled, stopped, starting, killed, shutting_down, runtime_failed, same_runtime,
  same_intent,
}
use save_money_trading_bot.PaperTrading.Transitions.{
  validate_intent_transition, validate_order_transition, validate_runtime_transition,
}
use save_money_trading_bot.PaperTrading.Transitions.Intents as Intents
use save_money_trading_bot.PaperTrading.Transitions.Intents.{
  IntentRun, OrderRun, order_done, order_change, IntentRun-bounded, filled_after_schedule,
  pending_order_fills_when_open,
}
use save_money_trading_bot.PaperTrading.Transitions.Runtime as Runtime
use save_money_trading_bot.PaperTrading.Transitions.Runtime.{RuntimeRun, killed_restarts}
use save_money_trading_bot.PaperTrading.Fairness.{MarketEventGroupState}
use save_money_trading_bot.PaperTrading.Fairness.Rotation.{passes, rotation_reaches}

-- A created intent that is approved, submitted and filled.
filling_run : IntentRun created (approved ∷ submitted_to_paper_engine ∷ filled ∷ []) filled
unfolding validate_intent_transition
filling_run =
    Intents.change refl refl (Intents.change refl refl (Intents.change refl refl Intents.done))

IntentRun-bounded_example : length (approved ∷ submitted_to_paper_engine ∷ filled ∷ []) ≤ 4
IntentRun-bounded_example = IntentRun-bounded filling_run

filled_after_schedule_example :
    (any (same_intent scheduled) (approved ∷ submitted_to_paper_engine ∷ filled ∷ []) ≡ true)
    ⊎ (any
          (same_intent submitted_to_paper_engine)
          (approved ∷ submitted_to_paper_engine ∷ filled ∷ [])
        ≡ true)
filled_after_schedule_example = filled_after_schedule filling_run

abbrev no_changes : List TradeIntentStatus
no_changes = []

order_run : OrderRun order_pending (order_open ∷ order_filled ∷ []) order_filled
unfolding validate_order_transition
order_run = order_change refl refl (order_change refl refl order_done)

pending_order_fills_when_open_example :
    order_open ∷ order_filled ∷ [] ≡ order_open ∷ order_filled ∷ []
pending_order_fills_when_open_example = pending_order_fills_when_open order_run

restart_run : RuntimeRun killed (shutting_down ∷ stopped ∷ starting ∷ []) starting
unfolding validate_runtime_transition
restart_run = Runtime.change refl (Runtime.change refl (Runtime.change refl Runtime.done))

killed_restarts_example :
    (any (same_runtime starting) (killed ∷ shutting_down ∷ stopped ∷ runtime_failed ∷ []) ≡ true)
    ⊎ (any (same_runtime starting) (shutting_down ∷ stopped ∷ starting ∷ []) ≡ true)
killed_restarts_example = killed_restarts restart_run

rotation_reaches_example : (k : ℕ) × (k < 5) × (passes k 5 3 ≡ 1)
rotation_reaches_example = rotation_reaches 5 3 1 (omega arith) (omega arith)

-- One group waits until 20, the other has no state.
unfoldable states : String → Option MarketEventGroupState
states key =
    if str_eq key "DAILY_CLOSED:1"
    then some (record {
      group_key = key;
      event_type = "DAILY_CLOSED";
      group_time = 1;
      next_attempt_at = 20;
      defer_count = 1;
    })
    else none

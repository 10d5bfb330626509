-- ===== src/PaperTrading/Transitions/Intents.antt =====
-- The life of a trade intent and of a paper order: runs of changes that the checks permit.
use mathlib.Core.Path.{subst}
use save_money_trading_bot.Prelude.{
  ◌≡◌, ◌≤◌, ◌<◌, ◌+◌, ℕ, refl, true, false, List, [], ◌∷◌, length, any, arith, ◌⊎◌, inl, inr,
}
use save_money_trading_bot.PaperTrading.Enums.{
  TradeIntentStatus, created, approved, scheduled, submitted_to_paper_engine, partially_filled,
  filled, cancelled, rejected, expired, failed, PaperOrderStatus, order_pending, order_open,
  order_partially_filled, order_filled, order_cancelled, order_rejected, order_expired, same_intent,
  same_order,
}
use save_money_trading_bot.PaperTrading.Transitions.{
  permitted, terminal_order_statuses, terminal_intent_statuses, validate_intent_transition,
  validate_order_transition,
}

-- The statuses that an intent takes in order; each is another than the one before, and permitted.
pub data IntentRun : TradeIntentStatus → List TradeIntentStatus → TradeIntentStatus → Type 0 where
  done : {s : TradeIntentStatus} → IntentRun s [] s
  change :
      {s t u : TradeIntentStatus} {ts : List TradeIntentStatus}
      → validate_intent_transition s t ≡ permitted
      → same_intent s t ≡ false
      → IntentRun t ts u
      → IntentRun s (t ∷ ts) u

-- How far an intent has come.
abbrev rank : TradeIntentStatus → ℕ
rank created = 0
rank approved = 1
rank scheduled = 2
rank submitted_to_paper_engine = 3
rank _ = 4

rank_le : (s : TradeIntentStatus) → rank s ≤ 4
rank_le s = ground arith

change-rank :
    (s t : TradeIntentStatus)
    → validate_intent_transition s t ≡ permitted
    → same_intent s t ≡ false
    → rank s < rank t
unfolding validate_intent_transition
change-rank s t h d = ground arith

-- Each change raises the rank, so a run has no more changes than the ranks allow.
run-rank :
    {s u : TradeIntentStatus} {ts : List TradeIntentStatus}
    → IntentRun s ts u
    → length ts + rank s ≤ rank u
run-rank done = omega arith
run-rank (change {s = s} {t = t} ok_step other rest) =
    let up = change-rank s t ok_step other in let later = run-rank rest in omega arith

-- A run of permitted changes of an intent, each to another status, has at most four changes.
pub IntentRun-bounded :
    {s u : TradeIntentStatus} {ts : List TradeIntentStatus} → IntentRun s ts u → length ts ≤ 4
IntentRun-bounded {s} {u} run = let within = run-rank run in let top = rank_le u in omega arith

pub terminal_intent_stays :
    {s u : TradeIntentStatus} {ts : List TradeIntentStatus}
    → any (same_intent s) terminal_intent_statuses ≡ true
    → IntentRun s ts u
    → (ts ≡ []) × (u ≡ s)
unfolding validate_intent_transition
terminal_intent_stays terminal done = (refl, refl)
terminal_intent_stays terminal (change ok_step other rest) = ground arith

-- An early intent stays early, goes to one of the two stages before a fill, or ends without a fill.
early_step :
    (s t : TradeIntentStatus)
    → rank s ≤ 1
    → validate_intent_transition s t ≡ permitted
    → (rank t ≤ 1)
      ⊎ ((t ≡ scheduled)
          ⊎ ((t ≡ submitted_to_paper_engine)
              ⊎ ((any (same_intent t) terminal_intent_statuses ≡ true)
                  × (same_intent t filled ≡ false))))
unfolding validate_intent_transition
early_step s created low h = inl (omega arith)
early_step s approved low h = inl (omega arith)
early_step s scheduled low h = inr (inl refl)
early_step s submitted_to_paper_engine low h = inr (inr (inl refl))
early_step s partially_filled low h = ground arith
early_step s filled low h = ground arith
early_step s cancelled low h = inr (inr (inr (refl, refl)))
early_step s rejected low h = inr (inr (inr (refl, refl)))
early_step s expired low h = inr (inr (inr (refl, refl)))
early_step s failed low h = inr (inr (inr (refl, refl)))

early_passes :
    {s u : TradeIntentStatus} {ts : List TradeIntentStatus}
    → rank s ≤ 1
    → same_intent u filled ≡ true
    → IntentRun s ts u
    → (any (same_intent scheduled) ts ≡ true)
      ⊎ (any (same_intent submitted_to_paper_engine) ts ≡ true)
early_passes {s} low p done = ground arith
early_passes low p (change {s = s} {t = t} ok_step other rest) = elim (early_step s t low ok_step) [
  | inl still ↦ elim (early_passes still p rest) [
    | inl a ↦ inl (ground arith)
    | inr b ↦ inr (ground arith)
  ]
  | inr (inl e) ↦ inl (ground arith)
  | inr (inr (inl e)) ↦ inr (ground arith)
  | inr (inr (inr (terminal, unfilled))) ↦
      let (_, stays) = terminal_intent_stays terminal rest in ground arith
]

-- An intent that was just created is filled only after it was scheduled or submitted to the paper engine.
pub filled_after_schedule :
    {ts : List TradeIntentStatus}
    → IntentRun created ts filled
    → (any (same_intent scheduled) ts ≡ true)
      ⊎ (any (same_intent submitted_to_paper_engine) ts ≡ true)
filled_after_schedule run = early_passes (omega arith) refl run

-- The statuses that an order takes in order, each by a permitted change.
pub data OrderRun : PaperOrderStatus → List PaperOrderStatus → PaperOrderStatus → Type 0 where
  order_done : {s : PaperOrderStatus} → OrderRun s [] s
  order_change :
      {s t u : PaperOrderStatus} {ts : List PaperOrderStatus}
      → validate_order_transition s t ≡ permitted
      → same_order s t ≡ false
      → OrderRun t ts u
      → OrderRun s (t ∷ ts) u

closed-OrderRun :
    {s u : PaperOrderStatus} {ts : List PaperOrderStatus}
    → any (same_order s) terminal_order_statuses ≡ true
    → OrderRun s ts u
    → (ts ≡ []) × (u ≡ s)
unfolding validate_order_transition
closed-OrderRun terminal order_done = (refl, refl)
closed-OrderRun terminal (order_change ok_step other rest) = ground arith

open-OrderRun :
    {s u : PaperOrderStatus} {ts : List PaperOrderStatus}
    → same_order s order_open ≡ true
    → OrderRun s ts u
    → same_order u order_filled ≡ true
    → ts ≡ order_filled ∷ []
unfolding validate_order_transition
open-OrderRun from order_done p = ground arith
open-OrderRun from (order_change {t = t} ok_step other rest) p =
    let (ends, stays) = closed-OrderRun {s = t} (ground arith) rest in ground (arith, ends, stays)

pending_order_step :
    (t : PaperOrderStatus)
    → validate_order_transition order_pending t ≡ permitted
    → same_order order_pending t ≡ false
    → (t ≡ order_open)
      ⊎ ((any (same_order t) terminal_order_statuses ≡ true) × (same_order t order_filled ≡ false))
unfolding validate_order_transition
pending_order_step order_pending h d = ground arith
pending_order_step order_open h d = inl refl
pending_order_step order_partially_filled h d = ground arith
pending_order_step order_filled h d = ground arith
pending_order_step order_cancelled h d = inr (refl, refl)
pending_order_step order_rejected h d = inr (refl, refl)
pending_order_step order_expired h d = inr (refl, refl)

pending_fill :
    {s u : PaperOrderStatus} {ts : List PaperOrderStatus}
    → s ≡ order_pending
    → same_order u order_filled ≡ true
    → OrderRun s ts u
    → ts ≡ order_open ∷ order_filled ∷ []
pending_fill e p order_done = ground arith
pending_fill e p (order_change {s = s} {t = t} {ts = ts} ok_step other rest) =
    elim (pending_order_step t (subst (λ z. validate_order_transition z t ≡ permitted) e ok_step)
      (subst (λ z. same_order z t ≡ false) e other)) [
        | inl opens ↦
            let ends = open-OrderRun {s = t} (ground arith) rest p in ground (arith, ends, opens)
        | inr (terminal, unfilled) ↦
            let (_, stays) = closed-OrderRun {s = t} terminal rest in ground arith
      ]

-- A pending order is filled by one run only: it is opened, and then filled.
pub pending_order_fills_when_open :
    {ts : List PaperOrderStatus}
    → OrderRun order_pending ts order_filled
    → ts ≡ order_open ∷ order_filled ∷ []
pending_order_fills_when_open run = pending_fill refl refl run

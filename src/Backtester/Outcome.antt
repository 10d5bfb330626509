-- ===== src/Backtester/Outcome.antt =====
-- The three ends of an intent at the open: passed over, rejected, or entered with the risk engine's
-- approval.
use save_money_trading_bot.Prelude.{
  ◌≡◌, refl, sym, ap, ◌∙◌, String, true, false, Option, some, List, [], ◌∷◌, arith, inl, inr,
  Option-cases, Bool-cases, ◌++◌, eq_iff, if◌then◌else◌,
}
use mathlib.Core.Path.{subst}
use save_money_trading_bot.Decimal.{Decimal, ok, Exc-cases, lt, le, zero_dec}
use save_money_trading_bot.Decimal.Order.{le_of_not_lt}
use save_money_trading_bot.StrategyEngine.Codes.{ReasonCode, rc_reject_leverage}
use save_money_trading_bot.StrategyEngine.Models.{Candle}
use save_money_trading_bot.RiskEngine.Models.{RiskDecision, RiskParameters, SymbolConstraints}
use save_money_trading_bot.RiskEngine.Validation.{seen}
use save_money_trading_bot.RiskEngine.Step.{go, reject, Step-cases}
use save_money_trading_bot.RiskEngine.Engine as RiskEngine
use save_money_trading_bot.RiskEngine.Engine.Approval.{IsSafe, evaluate-IsSafe}
use save_money_trading_bot.RiskEngine.Engine.Rejection.{evaluate-IsRejection}
use save_money_trading_bot.Backtester.Models.{BacktestConfig, PendingIntent}
use save_money_trading_bot.Backtester.Portfolio.{Marks}
use save_money_trading_bot.Backtester.Lifecycle.{
  EntryContext, EntryFillComputation, EntryAccounting, compute_entry_fill_prices, entry_request,
  evaluate_entry_risk_decision, compute_entry_accounting, filter_rejection_reason_codes,
}
use save_money_trading_bot.Backtester.Runtime.{
  Runtime, get_constraints, mark_terminal_intent, reject_intent,
}
use save_money_trading_bot.Backtester.Exits.{check_stop_exit}
use save_money_trading_bot.Backtester.Entries.{
  approved_quantity, entry_context, enter, fill_intent, open_position,
}

-- A marked id is among those processed.
pub marked-seen :
    (id : String) (ids : List String)
    → seen id ids ≡ false
    → seen id (if seen id ids then ids else id ∷ ids) ≡ true
marked-seen id ids new = ground (arith, new, eq_iff id id)

-- A decision with an approved quantity is a safe one of the risk engine.
approved-IsSafe :
    (x : EntryContext) (symbol : String) (fill stop : Decimal) (id : String) (atr : Decimal)
    (k : SymbolConstraints) (params : RiskParameters) (d : RiskDecision) (q : Decimal)
    → evaluate_entry_risk_decision x symbol fill stop id atr k params ≡ ok d
    → approved_quantity d ≡ some q
    → IsSafe (entry_request x symbol fill stop id atr k params) d × (lt zero_dec q ≡ true)
unfolding evaluate_entry_risk_decision
approved-IsSafe x symbol fill stop id atr k params d q h a =
    let r = entry_request x symbol fill stop id atr k params in
    elim (Step-cases (RiskEngine.evaluate r)) [
      | inl (g, approves) ↦
          let same : g ≡ d = ground arith in
          let safe = evaluate-IsSafe r d (approves ∙ ap go same) in
          let same_quantity : safe.trade.quantity ≡ q =
            ground (arith, safe.approved, safe.trade.quantity_lem, a) in
          (safe, subst (λ z. lt zero_dec z ≡ true) same_quantity safe.trade.positive)
      | inr (inl (g, rejects)) ↦
          let same : g ≡ d = ground arith in
          let rejection = evaluate-IsRejection r d (rejects ∙ ap reject same) in
          ground (arith, rejection.not_approved, a)
      | inr (inr (e, faults)) ↦ ground arith
    ]

module _ (config : BacktestConfig) (symbol : String) (candle : Candle)
    (day_candles : String → Option Candle) (prior_closes : Marks) (intent : PendingIntent)
    (rt : Runtime) where
  -- The entry of an approved intent, before the gap at the open is looked at.
  pub record IsEntered (opened : Runtime) : Type 0 where
    pub constraints : SymbolConstraints
    pub constraints_lem : get_constraints config symbol ≡ ok constraints
    pub fills : EntryFillComputation
    pub fills_lem :
        compute_entry_fill_prices candle.open_price intent.atr14 config.slippage_model.slippage_bps
          config.strategy_params constraints.price_tick_size
        ≡ ok fills
    pub decision : RiskDecision
    pub safe :
        IsSafe
          (entry_request
            (entry_context day_candles prior_closes rt)
            symbol
            fills.fill_price
            fills.stop_initial
            intent.client_intent_id
            intent.atr14
            constraints
            config.risk_params)
          decision
    pub quantity : Decimal
    pub quantity_lem : approved_quantity decision ≡ some quantity
    pub positive : lt zero_dec quantity ≡ true
    pub accounting : EntryAccounting
    pub accounting_lem :
        compute_entry_accounting fills.fill_price candle.open_price quantity fills.stop_initial
          config.fee_model.entry_fee_rate config.risk_params.max_leverage config.strategy_params
          constraints.price_tick_size intent.atr14
        ≡ ok accounting
    pub affordable : le accounting.fee rt.cash ≡ true
    pub opened_lem : opened ≡ open_position symbol candle intent decision fills accounting rt

  -- A rejection ends the intent, records it, and changes nothing that is owned or owed.
  pub record IsRejected (codes : List ReasonCode) (rt' : Runtime) : Type 0 where
    pub cash : rt'.cash ≡ rt.cash
    pub positions : rt'.positions ≡ rt.positions
    pub active_trades : rt'.active_trades ≡ rt.active_trades
    pub closed_trades : rt'.closed_trades ≡ rt.closed_trades
    pub trail_history : rt'.trail_history ≡ rt.trail_history
    pub realized_pnl : rt'.realized_pnl ≡ rt.realized_pnl
    pub total_fees : rt'.total_fees ≡ rt.total_fees
    pub pending : rt'.pending_intents ≡ rt.pending_intents
    pub ended : seen intent.client_intent_id rt'.processed_intent_ids ≡ true
    pub recorded :
        rt'.rejections
        ≡ rt.rejections
          ++ record {
            time = candle.open_time;
            symbol = symbol;
            client_intent_id = intent.client_intent_id;
            reason_codes = codes;
            strategy_reason_codes = intent.strategy_reason_codes;
          }
            ∷ []

  reject_intent-IsRejected :
      (codes : List ReasonCode)
      → seen intent.client_intent_id rt.processed_intent_ids ≡ false
      → IsRejected codes (reject_intent candle symbol intent codes rt)
  unfolding reject_intent mark_terminal_intent
  reject_intent-IsRejected codes new = record {
    cash = refl;
    positions = refl;
    active_trades = refl;
    closed_trades = refl;
    trail_history = refl;
    realized_pnl = refl;
    total_fees = refl;
    pending = refl;
    ended = marked-seen intent.client_intent_id rt.processed_intent_ids new;
    recorded = refl;
  }

  -- What `fill_intent` does.
  pub data Outcome (rt' : Runtime) : Type 0 where
    passed_over :
        seen intent.client_intent_id rt.processed_intent_ids ≡ true → rt' ≡ rt → Outcome rt'
    rejected :
        (codes : List ReasonCode)
        → seen intent.client_intent_id rt.processed_intent_ids ≡ false
        → rt' ≡ reject_intent candle symbol intent codes rt
        → IsRejected codes rt'
        → Outcome rt'
    entered :
        (opened : Runtime)
        → seen intent.client_intent_id rt.processed_intent_ids ≡ false
        → IsEntered opened
        → check_stop_exit config true symbol candle opened ≡ ok rt'
        → Outcome rt'

  rejected_by :
      (codes : List ReasonCode) (rt' : Runtime)
      → seen intent.client_intent_id rt.processed_intent_ids ≡ false
      → reject_intent candle symbol intent codes rt ≡ rt'
      → Outcome rt'
  rejected_by codes rt' new same =
      rejected codes new (sym same)
        (subst (IsRejected codes) same (reject_intent-IsRejected codes new))

  enter-Outcome :
      (k : SymbolConstraints) (fills : EntryFillComputation) (d : RiskDecision) (q : Decimal)
      (rt' : Runtime)
      → seen intent.client_intent_id rt.processed_intent_ids ≡ false
      → get_constraints config symbol ≡ ok k
      → compute_entry_fill_prices candle.open_price intent.atr14 config.slippage_model.slippage_bps
          config.strategy_params k.price_tick_size
        ≡ ok fills
      → evaluate_entry_risk_decision
          (entry_context day_candles prior_closes rt)
          symbol
          fills.fill_price
          fills.stop_initial
          intent.client_intent_id
          intent.atr14
          k
          config.risk_params
        ≡ ok d
      → approved_quantity d ≡ some q
      → enter config symbol candle intent k fills d q rt ≡ ok rt'
      → Outcome rt'
  unfolding enter
  enter-Outcome k fills d q rt' new found filled decided approved h =
      elim (Exc-cases (
        compute_entry_accounting fills.fill_price candle.open_price q fills.stop_initial
          config.fee_model.entry_fee_rate config.risk_params.max_leverage config.strategy_params
          k.price_tick_size intent.atr14)) [
            | inr (e, raises) ↦ ground arith
            | inl (accounting, accounts) ↦ elim (Bool-cases (lt rt.cash accounting.fee)) [
              | inl too_dear ↦ rejected_by (rc_reject_leverage ∷ []) rt' new (ground arith)
              | inr affordable ↦
                  let (safe, positive) =
                    approved-IsSafe (entry_context day_candles prior_closes rt) symbol
                      fills.fill_price fills.stop_initial intent.client_intent_id intent.atr14 k
                      config.risk_params d q decided approved in
                  entered (open_position symbol candle intent d fills accounting rt) new
                    (record {
                      constraints = k;
                      constraints_lem = found;
                      fills = fills;
                      fills_lem = filled;
                      decision = d;
                      safe = safe;
                      quantity = q;
                      quantity_lem = approved;
                      positive = positive;
                      accounting = accounting;
                      accounting_lem = accounts;
                      affordable = le_of_not_lt rt.cash accounting.fee affordable;
                      opened_lem = refl;
                    })
                    (ground (arith, accounts, affordable))
            ]
          ]

  -- Every end of `fill_intent` without an exception is one of three. An intent that was processed before
  -- changes nothing. A rejected one is processed from then on and recorded as a rejection, and changes
  -- neither the cash, the positions, the trades, the stop histories, the profit, the fees nor the queue.
  -- An entered one has the risk engine's approval on the fill price and its own stop, with a positive
  -- quantity, and a fee that the cash covers; the stop is then checked against the same candle.
  pub fill_intent-Outcome :
      (rt' : Runtime)
      → fill_intent config symbol candle day_candles prior_closes intent rt ≡ ok rt'
      → Outcome rt'
  unfolding fill_intent
  fill_intent-Outcome rt' h =
      elim (Bool-cases (seen intent.client_intent_id rt.processed_intent_ids)) [
        | inl old ↦ passed_over old (ground arith)
        | inr new ↦ elim (Exc-cases (get_constraints config symbol)) [
          | inr (e, raises) ↦ ground arith
          | inl (k, found) ↦
              elim (Exc-cases (
                compute_entry_fill_prices candle.open_price intent.atr14
                  config.slippage_model.slippage_bps config.strategy_params k.price_tick_size)) [
                    | inr (e, raises) ↦ ground arith
                    | inl (fills, filled) ↦
                        elim (Exc-cases (
                          evaluate_entry_risk_decision (entry_context day_candles prior_closes rt)
                            symbol fills.fill_price fills.stop_initial intent.client_intent_id
                            intent.atr14 k config.risk_params)) [
                              | inr (e, raises) ↦ ground arith
                              | inl (d, decided) ↦ elim (Option-cases (approved_quantity d)) [
                                | inl refused ↦
                                    rejected_by (filter_rejection_reason_codes d) rt' new
                                      (ground (arith, found, filled, decided, refused))
                                | inr (q, approved) ↦
                                    enter-Outcome k fills d q rt' new found filled decided approved
                                      (ground (arith, found, filled, decided, approved))
                              ]
                            ]
                  ]
        ]
      ]

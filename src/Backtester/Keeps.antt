-- ===== src/Backtester/Keeps.antt =====
-- What each step of a day keeps, a run keeps.
use save_money_trading_bot.Prelude.{
  ◌≡◌, String, false, Option, List, [], ◌∷◌, ◌++◌, any, str_eq, arith, inl, inr, Option-cases,
  Bool-cases, List-cases,
}
use mathlib.Core.Path.{subst}
use save_money_trading_bot.Prelude.Dict.{Dict, contains}
use save_money_trading_bot.Decimal.{Decimal, Exc, ok, Exc-cases, ◌>>=◌}
use save_money_trading_bot.StrategyEngine.Codes.{EntryType, is_long_entry}
use save_money_trading_bot.StrategyEngine.Models.{Time, Candle, StrategyEvaluation}
use save_money_trading_bot.StrategyEngine.Engine as StrategyEngine
use save_money_trading_bot.RiskEngine.Validation.{seen}
use save_money_trading_bot.Backtester.Models.{BacktestConfig, HistoricalDataBundle, PendingIntent}
use save_money_trading_bot.Backtester.Portfolio.{Marks}
use save_money_trading_bot.Backtester.Slicing.{evaluation_time_for_daily, build_timeline}
use save_money_trading_bot.Backtester.Runtime.{Runtime, initial_runtime, for_each}
use save_money_trading_bot.Backtester.Exits.{check_stop_exit, apply_funding, update_trailing}
use save_money_trading_bot.Backtester.Entries.{
  fill_pending_at_open, build_client_intent_id, queue_intent, queue_evaluation, strategy_request,
  strategy_and_queue,
}
use save_money_trading_bot.Backtester.Engine.{
  day_candles_of, record_equity, fund_day, fill_step, stop_step, signal_step, trail_step, trade_day,
  run_day, run_timeline,
}

pub ok-injective {ℓ} : {A : Type ℓ} {a b : A} → ok a ≡ ok b → a ≡ b
ok-injective h = cc

-- A chain that ends well had a first result.
pub ok-bind {ℓ} :
    {A B : Type ℓ} (m : Exc A) (f : A → Exc B) (b : B)
    → (do a ← m; f a) ≡ ok b
    → (a : A) × (m ≡ ok a) × (f a ≡ ok b)
ok-bind m f b h = elim (Exc-cases m) [
  | inr (e, raises) ↦ ground (arith, raises)
  | inl (a, ends) ↦ (a, ends, ground (arith, ends))
]

-- What a loop body keeps, the loop keeps.
pub for_each_keeps {ℓ κ} :
    {A : Type ℓ} (P : Runtime → Type κ) (f : A → Runtime → Exc Runtime)
    → ((x : A) (rt rt' : Runtime) → P rt → f x rt ≡ ok rt' → P rt')
    → (xs : List A) (rt rt' : Runtime) → P rt
    → for_each f xs rt ≡ ok rt'
    → P rt'
unfolding for_each
for_each_keeps P f keep [] rt rt' p h = let same : rt ≡ rt' = ok-injective h in subst P same p
for_each_keeps P f keep (x ∷ xs) rt rt' p h =
    let (rt₁, e, h₁) = ok-bind (f x rt) _ rt' h in
    for_each_keeps P f keep xs rt₁ rt' (keep x rt rt₁ p e) h₁

-- The intent may be queued.
pub record IsFree (rt : Runtime) (p : PendingIntent) : Type 0 where
  pub new : seen p.client_intent_id rt.processed_intent_ids ≡ false
  pub unheld : contains p.symbol rt.positions ≡ false
  pub none_of : any (λ (q : PendingIntent). str_eq q.symbol p.symbol) rt.pending_intents ≡ false

-- What holds of a state, and of it with a free intent queued, holds after `queue_evaluation`.
module _ {κ} (P : Runtime → Type κ) (format_time : Time → String) (symbol : String)
    (eval_time : Time) (e : StrategyEvaluation) (rt : Runtime) (holds : P rt)
    (queued : (p : PendingIntent)
      → IsFree rt p
      → P (record rt { pending_intents = rt.pending_intents ++ p ∷ [] })) where
  queue_intent_keeps :
      (entry_type : EntryType) (stop_initial atr : Decimal)
      → P (queue_intent format_time symbol eval_time e entry_type stop_initial atr rt)
  unfolding queue_intent
  queue_intent_keeps entry_type stop_initial atr =
      let id = build_client_intent_id format_time symbol e.version eval_time entry_type in
      elim (Bool-cases (seen id rt.processed_intent_ids)) [
        | inl old ↦ rw old holds
        | inr new ↦ elim (Bool-cases (contains symbol rt.positions)) [
          | inl held ↦ rw (new, held) holds
          | inr unheld ↦
              elim (Bool-cases
                (any (λ (p : PendingIntent). str_eq p.symbol symbol) rt.pending_intents)) [
                  | inl waiting ↦ rw (new, unheld, waiting) holds
                  | inr none_of ↦
                      rw (new, unheld, none_of)
                        (queued _ (record { new = new; unheld = unheld; none_of = none_of }))
                ]
        ]
      ]

  pub queue_evaluation_keeps : P (queue_evaluation format_time symbol eval_time e rt)
  unfolding queue_evaluation
  queue_evaluation_keeps = elim (Bool-cases (is_long_entry e.signal_intent.kind)) [
    | inr other ↦ rw other holds
    | inl long ↦ elim (Option-cases e.selected_entry_type) [
      | inl untyped ↦ rw (long, untyped) holds
      | inr (entry_type, typed) ↦ elim (Option-cases e.signal_intent.stop_initial) [
        | inl unstopped ↦ rw (long, typed, unstopped) holds
        | inr (stop_initial, stopped) ↦ elim (Option-cases e.atr) [
          | inl no_atr ↦ rw (long, typed, stopped, no_atr) holds
          | inr (atr, has_atr) ↦
              rw (long, typed, stopped, has_atr) (queue_intent_keeps entry_type stop_initial atr)
        ]
      ]
    ]
  ]

-- A predicate on states that every step of a day keeps.
pub record IsKept {κ} (config : BacktestConfig) (bundle : HistoricalDataBundle)
    (P : Runtime → Type κ) : Type κ where
  pub filled :
      (symbol : String) (candle : Candle) (day_candles : String → Option Candle)
      (prior_closes : Marks) (rt rt' : Runtime)
      → P rt
      → fill_pending_at_open config symbol candle day_candles prior_closes rt ≡ ok rt'
      → P rt'
  pub stopped :
      (symbol : String) (candle : Candle) (rt rt' : Runtime)
      → P rt
      → check_stop_exit config false symbol candle rt ≡ ok rt'
      → P rt'
  pub funded :
      (symbol : String) (candle : Candle) (rt : Runtime)
      → P rt
      → P (apply_funding config bundle symbol candle rt)
  pub evaluated :
      (e : StrategyEvaluation) (rt : Runtime)
      → P rt
      → P (record rt { evaluations = rt.evaluations ++ e ∷ [] })
  pub queued :
      (rt : Runtime) (p : PendingIntent)
      → P rt
      → IsFree rt p
      → P (record rt { pending_intents = rt.pending_intents ++ p ∷ [] })
  pub trailed :
      (symbol : String) (candle : Candle) (now : Time) (rt rt' : Runtime)
      → P rt
      → update_trailing config bundle symbol candle now rt ≡ ok rt'
      → P rt'
  pub measured :
      (closes : Marks) (now : Time) (rt : Runtime) → P rt → P (record_equity closes now rt)

module _ {κ} (format_time : Time → String) (config : BacktestConfig) (bundle : HistoricalDataBundle)
    (P : Runtime → Type κ) (kept : IsKept config bundle P) where
  signal_keeps :
      (symbol : String) (now : Time) (rt rt' : Runtime)
      → P rt
      → strategy_and_queue format_time config bundle symbol now rt ≡ ok rt'
      → P rt'
  unfolding strategy_and_queue
  signal_keeps symbol now rt rt' p h =
      let (e, _, queues) =
        ok-bind (StrategyEngine.evaluate (strategy_request config bundle symbol now)) _ rt' h in
      let holds = kept.evaluated e rt p in
      subst P (ok-injective queues) (
        queue_evaluation_keeps P format_time symbol now e _ holds
          (λ q free. kept.queued _ q holds free))

  fund_keeps :
      (e : String × Candle) (rt rt' : Runtime) → P rt → fund_day config bundle e rt ≡ ok rt' → P rt'
  fund_keeps (symbol, candle) rt rt' p h = elim (Bool-cases config.funding_model.enabled) [
    | inl on ↦
        let same : apply_funding config bundle symbol candle rt ≡ rt' =
          ok-injective (ground (arith, on)) in
        subst P same (kept.funded symbol candle rt p)
    | inr off ↦ let same : rt ≡ rt' = ok-injective (ground (arith, off)) in subst P same p
  ]

  trade_day_keeps :
      (open_time : Time) (first : String × Candle) (others : Dict Candle) (rt rt' : Runtime)
      → P rt
      → trade_day format_time config bundle open_time first others rt ≡ ok rt'
      → P rt'
  unfolding trade_day
  trade_day_keeps open_time first others rt rt' p h =
      let candles = first ∷ others in
      let now = evaluation_time_for_daily first.1 in
      let fill = fill_step format_time config bundle candles open_time in
      let stop = stop_step format_time config bundle in
      let fund = fund_day config bundle in
      let signal = signal_step format_time config bundle in
      let trail = trail_step format_time config bundle now in
      let (rt₁, fills, h₁) = ok-bind (for_each fill candles rt) _ rt' h in
      let (rt₂, stops, h₂) = ok-bind (for_each stop candles rt₁) _ rt' h₁ in
      let (rt₃, funds, h₃) = ok-bind (for_each fund candles rt₂) _ rt' h₂ in
      let (rt₄, signals, h₄) = ok-bind (for_each signal candles rt₃) _ rt' h₃ in
      let (rt₅, trails, h₅) = ok-bind (for_each trail candles rt₄) _ rt' h₄ in
      let p₁ = for_each_keeps P fill (λ e. kept.filled e.0 e.1 _ _) candles rt rt₁ p fills in
      let p₂ = for_each_keeps P stop (λ e. kept.stopped e.0 e.1) candles rt₁ rt₂ p₁ stops in
      let p₃ = for_each_keeps P fund fund_keeps candles rt₂ rt₃ p₂ funds in
      let p₄ = for_each_keeps P signal (λ e. signal_keeps e.0 _) candles rt₃ rt₄ p₃ signals in
      let p₅ = for_each_keeps P trail (λ e. kept.trailed e.0 e.1 now) candles rt₄ rt₅ p₄ trails in
      subst P (ok-injective h₅) (kept.measured _ now rt₅ p₅)

  run_day_keeps :
      (open_time : Time) (rt rt' : Runtime)
      → P rt
      → run_day format_time config bundle open_time rt ≡ ok rt'
      → P rt'
  unfolding run_day
  run_day_keeps open_time rt rt' p h =
      elim (List-cases (day_candles_of bundle config.symbols open_time)) [
        | inl empty ↦ let same : rt ≡ rt' = ok-injective (ground (arith, empty)) in subst P same p
        | inr (first, others, traded) ↦
            trade_day_keeps open_time first others rt rt' p (ground (arith, traded))
      ]

  pub run_timeline_keeps :
      (rt : Runtime)
      → P (initial_runtime config)
      → run_timeline format_time config bundle ≡ ok rt
      → P rt
  unfolding run_timeline
  run_timeline_keeps rt p h =
      for_each_keeps P (run_day format_time config bundle) run_day_keeps
        (build_timeline bundle.daily config.symbols) (initial_runtime config) rt p h

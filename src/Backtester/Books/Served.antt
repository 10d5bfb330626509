-- ===== src/Backtester/Books/Served.antt =====
-- The intents of a symbol at its open: every one is processed, and none stays pending.
use save_money_trading_bot.Prelude.{
  ◌≡◌, refl, ap, ◌∙◌, String, true, false, Option, List, [], ◌∷◌, All, arith, Bool, not, ◌&&◌, any,
  inl, inr, Bool-cases, str_eq,
}
use mathlib.Core.Path.{subst}
use save_money_trading_bot.Decimal.{ok}
use save_money_trading_bot.StrategyEngine.Models.{Candle}
use save_money_trading_bot.RiskEngine.Validation.{seen}
use save_money_trading_bot.Backtester.Models.{BacktestConfig, PendingIntent}
use save_money_trading_bot.Backtester.Portfolio.{Marks}
use save_money_trading_bot.Backtester.Runtime.{Runtime, mark_terminal_intent, for_each}
use save_money_trading_bot.Backtester.Entries.{
  intents_of, open_position, fill_intent, fill_pending_at_open,
}
use save_money_trading_bot.Backtester.Outcome.{
  marked-seen, passed_over, rejected, entered, fill_intent-Outcome,
}
use save_money_trading_bot.Backtester.Consistent.Steps.{check_stop_exit-pending}
use save_money_trading_bot.Backtester.Keeps.{ok-bind, ok-injective}
use save_money_trading_bot.Backtester.Books.{book_of, start, Books-processed}
use save_money_trading_bot.Backtester.Books.Refines.{check_stop_exit-Books, fill_intent-Books}

-- Whether a test holds of an intent of another symbol.
abbrev elsewhere : (symbol : String) → (PendingIntent → Bool) → PendingIntent → Bool
elsewhere symbol f p = f p && not (str_eq p.symbol symbol)

-- The two lists that `_fill_pending_at_open` splits the queue into.
of_symbol-All :
    (symbol : String) (ids : List String) (ps : List PendingIntent)
    → All (λ (p : PendingIntent). seen p.client_intent_id ids ≡ true) (intents_of true symbol ps)
    → All
        (λ (p : PendingIntent). str_eq p.symbol symbol ≡ true → seen p.client_intent_id ids ≡ true)
        ps
unfolding intents_of
of_symbol-All symbol ids [] h = tt
of_symbol-All symbol ids (p ∷ ps) h = elim (Bool-cases (str_eq p.symbol symbol)) [
  | inl here ↦
      let both : All _ (p ∷ intents_of true symbol ps) = ground (arith, here, h) in
      ((λ _. both.0), of_symbol-All symbol ids ps both.1)
  | inr other ↦
      ((λ e. ground (arith, other, e)), of_symbol-All symbol ids ps (ground (arith, other, h)))
]

others-any :
    (symbol : String) (f : PendingIntent → Bool) (ps : List PendingIntent)
    → any f (intents_of false symbol ps) ≡ any (elsewhere symbol f) ps
unfolding intents_of
others-any symbol f [] = refl
others-any symbol f (p ∷ ps) = ground (arith, others-any symbol f ps)

module _ (config : BacktestConfig) (symbol : String) (candle : Candle)
    (day_candles : String → Option Candle) (prior_closes : Marks) where
  -- One intent: it is processed, and the queue is left alone.
  fill_intent-served :
      (intent : PendingIntent) (rt rt' : Runtime)
      → fill_intent config symbol candle day_candles prior_closes intent rt ≡ ok rt'
      → (seen intent.client_intent_id rt'.processed_intent_ids ≡ true)
        × (rt'.pending_intents ≡ rt.pending_intents)
  unfolding mark_terminal_intent open_position
  fill_intent-served intent rt rt' h =
      let id = intent.client_intent_id in
      elim (fill_intent-Outcome config symbol candle day_candles prior_closes intent rt rt' h) [
        | passed_over old same ↦ rw same (old, refl)
        | rejected codes new same r ↦ (r.ended, r.pending)
        | entered opened new e exits ↦
            let here : seen id opened.processed_intent_ids ≡ true =
              rw e.opened_lem (marked-seen id rt.processed_intent_ids new) in
            (
              Books-processed id
                  (check_stop_exit-Books (book_of opened) config true symbol candle opened rt' start
                    exits)
                  here,
              check_stop_exit-pending config true symbol candle opened rt' exits
                  ∙ ap (λ (s : Runtime). s.pending_intents) e.opened_lem,
            )
      ]

  -- What a loop over intents leaves.
  record IsServed (intents : List PendingIntent) (rt rt' : Runtime) : Type 0 where
    pub processed :
        All (λ (p : PendingIntent). seen p.client_intent_id rt'.processed_intent_ids ≡ true) intents
    pub older :
        (id : String)
        → seen id rt.processed_intent_ids ≡ true
        → seen id rt'.processed_intent_ids ≡ true
    pub pending : rt'.pending_intents ≡ rt.pending_intents

  loop-IsServed :
      (intents : List PendingIntent) (rt rt' : Runtime)
      → for_each (fill_intent config symbol candle day_candles prior_closes) intents rt ≡ ok rt'
      → IsServed intents rt rt'
  unfolding for_each
  loop-IsServed [] rt rt' h =
      let same : rt ≡ rt' = ok-injective h in
      subst (IsServed [] rt) same (record { processed = tt; older = λ id s. s; pending = refl })
  loop-IsServed (p ∷ ps) rt rt' h =
      let (rt₁, fills, h₁) =
        ok-bind (fill_intent config symbol candle day_candles prior_closes p rt) _ rt' h in
      let (here, same) = fill_intent-served p rt rt₁ fills in
      let rest = loop-IsServed ps rt₁ rt' h₁ in
      let books =
        fill_intent-Books (book_of rt) config symbol candle day_candles prior_closes p rt rt₁ start
          fills in
      record {
        processed = (rest.older p.client_intent_id here, rest.processed);
        older = λ id s. rest.older id (Books-processed id books s);
        pending = rest.pending ∙ same;
      }

  -- A fill at the open that raises nothing processes every pending intent of the symbol; after it an
  -- intent with any property is pending exactly where one of another symbol with that property was; and
  -- no processed id is forgotten.
  pub fill_pending_at_open-serves :
      (rt rt' : Runtime)
      → fill_pending_at_open config symbol candle day_candles prior_closes rt ≡ ok rt'
      → All
          (λ (p : PendingIntent).
            str_eq p.symbol symbol ≡ true → seen p.client_intent_id rt'.processed_intent_ids ≡ true)
          rt.pending_intents
        × ((f : PendingIntent → Bool)
            → any f rt'.pending_intents
              ≡ any (λ p. f p && not (str_eq p.symbol symbol)) rt.pending_intents)
        × ((id : String)
            → seen id rt.processed_intent_ids ≡ true
            → seen id rt'.processed_intent_ids ≡ true)
  unfolding fill_pending_at_open
  fill_pending_at_open-serves rt rt' h =
      let served = loop-IsServed (intents_of true symbol rt.pending_intents) _ rt' h in
      (
        of_symbol-All symbol rt'.processed_intent_ids rt.pending_intents served.processed,
        (λ f. ap (any f) served.pending ∙ others-any symbol f rt.pending_intents),
        served.older,
      )

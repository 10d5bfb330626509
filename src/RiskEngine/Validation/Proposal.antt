-- ===== src/RiskEngine/Validation/Proposal.antt =====
-- services/risk_engine/validation.py, `validate_proposal`: which proposals it reports, and under which code.
use save_money_trading_bot.Prelude.{
  ◌≡◌, ◌≢◌, ◌↔◌, sym, Option, some, All, refl, not, String, ◌++◌, Bool, true, false, none, List, [],
  ◌∷◌, arith,
}
use mathlib.Core.Path.{subst}
use save_money_trading_bot.Decimal.{Decimal}
use save_money_trading_bot.StrategyEngine.Codes.{
  ReasonCode, rc_reject_data, rc_reject_no_signal, long_entry, is_long_entry,
}
use save_money_trading_bot.RiskEngine.Models.{long, market_ok, active, TradeProposal, RiskError}
use save_money_trading_bot.RiskEngine.Validation.{
  validate_proposal, is_bad_atr, is_bad_price, error_if, is_long, is_market_ok, is_active,
}
use save_money_trading_bot.RiskEngine.Validation.Accepted.{IsPositive}

-- No ATR, or one that is finite and positive.
abbrev pub AtrAccepted : Option Decimal → Type 0
AtrAccepted none = Unit
AtrAccepted (some atr14) = IsPositive atr14

-- What the proposal says of the market and of the bot.
pub record DataAccepted (p : TradeProposal) : Type 0 where
  pub side : p.side ≡ long
  pub entry : IsPositive p.entry_price
  pub stop : IsPositive p.stop_price
  pub atr : AtrAccepted p.atr14
  pub market : p.market_data_status ≡ market_ok
  pub bot : p.bot_system_state ≡ active

-- What it says of the signal.
pub record SignalAccepted (p : TradeProposal) : Type 0 where
  pub signal : p.signal_intent_kind ≡ long_entry
  pub strategy : p.strategy_approved ≡ true

-- Every error of the list has the code.
pub record Only (code : ReasonCode) (errors : List RiskError) : Type 0 where
  pub all : All (λ (e : RiskError). e.code ≡ code) errors

module _ (code : ReasonCode) where
  Only-nil : Only code []
  Only-nil = record { all = tt }

  Only-other :
      (c : ReasonCode) (b : Bool) (m : String) (rest : List RiskError)
      → c ≢ code
      → Only code (error_if b c m ++ rest)
      → (b ≡ false) × Only code rest
  Only-other c true m rest differ h = ground (arith, differ, h.all.0)
  Only-other c false m rest differ h = (refl, h)

  Only-last :
      (c : ReasonCode) (b : Bool) (m : String) → c ≢ code → Only code (error_if b c m) → b ≡ false
  Only-last c true m differ h = ground (arith, differ, h.all.0)
  Only-last c false m differ h = refl

  Only-rest : (xs rest : List RiskError) → Only code (xs ++ rest) → Only code rest
  Only-rest [] rest h = h
  Only-rest (x ∷ xs) rest h = Only-rest xs rest (record { all = h.all.1 })

  Only-quiet :
      (c : ReasonCode) (b : Bool) (m : String) (rest : List RiskError)
      → b ≡ false
      → Only code rest
      → Only code (error_if b c m ++ rest)
  Only-quiet c true m rest quiet h = ground arith
  Only-quiet c false m rest quiet h = h

  Only-quiet_last :
      (c : ReasonCode) (b : Bool) (m : String) → b ≡ false → Only code (error_if b c m)
  Only-quiet_last c true m quiet = ground arith
  Only-quiet_last c false m quiet = Only-nil

  Only-same : (b : Bool) (m : String) → Only code (error_if b code m)
  Only-same true m = record { all = (refl, tt) }
  Only-same false m = record { all = tt }

  Only-append : (xs rest : List RiskError) → Only code xs → Only code rest → Only code (xs ++ rest)
  Only-append [] rest h k = k
  Only-append (x ∷ xs) rest h k =
      let later = Only-append xs rest (record { all = h.all.1 }) k in
      record { all = (h.all.0, later.all) }

-- The tests on the proposal that report under `rc_reject_data`, all silent.
record DataTests (p : TradeProposal) : Type 0 where
  side : not (is_long p.side) ≡ false
  entry : is_bad_price p.entry_price ≡ false
  stop : is_bad_price p.stop_price ≡ false
  atr : is_bad_atr p.atr14 ≡ false
  market : not (is_market_ok p.market_data_status) ≡ false
  bot : not (is_active p.bot_system_state) ≡ false

-- Those that report under `rc_reject_no_signal`.
record SignalTests (p : TradeProposal) : Type 0 where
  signal : not (is_long_entry p.signal_intent_kind) ≡ false
  strategy : not p.strategy_approved ≡ false

atr_iff : (o : Option Decimal) → (is_bad_atr o ≡ false) ↔ AtrAccepted o
atr_iff none = ((λ h. tt), (λ h. refl))
atr_iff (some v) = ((λ h. ground arith), (λ h. ground arith))

data_iff : (p : TradeProposal) → DataTests p ↔ DataAccepted p
data_iff p = (
  (λ h. ground (arith, h.side, h.entry, h.stop, (atr_iff p.atr14).0 h.atr, h.market, h.bot)),
  (λ h. ground (arith, h.side, h.entry, h.stop, (atr_iff p.atr14).1 h.atr, h.market, h.bot)),
)

signal_iff : (p : TradeProposal) → SignalTests p ↔ SignalAccepted p
signal_iff p = ((λ h. ground arith), (λ h. ground arith))

data_differs : rc_reject_data ≢ rc_reject_no_signal
data_differs h = cc

signal_differs : rc_reject_no_signal ≢ rc_reject_data
signal_differs h = cc

data_tests : (p : TradeProposal) → Only rc_reject_no_signal (validate_proposal p) → DataTests p
unfolding validate_proposal
data_tests p h0 =
    let (e1, h1) = Only-other _ _ _ _ _ data_differs h0 in
    let (e2, h2) = Only-other _ _ _ _ _ data_differs h1 in
    let (e3, h3) = Only-other _ _ _ _ _ data_differs h2 in
    let (e4, h4) = Only-other _ _ _ _ _ data_differs h3 in
    let h5 = Only-rest _ _ _ h4 in
    let h6 = Only-rest _ _ _ h5 in
    let (e7, h7) = Only-other _ _ _ _ _ data_differs h6 in
    record {
      side = e1;
      entry = e2;
      stop = e3;
      atr = e4;
      market = e7;
      bot = Only-last _ _ _ _ data_differs h7;
    }

signal_tests : (p : TradeProposal) → Only rc_reject_data (validate_proposal p) → SignalTests p
unfolding validate_proposal
signal_tests p h0 =
    let h1 =
      Only-rest _
        (error_if (not (is_long p.side)) rc_reject_data "V1 is long-only; short proposals rejected")
        _ h0 in
    let h2 =
      Only-rest _ (error_if (is_bad_price p.entry_price) rc_reject_data "Invalid entry_price") _
        h1 in
    let h3 =
      Only-rest _ (error_if (is_bad_price p.stop_price) rc_reject_data "Invalid stop_price") _ h2 in
    let h4 = Only-rest _ (error_if (is_bad_atr p.atr14) rc_reject_data "Invalid ATR14") _ h3 in
    let (e5, h5) = Only-other _ _ _ _ _ signal_differs h4 in
    let (e6, h6) = Only-other _ _ _ _ _ signal_differs h5 in record { signal = e5; strategy = e6 }

ruleset only_rules = (Only-quiet, Only-quiet_last, Only-append, Only-same)

silent_data : (p : TradeProposal) → DataTests p → Only rc_reject_no_signal (validate_proposal p)
unfolding validate_proposal
silent_data p t = search (only_rules, t.side, t.entry, t.stop, t.atr, t.market, t.bot) depth 16

silent_signal : (p : TradeProposal) → SignalTests p → Only rc_reject_data (validate_proposal p)
unfolding validate_proposal
silent_signal p t = search (only_rules, t.signal, t.strategy) depth 16

proposal_silent : (p : TradeProposal) → DataTests p → SignalTests p → validate_proposal p ≡ []
unfolding validate_proposal
proposal_silent p t s = rw (t.side, t.entry, t.stop, t.atr, s.signal, s.strategy, t.market, t.bot)

-- The proposal check reports under two codes. It reports none under `rc_reject_data` exactly for a long
-- side, positive finite prices, no ATR or a positive finite one, market data that is OK and an active
-- bot; none under `rc_reject_no_signal` exactly for a long entry that the strategy approved; and nothing
-- at all exactly where both hold.
pub validate_proposal_iff :
    (p : TradeProposal)
    → (Only rc_reject_no_signal (validate_proposal p) ↔ DataAccepted p)
      × (Only rc_reject_data (validate_proposal p) ↔ SignalAccepted p)
      × ((validate_proposal p ≡ []) ↔ (DataAccepted p × SignalAccepted p))
validate_proposal_iff p =
    let data_part : Only rc_reject_no_signal (validate_proposal p) ↔ DataAccepted p =
      ((λ h. (data_iff p).0 (data_tests p h)), (λ h. silent_data p ((data_iff p).1 h))) in
    let signal_part : Only rc_reject_data (validate_proposal p) ↔ SignalAccepted p =
      ((λ h. (signal_iff p).0 (signal_tests p h)), (λ h. silent_signal p ((signal_iff p).1 h))) in
    (
      data_part,
      signal_part,
      (
        (λ h. (
          data_part.0 (subst (Only rc_reject_no_signal) (sym h) (Only-nil _)),
          signal_part.0 (subst (Only rc_reject_data) (sym h) (Only-nil _)),
        )),
        (λ h. proposal_silent p ((data_iff p).1 h.0) ((signal_iff p).1 h.1)),
      ),
    )

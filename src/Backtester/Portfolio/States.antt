-- ===== src/Backtester/Portfolio/States.antt =====
-- services/backtester/portfolio.py: the position states that the risk engine is given, against the
-- check that services/risk_engine/validation.py makes of them.
use save_money_trading_bot.Prelude.{
  ◌≡◌, ◌||◌, ◌&&◌, inl, inr, refl, not, String, Bool, true, false, none, List, [], ◌∷◌, All, any,
  str_eq, Bool-cases, arith,
}
use save_money_trading_bot.Decimal.{nonpos, le, is_finite}
use save_money_trading_bot.RiskEngine.Models.{PositionState}
use save_money_trading_bot.RiskEngine.Validation.{validate_open_positions}
use save_money_trading_bot.RiskEngine.Validation.Accepted.{IsPositive}
use save_money_trading_bot.RiskEngine.Validation.Positions.{
  PositionAccepted, Distinct, validate_open_positions_iff,
}
use save_money_trading_bot.Backtester.Models.{SimulatedPosition}
use save_money_trading_bot.Backtester.Portfolio.{Marks, mark_of, to_position_states}

-- A position of the backtester with a name, finite values, positive prices and its stop below its entry.
-- Its size may have come down to zero.
pub record IsSound (marks : Marks) (p : SimulatedPosition) : Type 0 where
  pub named : str_eq p.symbol "" ≡ false
  pub size : is_finite p.quantity ≡ true
  pub entry : IsPositive p.entry_price
  pub stop : IsPositive p.initial_stop
  pub trail : IsPositive p.trail_stop
  pub stop_below : le p.entry_price p.initial_stop ≡ false
  pub mark : is_finite (mark_of marks p) ≡ true

-- One position for a symbol.
abbrev pub OneEach : List SimulatedPosition → Type 0
OneEach [] = Unit
OneEach (p ∷ ps) = All (λ (q : SimulatedPosition). str_eq p.symbol q.symbol ≡ false) ps × OneEach ps

-- A size and a mark above zero.
abbrev pub is_live : Marks → SimulatedPosition → Bool
is_live marks p = not (nonpos p.quantity) && not (nonpos (mark_of marks p))

module _ (marks : Marks) where
  states-apart :
      (symbol : String) (ps : List SimulatedPosition)
      → All (λ (q : SimulatedPosition). str_eq symbol q.symbol ≡ false) ps
      → All (λ (q : PositionState). str_eq symbol q.symbol ≡ false) (to_position_states ps marks)
  unfolding to_position_states
  states-apart symbol [] h = tt
  states-apart symbol (p ∷ ps) h =
      let rest = states-apart symbol ps h.1 in
      elim (Bool-cases (nonpos p.quantity || nonpos (mark_of marks p))) [
        | inl passed ↦ ground (arith, passed, rest)
        | inr live ↦ ground (arith, live, rest, h.0)
      ]

  states-Distinct :
      (ps : List SimulatedPosition) → OneEach ps → Distinct (to_position_states ps marks)
  unfolding to_position_states
  states-Distinct [] h = tt
  states-Distinct (p ∷ ps) h =
      let rest = states-Distinct ps h.1 in
      let apart = states-apart p.symbol ps h.0 in
      elim (Bool-cases (nonpos p.quantity || nonpos (mark_of marks p))) [
        | inl passed ↦ ground (arith, passed, rest)
        | inr live ↦ ground (arith, live, rest, apart)
      ]

  states-PositionAccepted :
      (ps : List SimulatedPosition)
      → All (IsSound marks) ps
      → All PositionAccepted (to_position_states ps marks)
  unfolding to_position_states
  states-PositionAccepted [] h = tt
  states-PositionAccepted (p ∷ ps) h =
      let rest = states-PositionAccepted ps h.1 in
      let sound = h.0 in
      elim (Bool-cases (nonpos p.quantity || nonpos (mark_of marks p))) [
        | inl passed ↦ ground (arith, passed, rest)
        | inr live ↦ ground (
          arith, live, rest, sound.named, sound.size, sound.entry, sound.stop, sound.trail,
          sound.stop_below, sound.mark,
        )
      ]

  states-any :
      (symbol : String) (ps : List SimulatedPosition)
      → any (λ (s : PositionState). str_eq s.symbol symbol) (to_position_states ps marks)
        ≡ any (λ (p : SimulatedPosition). str_eq p.symbol symbol && is_live marks p) ps
  unfolding to_position_states
  states-any symbol [] = refl
  states-any symbol (p ∷ ps) = ground (arith, states-any symbol ps)

  -- Where the positions have names, finite sizes and marks, positive finite prices and a stop below the
  -- entry, one for a symbol, the states made of them pass the risk engine's check of open positions; and
  -- a symbol is among the states exactly where a position of it has a positive size and a positive mark.
  pub to_position_states-accepted :
      (ps : List SimulatedPosition)
      → All (IsSound marks) ps
      → OneEach ps
      → (validate_open_positions (to_position_states ps marks) ≡ none)
        × ((symbol : String)
            → any (λ (s : PositionState). str_eq s.symbol symbol) (to_position_states ps marks)
              ≡ any (λ (p : SimulatedPosition). str_eq p.symbol symbol && is_live marks p) ps)
  to_position_states-accepted ps sound one_each = (
    (validate_open_positions_iff (to_position_states ps marks)).1
        (states-PositionAccepted ps sound, states-Distinct ps one_each),
    (λ symbol. states-any symbol ps),
  )

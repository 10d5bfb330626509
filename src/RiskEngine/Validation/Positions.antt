-- ===== src/RiskEngine/Validation/Positions.antt =====
-- `validate_open_positions` against a description of a well-formed portfolio.
use save_money_trading_bot.Prelude.{
  ◌≡◌, ◌↔◌, inl, inr, refl, String, false, none, List, [], ◌∷◌, All, arith, str_eq, Option-cases,
}
use save_money_trading_bot.Decimal.{le}
use save_money_trading_bot.RiskEngine.Models.{PositionState}
use save_money_trading_bot.RiskEngine.Validation.{
  seen, validate_position, validate_positions_from, validate_open_positions,
}
use save_money_trading_bot.RiskEngine.Validation.Accepted.{IsPositive}

pub record PositionAccepted (p : PositionState) : Type 0 where
  pub named : str_eq p.symbol "" ≡ false
  pub entry : IsPositive p.entry_price
  pub size : IsPositive p.position_size
  pub stop : IsPositive p.stop_initial
  pub trail : IsPositive p.trail_stop
  pub mark : IsPositive p.mark_price
  pub stop_below : le p.entry_price p.stop_initial ≡ false

-- No symbol is held twice.
abbrev pub Distinct : List PositionState → Type 0
Distinct [] = Unit
Distinct (p ∷ ps) = All (λ (q : PositionState). str_eq p.symbol q.symbol ≡ false) ps × Distinct ps

-- No symbol of the list is among those seen.
abbrev Unseen : List String → List PositionState → Type 0
Unseen ss = All (λ (q : PositionState). seen q.symbol ss ≡ false)

abbrev ValuesAccepted : PositionState → Type 0
ValuesAccepted p = (str_eq p.symbol "" ≡ false) × (validate_position p ≡ none)

position_iff : (p : PositionState) → ValuesAccepted p ↔ PositionAccepted p
unfolding validate_position
position_iff p = ((λ h. ground arith), (λ h. ground arith))

Unseen-cons_elim :
    (s : String) (ss : List String) (ps : List PositionState)
    → Unseen (s ∷ ss) ps
    → All (λ (q : PositionState). str_eq s q.symbol ≡ false) ps × Unseen ss ps
Unseen-cons_elim s ss [] h = (tt, tt)
Unseen-cons_elim s ss (p ∷ ps) h =
    let (a, b) = Unseen-cons_elim s ss ps h.1 in ((ground arith, a), (ground arith, b))

Unseen-cons :
    (s : String) (ss : List String) (ps : List PositionState)
    → All (λ (q : PositionState). str_eq s q.symbol ≡ false) ps
    → Unseen ss ps
    → Unseen (s ∷ ss) ps
Unseen-cons s ss [] h k = tt
Unseen-cons s ss (p ∷ ps) h k = (ground arith, Unseen-cons s ss ps h.1 k.1)

Unseen-nil : (ps : List PositionState) → Unseen [] ps
Unseen-nil [] = tt
Unseen-nil (p ∷ ps) = (refl, Unseen-nil ps)

from_sound :
    (ss : List String) (ps : List PositionState)
    → validate_positions_from ss ps ≡ none
    → All PositionAccepted ps × Distinct ps × Unseen ss ps
unfolding validate_positions_from
from_sound ss [] h = (tt, tt, tt)
from_sound ss (p ∷ ps) h = elim (Option-cases (validate_position p)) [
  | inr (e, bad) ↦ ground arith
  | inl good ↦
      let (ok_rest, distinct, unseen) = from_sound (p.symbol ∷ ss) ps (ground arith) in
      let (apart, unseen') = Unseen-cons_elim p.symbol ss ps unseen in
      (
        ((position_iff p).0 (ground arith, good), ok_rest),
        (apart, distinct),
        (ground arith, unseen'),
      )
]

from_complete :
    (ss : List String) (ps : List PositionState)
    → All PositionAccepted ps
    → Distinct ps
    → Unseen ss ps
    → validate_positions_from ss ps ≡ none
unfolding validate_positions_from
from_complete ss [] a d u = refl
from_complete ss (p ∷ ps) a d u =
    let (named, good) = (position_iff p).1 a.0 in
    let rest = from_complete (p.symbol ∷ ss) ps a.1 d.1 (Unseen-cons p.symbol ss ps d.0 u.1) in
    ground (arith, named, good, rest, u.0)

-- The check of the open positions is silent exactly where every position has a symbol, positive
-- finite values and an initial stop below its entry, and no symbol occurs twice.
pub validate_open_positions_iff :
    (ps : List PositionState)
    → (validate_open_positions ps ≡ none) ↔ (All PositionAccepted ps × Distinct ps)
unfolding validate_open_positions
validate_open_positions_iff ps = (
  (λ h. let (a, d, _) = from_sound [] ps h in (a, d)),
  (λ h. from_complete [] ps h.0 h.1 (Unseen-nil ps)),
)

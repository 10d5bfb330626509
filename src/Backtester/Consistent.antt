-- ===== src/Backtester/Consistent.antt =====
-- The state of a run at every step: positions under their own symbols, with the stop that is in force and
-- a positive quantity, each with its trade and its history; at most one pending intent for a symbol, and
-- none for a symbol that is held; and a peak that no equity exceeds.
pub mod Steps
pub mod Trails
pub mod Fills
pub mod Days
use save_money_trading_bot.Prelude.{
  ◌≡◌, String, Bool, true, false, List, [], ◌∷◌, ◌++◌, All, any, str_eq, arith, inl, inr,
}
use mathlib.Core.Path.{subst}
use save_money_trading_bot.Prelude.Dict.{Dict, contains, Every}
use save_money_trading_bot.Decimal.{Decimal, Exc, ok, ◌>>=◌, Exc-cases, lt, le, max_dec, zero_dec}
use save_money_trading_bot.Backtester.Models.{SimulatedPosition, PendingIntent, EquitySnapshot}
use save_money_trading_bot.Backtester.Runtime.{Runtime, for_each}

-- A position that stands under the key `k`.
pub record PositionStands (k : String) (p : SimulatedPosition) : Type 0 where
  pub keyed : p.symbol ≡ k
  pub in_force : p.effective_stop ≡ max_dec p.initial_stop p.trail_stop
  pub held : lt zero_dec p.quantity ≡ true

-- No intent of the list is for the symbol.
abbrev pub Apart : String → List PendingIntent → Type 0
Apart symbol = All (λ (p : PendingIntent). str_eq p.symbol symbol ≡ false)

-- One intent for a symbol at most.
abbrev pub OneEach : List PendingIntent → Type 0
OneEach [] = Unit
OneEach (p ∷ ps) = Apart p.symbol ps × OneEach ps

-- No intent is for a symbol that is held.
abbrev pub NotHeld {ℓ} : {V : Type ℓ} → Dict V → List PendingIntent → Type 0
NotHeld d = All (λ (p : PendingIntent). contains p.symbol d ≡ false)

pub record IsConsistent (rt : Runtime) : Type 0 where
  pub positions_stand : Every PositionStands rt.positions
  pub traded : (k : String) → contains k rt.active_trades ≡ contains k rt.positions
  pub recorded : (k : String) → contains k rt.trail_history ≡ contains k rt.positions
  pub one_each : OneEach rt.pending_intents
  pub not_held : NotHeld rt.positions rt.pending_intents
  pub peak : All (λ (s : EquitySnapshot). le s.equity rt.peak_equity ≡ true) rt.equity_curve

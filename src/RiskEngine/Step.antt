-- ===== src/RiskEngine/Step.antt =====
-- The early returns of `RiskEngine.evaluate`: a stage goes on with a value, returns a rejecting
-- decision, or an arithmetic operation raises.
use save_money_trading_bot.Prelude.{◌≡◌, refl, ◌⊎◌, inl, inr, Bool, true, false}
use save_money_trading_bot.Decimal.{Exc, ok, raised, Fault}
use save_money_trading_bot.RiskEngine.Models.{RiskDecision}

pub data Step {ℓ} (A : Type ℓ) : Type ℓ where
  go : A → Step A
  reject : RiskDecision → Step A
  fault : Fault → Step A

infixl 5 ◌>>=◌ ◌>>◌
abbrev pub ◌>>=◌ {ℓ κ} : {A : Type ℓ} {B : Type κ} → Step A → (A → Step B) → Step B
go a >>= f = f a
reject d >>= f = reject d
fault e >>= f = fault e

abbrev pub ◌>>◌ {ℓ} : {B : Type ℓ} → Step (Unit {0}) → Step B → Step B
m >> k = m >>= λ _. k

-- A call of a function that may raise.
abbrev pub call {ℓ} : {A : Type ℓ} → Exc A → Step A
call (ok a) = go a
call (raised e) = fault e

-- `if test: return decision`
abbrev pub reject_if : Bool → RiskDecision → Step (Unit {0})
reject_if true d = reject d
reject_if false d = go tt

-- Inversion of a bind that goes on.
pub >>=-eq-go {ℓ κ} :
    {A : Type ℓ} {B : Type κ} (m : Step A) (f : A → Step B) {b : B}
    → (m >>= f) ≡ go b
    → (a : A) × (m ≡ go a) × (f a ≡ go b)
>>=-eq-go (go a) f h = (a, refl, h)
>>=-eq-go (reject d) f h = cc
>>=-eq-go (fault e) f h = cc

-- To split on the outcome of a stage, and keep the equation.
pub Step-cases {ℓ} :
    {A : Type ℓ} (m : Step A)
    → ((a : A) × (m ≡ go a))
      ⊎ (((d : RiskDecision) × (m ≡ reject d)) ⊎ ((e : Fault) × (m ≡ fault e)))
Step-cases (go a) = inl (a, refl)
Step-cases (reject d) = inr (inl (d, refl))
Step-cases (fault e) = inr (inr (e, refl))

-- ===== src/RiskEngine/Sizing/Termination.antt =====
-- On the multiples of the quantity step that 28 digits hold, the loop of the risk cap ends within its
-- fuel and finds the largest multiple that fits.
use native.Mathlib.Nat.{mul-le-mul_right, mul-pos}
use save_money_trading_bot.Prelude.{
  ℕ, zero, suc, ◌+◌, ◌*◌, ◌^◌, ◌≤◌, ◌<◌, ◌≡◌, ◌⊎◌, inl, inr, refl, ◌∙◌, true, false, Option, none,
  some, arith, Bool-cases, ◌&&◌, leb, le→leb,
}
use save_money_trading_bot.Prelude.Int.{pos}
use save_money_trading_bot.Decimal.{Decimal, ok, Exc-cases, nonpos, le, eq, zero_dec}
use save_money_trading_bot.Decimal.Order
use save_money_trading_bot.Decimal.Order.{pow-pos}
use save_money_trading_bot.Decimal.Division.{div_positive}
use save_money_trading_bot.Decimal.Exact.{
  multiple, sub-multiple, mul-multiple, truncate-quotient-multiple,
}
use save_money_trading_bot.RiskEngine.Rounding.{floor_to_step}
use save_money_trading_bot.RiskEngine.Sizing.{
  CapInputs, within_risk, step_down, cap_loop, rounds, apply_risk_cap_after_rounding,
}
use save_money_trading_bot.RiskEngine.Sizing.Raises.{floor_to_step_ok, within_risk_quiet}

multiple-le : (c k m n : ℕ) → m ≤ n → le (multiple c k m) (multiple c k n) ≡ true
unfolding le
multiple-le c k m n h = le→leb _ _ (omega (arith, mul-le-mul_right (10 ^ k) (mul-le-mul_right c h)))

not_both : (x y : ℕ) → x < y → (leb x y && leb y x) ≡ false
not_both x y h = ground arith

multiple-ne_suc : (c k n : ℕ) → 0 < c → eq (multiple c k n) (multiple c k (suc n)) ≡ false
unfolding eq
multiple-ne_suc c k n h =
    not_both (n * c * 10 ^ k + 0 * 10 ^ k) (suc n * c * 10 ^ k + 0 * 10 ^ k)
      (omega (arith, mul-pos h (pow-pos k)))

step_positive : (c k : ℕ) → 0 < c → nonpos (record { coeff = pos c; scale = k }) ≡ false
unfolding nonpos
step_positive c k h = ground arith

-- Cutting the multiple n of a positive step c / 10 ^ k to the step gives it back, where its coefficient
-- n * c has at most 28 digits.
pub floor_to_step-multiple :
    (c k n : ℕ)
    → 0 < c
    → n * c < 10 ^ 28
    → floor_to_step (multiple c k n) (record { coeff = pos c; scale = k }) ≡ ok (multiple c k n)
floor_to_step-multiple c k n hc h = rw (
  floor_to_step_ok (multiple c k n) (record { coeff = pos c; scale = k }) (step_positive c k hc),
  truncate-quotient-multiple c k n hc h,
  mul-multiple c k n h,
)

zero_multiple : (c k : ℕ) → le (multiple c k 0) zero_dec ≡ true
unfolding le
zero_multiple c k = le→leb _ _ (omega arith)

below_positive : (a b : Decimal) → nonpos a ≡ false → le b zero_dec ≡ true → le a b ≡ false
unfolding nonpos
below_positive a b h z = ground (arith, Order.le_trans a b zero_dec)

last : (n j : ℕ) → j ≤ suc n → (j ≡ suc n) ⊎ (j ≤ n)
last n j h = grind arith

-- One round of the loop, by its outcome.
loop_below :
    (i : CapInputs) (fuel : ℕ) (q : Decimal)
    → le i.minimum_quantity q ≡ false
    → cap_loop i (suc fuel) q ≡ ok none
unfolding cap_loop
loop_below i fuel q h = ground arith

loop_done :
    (i : CapInputs) (fuel : ℕ) (q : Decimal)
    → le i.minimum_quantity q ≡ true
    → within_risk i q ≡ ok true
    → cap_loop i (suc fuel) q ≡ ok (some q)
unfolding cap_loop
loop_done i fuel q h w = ground arith

loop_next :
    (i : CapInputs) (fuel : ℕ) (q next : Decimal)
    → le i.minimum_quantity q ≡ true
    → within_risk i q ≡ ok false
    → step_down i q ≡ ok (some next)
    → cap_loop i (suc fuel) q ≡ cap_loop i fuel next
unfolding cap_loop
loop_next i fuel q next h w s = ground arith

module _ (i : CapInputs) (c k : ℕ) where
  -- n steps meet the minimum and pass the risk test.
  abbrev pub Fits : ℕ → Type 0
  Fits n =
      (le i.minimum_quantity (multiple c k n) ≡ true) × (within_risk i (multiple c k n) ≡ ok true)

  -- The outcome of a search below n: nothing fits, or the largest multiple that does.
  abbrev pub IsLargest : ℕ → Option Decimal → Type 0
  IsLargest n none = (j : ℕ) → j ≤ n → ¬ Fits j
  IsLargest n (some q) =
      (m : ℕ) × (q ≡ multiple c k m) × (m ≤ n) × Fits m × ((j : ℕ) → m < j → j ≤ n → ¬ Fits j)

module _ (i : CapInputs) (c k : ℕ) (step : i.quantity_step ≡ record { coeff = pos c; scale = k })
    (c_pos : 0 < c) (equity : nonpos i.equity_usd ≡ false)
    (minimum : nonpos i.minimum_quantity ≡ false) where
  minimum_unmet_zero : le i.minimum_quantity (multiple c k 0) ≡ false
  minimum_unmet_zero = below_positive i.minimum_quantity _ minimum (zero_multiple c k)

  step_down-multiple :
      (n : ℕ)
      → suc n * c < 10 ^ 28
      → step_down i (multiple c k (suc n)) ≡ ok (some (multiple c k n))
  unfolding step_down
  step_down-multiple n h =
      let fits : n * c < 10 ^ 28 = omega arith in
      rw (
        step,
        sub-multiple c k n fits,
        floor_to_step-multiple c k n c_pos fits,
        multiple-ne_suc c k n c_pos,
      )

  too_small :
      (n : ℕ) → le i.minimum_quantity (multiple c k n) ≡ false → (j : ℕ) → j ≤ n → ¬ Fits i c k j
  too_small n small j h f = cc (
      Order.le_trans i.minimum_quantity (multiple c k j) (multiple c k n) f.0
        (multiple-le c k j n h))

  extend :
      (n : ℕ) (o : Option Decimal)
      → IsLargest i c k n o
      → ¬ Fits i c k (suc n)
      → IsLargest i c k (suc n) o
  extend n none best bad =
      λ j h. elim (last n j h) [ inl e ↦ λ f. bad (rw e at f) | inr l ↦ best j l ]
  extend n (some q) (m, e, l, fits, best) bad = (
    m,
    e,
    omega arith,
    fits,
    λ j a h. elim (last n j h) [ inl same ↦ λ f. bad (rw same at f) | inr l' ↦ best j a l' ],
  )

  cap_loop-IsLargest :
      (fuel n : ℕ)
      → n * c < 10 ^ 28
      → n < fuel
      → (o : Option Decimal) × (cap_loop i fuel (multiple c k n) ≡ ok o) × IsLargest i c k n o
  cap_loop-IsLargest zero n h f = absurd (omega arith)
  cap_loop-IsLargest (suc fuel) zero h f =
      (none, loop_below i fuel _ minimum_unmet_zero, too_small 0 minimum_unmet_zero)
  cap_loop-IsLargest (suc fuel) (suc n) h f = elim (Bool-cases (le i.minimum_quantity q)) [
    | inr small ↦ (none, loop_below i fuel q small, too_small (suc n) small)
    | inl enough ↦ elim (Exc-cases (within_risk i q)) [
      | inr (e, raises) ↦ absurd (within_risk_quiet i equity step_pos q raises)
      | inl (true, w) ↦ (
        some q,
        loop_done i fuel q enough w,
        (suc n, refl, omega arith, (enough, w), λ j a b. absurd (omega arith)),
      )
      | inl (false, w) ↦
          let (o, run, best) = cap_loop-IsLargest fuel n (omega arith) (omega arith) in
          (
            o,
            loop_next i fuel q _ enough w (step_down-multiple n h) ∙ run,
            extend n o best (λ g. cc g.1),
          )
    ]
  ]
    where
      q : Decimal
      q = multiple c k (suc n)

      step_pos : nonpos i.quantity_step ≡ false
      step_pos = rw step (step_positive c k c_pos)

  rounds-multiple : (n : ℕ) → n * c < 10 ^ 28 → rounds (multiple c k n) i.quantity_step ≡ ok (n + 2)
  unfolding rounds
  rounds-multiple n h = rw (
    step,
    div_positive (multiple c k n) _ (step_positive c k c_pos),
    truncate-quotient-multiple c k n c_pos h,
  )

  -- With a positive step c / 10 ^ k, a positive minimum and a positive equity, the risk cap returns on
  -- every multiple n of the step whose coefficient n * c has at most 28 digits: the result is the
  -- largest multiple up to n that meets the minimum and the risk test, and none if none does.
  pub apply_risk_cap-IsLargest :
      (n : ℕ)
      → n * c < 10 ^ 28
      → (o : Option Decimal) × (apply_risk_cap_after_rounding i (multiple c k n) ≡ ok o)
        × IsLargest i c k n o
  unfolding apply_risk_cap_after_rounding
  apply_risk_cap-IsLargest n h =
      let (o, run, best) = cap_loop-IsLargest (n + 2) n h (omega arith) in
      (o, rw (rounds-multiple n h) run, best)

-- ===== src/Decimal/Exact.antt =====
-- Where rounding changes nothing: coefficients of at most 28 digits, and whole multiples of a step.
use native.Mathlib.Nat.{
  add-zero, add-suc, mul_assoc, mul-div_cancel, mul-mod_left, pow-suc, mul-lt-mul_of_pos_right,
  mul-le-mul_left,
}
use save_money_trading_bot.Prelude.{
  ℕ, zero, suc, ◌+◌, ◌-◌, ◌*◌, ◌/◌, ◌%◌, ◌^◌, ◌≤◌, ◌<◌, max, ◌≡◌, sym, ap, ◌∙◌, false, arith,
}
use save_money_trading_bot.Prelude.Int.{pos, sub_ℕ}
use save_money_trading_bot.Decimal.Defs.{
  Decimal, digits_from, digits, half_even, sticky, scaled, fix, precision, sub, mul, quotient,
  truncate, of_ℕ,
}
use save_money_trading_bot.Decimal.Order.{pow-pos}

-- 10 ^ (a + b) by hand: the library has it for no variable exponent.
pub pow-add : (a b : ℕ) → 10 ^ (a + b) ≡ 10 ^ a * 10 ^ b
pow-add a zero = rw add-zero (omega arith)
pow-add a (suc b) = rw (add-suc, pow-suc, pow-suc, pow-add a b) (omega arith)

tenth : (n p : ℕ) → n < p * 10 → n / 10 < p
tenth n p h = omega arith

digits_from-le : (f n k : ℕ) → n < 10 ^ k → digits_from f n ≤ k
unfolding digits_from
digits_from-le zero n k h = omega arith
digits_from-le (suc f) n zero h = ground arith
digits_from-le (suc f) n (suc k) h =
    ground (arith, digits_from-le f (n / 10) k, tenth n (10 ^ k) (rw pow-suc at h))

pub half_even-mul : (a k : ℕ) → half_even (a * 10 ^ k) k ≡ a
unfolding half_even
half_even-mul a k = rw (mul-div_cancel a (pow-pos k), mul-mod_left) (ground (arith, pow-pos k))

pub digits-le : (n k : ℕ) → n < 10 ^ k → digits n ≤ k
unfolding digits
digits-le n k h = digits_from-le n n k h

-- A coefficient of at most 28 digits is kept as it is.
pub fix_exact : (n s : ℕ) → n < 10 ^ 28 → fix false n s 0 ≡ record { coeff = pos n; scale = s }
unfolding fix
fix_exact n s h =
    let e : digits n - precision ≡ 0 = omega (arith, digits-le n 28 h) in rw e (ground arith)

-- n steps of c / 10 ^ k.
abbrev pub multiple : (c k n : ℕ) → Decimal
multiple c k n = record { coeff = pos (n * c); scale = k }

sub_ℕ-diff : (a b m : ℕ) → a ≡ b + m → sub_ℕ a b ≡ pos m
sub_ℕ-diff a b m h = ground arith

-- One step less than n + 1 steps is n steps.
pub sub-multiple :
    (c k n : ℕ)
    → n * c < 10 ^ 28
    → sub (multiple c k (suc n)) (record { coeff = pos c; scale = k }) ≡ multiple c k n
unfolding sub
sub-multiple c k n h =
    let same : max k k ≡ k = omega arith in
    let level : k - k ≡ 0 = omega arith in
    rw (same, level, sub_ℕ-diff (suc n * c * 1 + 0) (0 + c * 1) (n * c) (omega arith))
      (fix_exact (n * c) k h)

pub mul-multiple :
    (c k n : ℕ)
    → n * c < 10 ^ 28
    → mul (of_ℕ n) (record { coeff = pos c; scale = k }) ≡ multiple c k n
unfolding mul
mul-multiple c k n h = let level : 0 + k ≡ k = omega arith in rw level (fix_exact (n * c) k h)

-- The digits that rounding drops from n * 10 ^ e are zeros.
excess-le : (n e : ℕ) → n < 10 ^ 28 → digits (n * 10 ^ e) - precision ≤ e
excess-le n e h =
    let fits : n * 10 ^ e < 10 ^ (28 + e) =
      rw (pow-add 28 e) (mul-lt-mul_of_pos_right h (pow-pos e)) in
    omega (arith, digits-le (n * 10 ^ e) (28 + e) fits)

split_power : (n e d : ℕ) → d ≤ e → n * 10 ^ e ≡ n * 10 ^ (e - d) * 10 ^ d
split_power n e d h =
    let sum : e ≡ e - d + d = omega arith in
    ap (λ x. n * 10 ^ x) sum
    ∙ (ap (λ x. n * x) (pow-add (e - d) d) ∙ sym (mul_assoc n (10 ^ (e - d)) (10 ^ d)))

half_even-excess : (n e d : ℕ) → d ≤ e → half_even (n * 10 ^ e) d ≡ n * 10 ^ (e - d)
half_even-excess n e d h = rw (split_power n e d h) (half_even-mul (n * 10 ^ (e - d)) d)

scaled_down :
    (m s t d : ℕ) → t ≤ s → s - t ≡ d → scaled false m s t ≡ record { coeff = pos m; scale = d }
unfolding scaled
scaled_down m s t d h e = ground arith

fix_multiple :
    (n e s t : ℕ)
    → n < 10 ^ 28
    → s ≡ t + e
    → (d : ℕ) × (fix false (n * 10 ^ e) s t ≡ record { coeff = pos (n * 10 ^ d); scale = d })
unfolding fix
fix_multiple n e s t h p =
    let d = digits (n * 10 ^ e) - precision in
    let small = excess-le n e h in
    (
      e - d,
      rw (half_even-excess n e d small)
          (scaled_down (n * 10 ^ (e - d)) s (t + d) (e - d) (omega arith) (omega arith)),
    )

truncate-power : (n d : ℕ) → truncate (record { coeff = pos (n * 10 ^ d); scale = d }) ≡ of_ℕ n
unfolding truncate
truncate-power n d = rw (mul-div_cancel n (pow-pos d))

-- A multiple of ten to the excess of its digits survives rounding, up to its trailing zeros.
truncate-fix :
    (n e s t : ℕ) → n < 10 ^ 28 → s ≡ t + e → truncate (fix false (n * 10 ^ e) s t) ≡ of_ℕ n
truncate-fix n e s t h p = let (d, q) = fix_multiple n e s t h p in rw q (truncate-power n d)

-- A division that leaves no rest needs no sticky unit.
sticky-multiple :
    (n c e f : ℕ)
    → 0 < c
    → f ≡ 0
    → sticky (n * c * 10 ^ e / (c * 10 ^ f)) (n * c * 10 ^ e % (c * 10 ^ f)) ≡ n * 10 ^ e
sticky-multiple n c e f hc z =
    let regroup : n * c * 10 ^ e ≡ n * 10 ^ e * c = omega arith in
    let one : c * 10 ^ f ≡ c = rw z (omega arith) in
    rw (one, regroup, mul-div_cancel (n * 10 ^ e) hc, mul-mod_left)

le_of_mul : (n c : ℕ) → 0 < c → n * c < 10 ^ 28 → n < 10 ^ 28
le_of_mul n c hc h = omega (arith, mul-le-mul_left n hc)

-- The quotient of n steps by the step is n.
pub truncate-quotient-multiple :
    (c k n : ℕ)
    → 0 < c
    → n * c < 10 ^ 28
    → truncate (quotient (multiple c k n) (record { coeff = pos c; scale = k })) ≡ of_ℕ n
unfolding quotient
truncate-quotient-multiple c k n hc h =
    let up = digits c + precision + 1 in
    let down = digits (n * c) in
    let short : down ≤ 28 = digits-le (n * c) 28 h in
    rw (sticky-multiple n c (up - down) (down - up) hc (omega arith))
      (truncate-fix n (up - down) (k + up) (k + down) (le_of_mul n c hc h) (omega arith))

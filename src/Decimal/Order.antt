-- ===== src/Decimal/Order.antt =====
-- Decimal comparison is a total preorder, with `lt` its strict part; `max` and `min` follow it.
use native.Mathlib.Nat.{le_of_mul-le-mul_left, mul-le-mul_right, one-le-pow}
use save_money_trading_bot.Prelude.{
  ℕ, ◌+◌, ◌*◌, ◌^◌, ◌≤◌, ◌<◌, ◌≡◌, ◌⊎◌, true, false, arith, leb→le, le→leb,
}
use save_money_trading_bot.Prelude.Int.{pos_part, neg_part}
use save_money_trading_bot.Decimal.Defs.{
  Decimal, lt, le, nonpos, negative, max_dec, min_dec, zero_dec,
}

-- 10 ^ n is positive.
pub pow-pos : (n : ℕ) → 0 < 10 ^ n
pow-pos n = one-le-pow n 10 (omega arith)

-- Fractions over positive denominators, compared crosswise.
cross_trans :
    (pa na A pb nb B pc nc C : ℕ)
    → 0 < B
    → pa * B + nb * A ≤ pb * A + na * B
    → pb * C + nc * B ≤ pc * B + nb * C
    → pa * C + nc * A ≤ pc * A + na * C
cross_trans pa na A pb nb B pc nc C h p q =
    le_of_mul-le-mul_left {k = B} (omega (arith, mul-le-mul_right C p, mul-le-mul_right A q)) h

pub le_refl : (a : Decimal) → le a a ≡ true
unfolding le
le_refl a = le→leb _ _ (omega arith)

pub le_trans : (a b c : Decimal) → le a b ≡ true → le b c ≡ true → le a c ≡ true
unfolding le
le_trans a b c p q = le→leb _ _ (
    cross_trans (pos_part a.coeff) (neg_part a.coeff) (10 ^ a.scale) (pos_part b.coeff)
      (neg_part b.coeff) (10 ^ b.scale) (pos_part c.coeff) (neg_part c.coeff) (10 ^ c.scale)
      (pow-pos b.scale) (leb→le _ _ p) (leb→le _ _ q))

pub le_of_lt : (a b : Decimal) → lt a b ≡ true → le a b ≡ true
unfolding lt le
le_of_lt a b h = ground arith

pub le_of_not_lt : (a b : Decimal) → lt a b ≡ false → le b a ≡ true
unfolding lt le
le_of_not_lt a b h = ground arith

pub lt_of_not_le : (a b : Decimal) → le a b ≡ false → lt b a ≡ true
unfolding lt le
lt_of_not_le a b h = ground arith

pub not_le_of_lt : (a b : Decimal) → lt a b ≡ true → le b a ≡ false
unfolding lt le
not_le_of_lt a b h = ground arith

pub not_lt_of_le : (a b : Decimal) → le a b ≡ true → lt b a ≡ false
unfolding lt le
not_lt_of_le a b h = ground arith

pub pos_of_not_nonpos : (a : Decimal) → nonpos a ≡ false → lt zero_dec a ≡ true
unfolding nonpos
pos_of_not_nonpos a h = lt_of_not_le a zero_dec h

pub nonneg_of_not_negative : (a : Decimal) → negative a ≡ false → le zero_dec a ≡ true
unfolding negative
nonneg_of_not_negative a h = le_of_not_lt a zero_dec h

pub le-max_left : (a b : Decimal) → le a (max_dec a b) ≡ true
unfolding max_dec
le-max_left a b = ground (arith, le_refl a, le_of_lt a b)

pub le-max_right : (a b : Decimal) → le b (max_dec a b) ≡ true
unfolding max_dec
le-max_right a b = ground (arith, le_refl b, le_of_not_lt a b)

pub max-cases : (a b : Decimal) → (max_dec a b ≡ a) ⊎ (max_dec a b ≡ b)
unfolding max_dec
max-cases a b = ground arith

pub min-le_left : (a b : Decimal) → le (min_dec a b) a ≡ true
unfolding min_dec
min-le_left a b = ground (arith, le_refl a, le_of_lt b a)

pub min-le_right : (a b : Decimal) → le (min_dec a b) b ≡ true
unfolding min_dec
min-le_right a b = ground (arith, le_refl b, le_of_not_lt b a)

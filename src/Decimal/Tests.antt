-- ===== src/Decimal/Tests.antt =====
-- Runs of the decimal operations.
use save_money_trading_bot.Prelude.{◌^◌, ◌-◌, ◌*◌, ◌≡◌, refl, true, false}
use save_money_trading_bot.Decimal.Defs.{
  fix, digits, ok, raised, division_by_zero, dec, of_ℕ, add, sub, mul, div, lt, is_finite,
}

add-runs : add (dec 15 1) (dec 25 2) ≡ dec 175 2
unfolding add fix
add-runs = refl

sub-runs : sub (dec 1 0) (dec 25 2) ≡ dec 75 2
unfolding sub fix
sub-runs = refl

mul-rounds : mul (dec (10 ^ 28 - 1) 0) (dec 15 1) ≡ of_ℕ (15 * 10 ^ 27)
unfolding mul fix
mul-rounds = refl

-- 1 / 3 and 2 / 3 to 28 digits.
div-third : div (of_ℕ 1) (of_ℕ 3) ≡ ok (dec 3333333333333333333333333333 28)
unfolding div fix digits
div-third = refl

div-two_thirds : div (of_ℕ 2) (of_ℕ 3) ≡ ok (dec 6666666666666666666666666667 28)
unfolding div fix digits
div-two_thirds = refl

div-zero : div (of_ℕ 2) (of_ℕ 0) ≡ raised division_by_zero
unfolding div fix digits
div-zero = refl

lt-runs : lt (dec 15 1) (dec 2 0) ≡ true
unfolding lt
lt-runs = refl

finite-runs : is_finite (dec 1 400) ≡ true
unfolding is_finite
finite-runs = refl

huge-runs : is_finite (of_ℕ (10 ^ 309)) ≡ false
unfolding is_finite
huge-runs = refl

-- ===== src/Decimal/Defs.antt =====
-- Decimal values, their rounding, comparison and arithmetic.
use save_money_trading_bot.Prelude.{
  ℕ, zero, suc, ◌+◌, ◌-◌, ◌*◌, ◌/◌, ◌%◌, ◌^◌, max, ◌≡◌, refl, ◌⊎◌, inl, inr, Bool, true, false, not,
  ◌&&◌, ◌||◌, List, [], ◌∷◌, ltb, leb, ◌==◌, if◌then◌else◌,
}
use save_money_trading_bot.Prelude.Int.{ℤ, pos, negsuc, pos_part, neg_part, abs, sub_ℕ}

pub record Decimal : Type 0 where
  pub coeff : ℤ
  pub scale : ℕ

-- What an operation raises.
pub data Fault : Type 0 where
  value_error division_by_zero index_error out_of_fuel : Fault

pub data Exc {ℓ} (A : Type ℓ) : Type ℓ where
  ok : A → Exc A
  raised : Fault → Exc A

infixl 5 ◌>>=◌
abbrev pub ◌>>=◌ {ℓ κ} : {A : Type ℓ} {B : Type κ} → Exc A → (A → Exc B) → Exc B
ok a >>= f = f a
raised e >>= f = raised e

-- To split on a call that may raise, and keep the equation.
pub Exc-cases {ℓ} :
    {A : Type ℓ} (m : Exc A) → ((a : A) × (m ≡ ok a)) ⊎ ((e : Fault) × (m ≡ raised e))
Exc-cases (ok a) = inl (a, refl)
Exc-cases (raised e) = inr (e, refl)

-- ± m, as an integer.
abbrev pub signed : Bool → ℕ → ℤ
signed neg m = if neg then sub_ℕ 0 m else pos m

abbrev pub is_negative : ℤ → Bool
is_negative (pos n) = false
is_negative (negsuc n) = true

-- The number of decimal digits of `n`, with fuel; none for 0.
unfoldable pub digits_from : ℕ → ℕ → ℕ
digits_from zero n = 0
digits_from (suc f) n = let more = suc (digits_from f (n / 10)) in if n == 0 then 0 else more

unfoldable pub digits : ℕ → ℕ
unfolding digits_from
digits n = digits_from n n

-- m / 10 ^ k to the nearest integer, a tie to the even one.
unfoldable pub half_even : ℕ → ℕ → ℕ
half_even m k =
    let q = m / 10 ^ k in
    let r = m % 10 ^ k in
    if ltb (10 ^ k) (2 * r) || (2 * r == 10 ^ k && q % 2 == 1) then q + 1 else q

abbrev pub precision : ℕ
precision = 28

-- ± m * 10 ^ (down - up).
unfoldable pub scaled : Bool → ℕ → ℕ → ℕ → Decimal
scaled neg m up down =
    if leb down up
    then record { coeff = signed neg m; scale = up - down }
    else record { coeff = signed neg (m * 10 ^ (down - up)); scale = 0 }

-- ± m * 10 ^ (down - up), rounded to the context's precision.
unfoldable pub fix : Bool → ℕ → ℕ → ℕ → Decimal
unfolding digits half_even scaled
fix neg m up down = let k = digits m - precision in scaled neg (half_even m k) up (down + k)

-- a / 10 ^ scale b, over a common denominator with b: the two sides that a comparison compares.
abbrev pub cross : Decimal → Decimal → ℕ
cross a b = pos_part a.coeff * 10 ^ b.scale + neg_part b.coeff * 10 ^ a.scale

unfoldable pub lt : Decimal → Decimal → Bool
lt a b = ltb (cross a b) (cross b a)

unfoldable pub le : Decimal → Decimal → Bool
le a b = leb (cross a b) (cross b a)

unfoldable pub eq : Decimal → Decimal → Bool
unfolding le
eq a b = le a b && le b a

abbrev pub of_ℕ : ℕ → Decimal
of_ℕ n = record { coeff = pos n; scale = 0 }

-- Decimal literals: `dec n k` is n / 10 ^ k.
abbrev pub dec : ℕ → ℕ → Decimal
dec n k = record { coeff = pos n; scale = k }

abbrev pub zero_dec : Decimal
zero_dec = of_ℕ 0

-- `value <= 0`
unfoldable pub nonpos : Decimal → Bool
unfolding le
nonpos a = le a zero_dec

-- `value < 0`
unfoldable pub negative : Decimal → Bool
unfolding lt
negative a = lt a zero_dec

-- The builtins keep their first argument unless the other is strictly beyond it.
unfoldable pub max_dec : Decimal → Decimal → Decimal
unfolding lt
max_dec a b = if lt a b then b else a

unfoldable pub min_dec : Decimal → Decimal → Decimal
unfolding lt
min_dec a b = if lt b a then b else a

-- The coefficient of `a` at a scale that is at least its own.
abbrev rescaled : Decimal → ℕ → ℤ
rescaled a s = signed (is_negative a.coeff) (abs a.coeff * 10 ^ (s - a.scale))

unfoldable pub add : Decimal → Decimal → Decimal
add a b =
    let s = max a.scale b.scale in
    let x = rescaled a s in
    let y = rescaled b s in
    let z = sub_ℕ (pos_part x + pos_part y) (neg_part x + neg_part y) in
    fix (is_negative z) (abs z) s 0

unfoldable pub sub : Decimal → Decimal → Decimal
sub a b =
    let s = max a.scale b.scale in
    let x = rescaled a s in
    let y = rescaled b s in
    let z = sub_ℕ (pos_part x + neg_part y) (neg_part x + pos_part y) in
    fix (is_negative z) (abs z) s 0

-- The sign of a product or a quotient.
abbrev pub sign_of : Decimal → Decimal → Bool
sign_of a b = if is_negative a.coeff then not (is_negative b.coeff) else is_negative b.coeff

unfoldable pub mul : Decimal → Decimal → Decimal
mul a b = fix (sign_of a b) (abs a.coeff * abs b.coeff) (a.scale + b.scale) 0

unfoldable pub absolute : Decimal → Decimal
absolute a = fix false (abs a.coeff) a.scale 0

-- The quotient is taken to 29 or 30 digits; a sticky unit keeps an inexact one off a tie.
abbrev pub sticky : ℕ → ℕ → ℕ
sticky q r = if r == 0 then q else if q % 5 == 0 then q + 1 else q

unfoldable pub quotient : Decimal → Decimal → Decimal
quotient a b =
    let m = abs a.coeff in
    let d = abs b.coeff in
    let up = digits d + precision + 1 in
    let down = digits m in
    let num = m * 10 ^ (up - down) in
    let den = d * 10 ^ (down - up) in
    fix (sign_of a b) (sticky (num / den) (num % den)) (a.scale + up) (b.scale + down)

-- `a / b` raises DivisionByZero (InvalidOperation for 0 / 0).
unfoldable pub div : Decimal → Decimal → Exc Decimal
unfolding quotient
div a b = if abs b.coeff == 0 then raised division_by_zero else ok (quotient a b)

-- `to_integral_value(rounding=ROUND_DOWN)`
unfoldable pub truncate : Decimal → Decimal
truncate a = record { coeff = signed (is_negative a.coeff) (abs a.coeff / 10 ^ a.scale); scale = 0 }

-- `to_integral_value()`
unfoldable pub to_integral_value : Decimal → Decimal
unfolding half_even
to_integral_value a = record {
  coeff = signed (is_negative a.coeff) (half_even (abs a.coeff) a.scale);
  scale = 0;
}

-- `sum(values, Decimal("0"))`
unfoldable pub sum_from : Decimal → List Decimal → Decimal
unfolding add
sum_from acc [] = acc
sum_from acc (x ∷ xs) = sum_from (add acc x) xs

-- `math.isfinite(float(value))`: from 2 ^ 1024 - 2 ^ 970 on, the nearest double is infinite.
unfoldable pub is_finite : Decimal → Bool
is_finite a = ltb (abs a.coeff) ((2 ^ 1024 - 2 ^ 970) * 10 ^ a.scale)

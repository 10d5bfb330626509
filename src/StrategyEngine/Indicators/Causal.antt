-- ===== src/StrategyEngine/Indicators/Causal.antt =====
-- The EMA looks at no later close: a longer history keeps the entries of a shorter one.
use save_money_trading_bot.Prelude.{
  ℕ, zero, suc, ◌+◌, ◌≡◌, ◌≤◌, ◌<◌, refl, sym, ap, ◌∙◌, Bool-cases, inl, inr, none, some, List, [],
  ◌∷◌, ◌++◌, length, take, drop, replicate, ltb, arith,
}
use save_money_trading_bot.Decimal.{
  Decimal, ok, div, quotient, add, sub, mul, of_ℕ, sum_from, zero_dec,
}
use save_money_trading_bot.StrategyEngine.Indicators.{Series, ema_from, compute_ema}

pub length-append : {A : Type 0} (xs ys : List A) → length (xs ++ ys) ≡ length xs + length ys
length-append [] ys = omega arith
length-append (x ∷ xs) ys = let h = length-append xs ys in omega arith

take-append : {A : Type 0} (n : ℕ) (xs ys : List A) → n ≤ length xs → take n (xs ++ ys) ≡ take n xs
take-append zero xs ys h = refl
take-append (suc n) [] ys h = ground arith
take-append (suc n) (x ∷ xs) ys h = ap (λ zs. x ∷ zs) (take-append n xs ys (omega arith))

drop-append :
    {A : Type 0} (n : ℕ) (xs ys : List A) → n ≤ length xs → drop n (xs ++ ys) ≡ drop n xs ++ ys
drop-append zero xs ys h = refl
drop-append (suc n) [] ys h = ground arith
drop-append (suc n) (x ∷ xs) ys h = drop-append n xs ys (omega arith)

append_assoc : {A : Type 0} (xs ys zs : List A) → (xs ++ ys) ++ zs ≡ xs ++ (ys ++ zs)
append_assoc [] ys zs = refl
append_assoc (x ∷ xs) ys zs = ap (λ t. x ∷ t) (append_assoc xs ys zs)

-- A longer run of one value begins with a shorter one.
replicate_longer :
    {A : Type 0} (n m : ℕ) (a : A)
    → n ≤ m
    → (rest : List A) × (replicate m a ≡ replicate n a ++ rest)
replicate_longer zero m a h = (replicate m a, refl)
replicate_longer (suc n) zero a h = ground arith
replicate_longer (suc n) (suc m) a h =
    let (rest, e) = replicate_longer n m a (omega arith) in (rest, ap (λ t. a ∷ t) e)

ema_from-append :
    (alpha prev : Decimal) (xs ys : List Decimal)
    → (rest : Series) × (ema_from alpha prev (xs ++ ys) ≡ ema_from alpha prev xs ++ rest)
unfolding ema_from
ema_from-append alpha prev [] ys = (ema_from alpha prev ys, refl)
ema_from-append alpha prev (x ∷ xs) ys =
    let next = add (mul alpha x) (mul (sub (of_ℕ 1) alpha) prev) in
    let (rest, e) = ema_from-append alpha next xs ys in (rest, ap (λ t. some next ∷ t) e)

-- The series where the seed is defined.
pub ema_long :
    (closes : List Decimal) (p : ℕ) (alpha seed : Decimal)
    → suc p ≤ length closes
    → div (of_ℕ 2) (of_ℕ (suc p + 1)) ≡ ok alpha
    → div (sum_from zero_dec (take (suc p) closes)) (of_ℕ (suc p)) ≡ ok seed
    → compute_ema closes (suc p)
      ≡ ok (replicate p none ++ some seed ∷ ema_from alpha seed (drop (suc p) closes))
unfolding compute_ema
ema_long closes p alpha seed h a s = ground arith

pub ema_short :
    (closes : List Decimal) (p : ℕ)
    → length closes < suc p
    → compute_ema closes (suc p) ≡ ok (replicate (length closes) none)
unfolding compute_ema
ema_short closes p h = ground arith

pub div_by_ℕ : (a : Decimal) (n : ℕ) → (q : Decimal) × (div a (of_ℕ (suc n)) ≡ ok q)
unfolding div
div_by_ℕ a n = (quotient a (of_ℕ (suc n)), ground arith)

pub div_by_next : (a : Decimal) (n : ℕ) → (q : Decimal) × (div a (of_ℕ (n + 1)) ≡ ok q)
div_by_next a n = let same : n + 1 ≡ suc n = omega arith in rw same (div_by_ℕ a n)

ok-injective : {A : Type 0} {a b : A} → ok a ≡ ok b → a ≡ b
ok-injective h = cc

-- A history that is too short for a seed.
short_history :
    (closes later : List Decimal) (p : ℕ)
    → length closes < suc p
    → (rest : Series) × (compute_ema (closes ++ later) (suc p)
        ≡ ok (replicate (length closes) none ++ rest))
short_history closes later p h = elim (Bool-cases (ltb (length (closes ++ later)) (suc p))) [
  | inl still ↦
      let longer = length-append closes later in
      let (rest, e) =
        replicate_longer (length closes) (length (closes ++ later)) none (omega arith) in
      (rest, ema_short (closes ++ later) p (ground arith) ∙ ap ok e)
  | inr enough ↦
      let (alpha, a) = div_by_next (of_ℕ 2) (suc p) in
      let (seed, s) = div_by_ℕ (sum_from zero_dec (take (suc p) (closes ++ later))) p in
      let tail = some seed ∷ ema_from alpha seed (drop (suc p) (closes ++ later)) in
      let (rest, e) = replicate_longer (length closes) p none (omega arith) in
      (
        rest ++ tail,
        ema_long (closes ++ later) p alpha seed (ground arith) a s
            ∙ ap (λ t. ok (t ++ tail)) e
            ∙ ap ok (append_assoc (replicate (length closes) none) rest tail),
      )
]

long_history :
    (closes later : List Decimal) (p : ℕ) (s : Series)
    → suc p ≤ length closes
    → compute_ema closes (suc p) ≡ ok s
    → (rest : Series) × (compute_ema (closes ++ later) (suc p) ≡ ok (s ++ rest))
long_history closes later p s h e =
    let (alpha, a) = div_by_next (of_ℕ 2) (suc p) in
    let (seed, d) = div_by_ℕ (sum_from zero_dec (take (suc p) closes)) p in
    let longer = length-append closes later in
    let here = ema_long closes p alpha seed h a d in
    let there =
      ema_long (closes ++ later) p alpha seed (omega arith) a
        (rw (take-append (suc p) closes later h) d) in
    let (rest, grows) = ema_from-append alpha seed (drop (suc p) closes) later in
    let s_lem = ok-injective (sym e ∙ here) in
    let known = some seed ∷ ema_from alpha seed (drop (suc p) closes) in
    let grown = ap (ema_from alpha seed) (drop-append (suc p) closes later h) ∙ grows in
    (
      rest,
      there
          ∙ ap (λ t. ok (replicate p none ++ some seed ∷ t)) grown
          ∙ ap ok (sym (append_assoc (replicate p none) known rest))
          ∙ ap (λ t. ok (t ++ rest)) (sym s_lem),
    )

-- The EMA of a longer history begins with the EMA of the shorter one, entry by entry: later closes change
-- no entry.
pub compute_ema-append :
    (closes later : List Decimal) (period : ℕ) (s : Series)
    → compute_ema closes period ≡ ok s
    → (rest : Series) × (compute_ema (closes ++ later) period ≡ ok (s ++ rest))
unfolding compute_ema
compute_ema-append closes later zero s h = ground arith
compute_ema-append closes later (suc p) s h = elim (Bool-cases (ltb (length closes) (suc p))) [
  | inl short ↦
      let (rest, e) = short_history closes later p (ground arith) in
      let s_lem : s ≡ replicate (length closes) none =
        ok-injective (sym h ∙ ema_short closes p (ground arith)) in
      (rest, e ∙ ap (λ t. ok (t ++ rest)) (sym s_lem))
  | inr long ↦ long_history closes later p s (ground arith) h
]

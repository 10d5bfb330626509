-- ===== src/StrategyEngine/Indicators/Lengths.antt =====
-- Each indicator returns, with an entry for each of its inputs.
use save_money_trading_bot.Prelude.{
  ℕ, zero, suc, ◌-◌, ◌≡◌, refl, ap, Bool-cases, inl, inr, Option, none, some, List, [], ◌∷◌, ◌++◌,
  map, length, take, drop, replicate, ltb, leb, arith,
}
use save_money_trading_bot.Decimal.{
  Decimal, Exc, ok, div, quotient, add, sub, mul, eq, of_ℕ, sum_from, zero_dec,
}
use save_money_trading_bot.StrategyEngine.Models.{Candle}
use save_money_trading_bot.StrategyEngine.Indicators.{
  Series, ema_from, compute_ema, true_ranges, wilder_from, compute_wilder_atr, windows, means,
  compute_volume_sma, ratio_entry, ratios, compute_volume_ratio, max_of, all_but_last,
  compute_high20,
}
use save_money_trading_bot.StrategyEngine.Indicators.Causal.{
  length-append, div_by_ℕ, div_by_next, ema_long, ema_short,
}

length-replicate : {A : Type 0} (n : ℕ) (a : A) → length (replicate n a) ≡ n
length-replicate zero a = refl
length-replicate (suc n) a = ap suc (length-replicate n a)

length-drop : {A : Type 0} (n : ℕ) (xs : List A) → length (drop n xs) ≡ length xs - n
length-drop zero xs = omega arith
length-drop (suc n) [] = omega arith
length-drop (suc n) (x ∷ xs) = let h = length-drop n xs in omega arith

pub length-map : {A B : Type 0} (f : A → B) (xs : List A) → length (map f xs) ≡ length xs
length-map f [] = refl
length-map f (x ∷ xs) = ap suc (length-map f xs)

-- A computation that returns a series of a given length.
abbrev pub Yields : Exc Series → ℕ → Type 0
Yields m n = (s : Series) × (m ≡ ok s) × (length s ≡ n)

length-ema_from :
    (alpha prev : Decimal) (xs : List Decimal) → length (ema_from alpha prev xs) ≡ length xs
unfolding ema_from
length-ema_from alpha prev [] = refl
length-ema_from alpha prev (x ∷ xs) =
    ap suc (length-ema_from alpha (add (mul alpha x) (mul (sub (of_ℕ 1) alpha) prev)) xs)

pub compute_ema-Yields :
    (closes : List Decimal) (p : ℕ) → Yields (compute_ema closes (suc p)) (length closes)
compute_ema-Yields closes p = elim (Bool-cases (ltb (length closes) (suc p))) [
  | inl short ↦ (_, ema_short closes p (ground arith), length-replicate (length closes) none)
  | inr long ↦
      let (alpha, a) = div_by_next (of_ℕ 2) (suc p) in
      let (seed, d) = div_by_ℕ (sum_from zero_dec (take (suc p) closes)) p in
      let total =
        length-append (replicate p none) (some seed ∷ ema_from alpha seed (drop (suc p) closes)) in
      let front : length (replicate {A = Option Decimal} p none) ≡ p = length-replicate p none in
      let back = length-ema_from alpha seed (drop (suc p) closes) in
      let dropped = length-drop (suc p) closes in
      (
        _,
        ema_long closes p alpha seed (ground arith) a d,
        ground (arith, total, front, back, dropped),
      )
]

length-true_ranges : (c : Candle) (cs : List Candle) → length (true_ranges c cs) ≡ length cs
unfolding true_ranges
length-true_ranges c [] = refl
length-true_ranges c (d ∷ ds) = ap suc (length-true_ranges d ds)

wilder_from-Yields :
    (p_minus_1 atr : Decimal) (p : ℕ) (trs : List Decimal)
    → Yields (wilder_from p_minus_1 (of_ℕ (suc p)) atr trs) (length trs)
unfolding wilder_from
wilder_from-Yields p_minus_1 atr p [] = ([], refl, refl)
wilder_from-Yields p_minus_1 atr p (tr ∷ trs) =
    let (next, d) = div_by_ℕ (add (mul atr p_minus_1) tr) p in
    let (rest, e, n) = wilder_from-Yields p_minus_1 next p trs in
    (some next ∷ rest, rw (d, e) refl, ap suc n)

pub compute_wilder_atr-Yields :
    (candles : List Candle) (p : ℕ) → Yields (compute_wilder_atr candles (suc p)) (length candles)
unfolding compute_wilder_atr
compute_wilder_atr-Yields [] p = ([], refl, refl)
compute_wilder_atr-Yields (c ∷ cs) p = elim (Bool-cases (leb (suc (length cs)) (suc p))) [
  | inl short ↦
      let n : ℕ = suc (length cs) in
      let front : length (replicate {A = Option Decimal} n none) ≡ n = length-replicate n none in
      (replicate n none, ground arith, front)
  | inr long ↦
      let trs = true_ranges c cs in
      let (atr, d) = div_by_ℕ (sum_from zero_dec (take (suc p) trs)) p in
      let (rest, e, n) = wilder_from-Yields (of_ℕ (suc p - 1)) atr p (drop (suc p) trs) in
      let total = length-append (replicate (suc p) none) (some atr ∷ rest) in
      let front : length (replicate {A = Option Decimal} (suc p) none) ≡ suc p =
        length-replicate (suc p) none in
      let dropped = length-drop (suc p) trs in
      let ranges = length-true_ranges c cs in
      (
        replicate (suc p) none ++ some atr ∷ rest,
        ground (arith, d, e),
        ground (arith, total, front, n, dropped, ranges),
      )
]

length-windows : {A : Type 0} (q : ℕ) (xs : List A) → length (windows (suc q) xs) ≡ length xs - q
unfolding windows
length-windows q [] = omega arith
length-windows q (x ∷ xs) =
    let rest = length-windows q xs in
    elim (Bool-cases (leb (suc q) (suc (length xs)))) [
      | inl full ↦ ground (arith, rest)
      | inr short ↦ ground arith
    ]

means-Yields : (p : ℕ) (ws : List (List Decimal)) → Yields (means (of_ℕ (suc p)) ws) (length ws)
unfolding means
means-Yields p [] = ([], refl, refl)
means-Yields p (w ∷ ws) =
    let (mean, d) = div_by_ℕ (sum_from zero_dec w) p in
    let (rest, e, n) = means-Yields p ws in (some mean ∷ rest, rw (d, e) refl, ap suc n)

compute_volume_sma-Yields :
    (volumes : List Decimal) (p : ℕ) → Yields (compute_volume_sma volumes (suc p)) (length volumes)
unfolding compute_volume_sma
compute_volume_sma-Yields volumes p = elim (Bool-cases (ltb (length volumes) (suc p))) [
  | inl short ↦
      let n : ℕ = length volumes in
      let front : length (replicate {A = Option Decimal} n none) ≡ n = length-replicate n none in
      (replicate n none, ground arith, front)
  | inr long ↦
      let (rest, e, n) = means-Yields p (windows (suc p) volumes) in
      let total = length-append (replicate p none) rest in
      let front : length (replicate {A = Option Decimal} p none) ≡ p = length-replicate p none in
      let many = length-windows p volumes in
      (replicate p none ++ rest, ground (arith, e), ground (arith, total, front, n, many))
]

ratio_entry_returns :
    (volume : Decimal) (denom : Option Decimal)
    → (q : Option Decimal) × (ratio_entry volume denom ≡ ok q)
unfolding ratio_entry div eq
ratio_entry_returns volume none = (none, refl)
ratio_entry_returns volume (some denom) = elim (Bool-cases (eq denom zero_dec)) [
  | inl zero_mean ↦ (none, ground arith)
  | inr other ↦ (some (quotient volume denom), ground arith)
]

ratios-Yields :
    (volumes : List Decimal) (sma : Series)
    → length sma ≡ length volumes
    → Yields (ratios volumes sma) (length volumes)
unfolding ratios
ratios-Yields [] [] h = ([], refl, refl)
ratios-Yields [] (d ∷ ds) h = ground arith
ratios-Yields (v ∷ vs) [] h = ground arith
ratios-Yields (v ∷ vs) (d ∷ ds) h =
    let (entry, e) = ratio_entry_returns v d in
    let (rest, r, n) = ratios-Yields vs ds (omega arith) in (entry ∷ rest, rw (e, r) refl, ap suc n)

pub compute_volume_ratio-Yields :
    (volumes : List Decimal) (p : ℕ)
    → Yields (compute_volume_ratio volumes (suc p)) (length volumes)
unfolding compute_volume_ratio
compute_volume_ratio-Yields volumes p =
    let (sma, e, n) = compute_volume_sma-Yields volumes p in
    let (s, r, k) = ratios-Yields volumes sma n in (s, rw e r, k)

length-all_but_last : {A : Type 0} (xs : List A) → length (all_but_last xs) ≡ length xs - 1
length-all_but_last [] = omega arith
length-all_but_last (x ∷ []) = omega arith
length-all_but_last (x ∷ y ∷ ys) = let h = length-all_but_last (y ∷ ys) in omega arith

pub compute_high20-Yields :
    (highs : List Decimal) (p : ℕ) → Yields (compute_high20 highs (suc p)) (length highs)
unfolding compute_high20
compute_high20-Yields highs p = elim (Bool-cases (ltb (length highs) (suc p))) [
  | inl short ↦
      let n : ℕ = length highs in
      let front : length (replicate {A = Option Decimal} n none) ≡ n = length-replicate n none in
      (replicate n none, ground arith, front)
  | inr long ↦
      let back = map max_of (windows (suc p) (all_but_last highs)) in
      let total = length-append (replicate (suc p) none) back in
      let front : length (replicate {A = Option Decimal} (suc p) none) ≡ suc p =
        length-replicate (suc p) none in
      let mapped = length-map max_of (windows (suc p) (all_but_last highs)) in
      let many = length-windows p (all_but_last highs) in
      let fewer = length-all_but_last highs in
      (
        replicate (suc p) none ++ back,
        ground arith,
        ground (arith, total, front, mapped, many, fewer),
      )
]

-- ===== src/PaperTrading/Fairness/Rotation.antt =====
-- The retries come back within bounds, and the rotation serves every group.
use native.Mathlib.Nat.{mod-lt, mod-eq_of_lt, mod_self, zero-lt-suc}
use save_money_trading_bot.Prelude.{
  ◌≡◌, ◌∙◌, any, str_eq, eq_iff, ◌&&◌, ◌≤◌, ◌<◌, ◌+◌, ◌-◌, ℕ, zero, suc, refl, Bool, true, arith,
  ltb, Bool-cases, ◌⊎◌, inl, inr, List, [], ◌∷◌, String, Option,
}
use save_money_trading_bot.PaperTrading.Fairness.{
  compute_retry_backoff_seconds, advance_group_rotation_cursor, eligible_group_keys, is_due,
  MarketEventGroupState,
}

-- The backoff by the number of deferrals.
backoff_table :
    (n : ℕ)
    → ((n ≤ 1) × (compute_retry_backoff_seconds n ≡ 1))
      ⊎ (((n ≡ 2) × (compute_retry_backoff_seconds n ≡ 2))
          ⊎ (((n ≡ 3) × (compute_retry_backoff_seconds n ≡ 4))
              ⊎ (((n ≡ 4) × (compute_retry_backoff_seconds n ≡ 8))
                  ⊎ ((5 ≤ n) × (compute_retry_backoff_seconds n ≡ 16)))))
unfolding compute_retry_backoff_seconds
backoff_table zero = inl (omega arith, refl)
backoff_table (suc zero) = inl (omega arith, refl)
backoff_table (suc (suc zero)) = inr (inl (refl, refl))
backoff_table (suc (suc (suc zero))) = inr (inr (inl (refl, refl)))
backoff_table (suc (suc (suc (suc zero)))) = inr (inr (inr (inl (refl, refl))))
backoff_table (suc (suc (suc (suc (suc zero))))) = inr (inr (inr (inr (omega arith, refl))))
backoff_table (suc (suc (suc (suc (suc (suc n)))))) =
    inr (inr (inr (inr (omega arith, ground arith))))

-- A retry waits for at least one second and at most 16, and no shorter after more deferrals.
retry_backoff_bounds :
    (a b : ℕ)
    → a ≤ b
    → (1 ≤ compute_retry_backoff_seconds a)
      × (compute_retry_backoff_seconds a ≤ compute_retry_backoff_seconds b)
      × (compute_retry_backoff_seconds b ≤ 16)
retry_backoff_bounds a b h =
    let of_a = backoff_table a in let of_b = backoff_table b in ground (arith, of_a, of_b)

-- An advance of a cursor that lies within the groups, whatever it rotates by, stays within them.
advance-below :
    (cursor count rotated : ℕ) (deferred : Bool)
    → cursor < count
    → advance_group_rotation_cursor cursor count rotated deferred < count
unfolding advance_group_rotation_cursor
advance-below cursor zero rotated deferred h = ground arith
advance-below cursor (suc n) rotated deferred h =
    let one = mod-lt (cursor + 1) (zero-lt-suc n) in
    let more = mod-lt (cursor + rotated) (zero-lt-suc n) in ground (arith, one, more)

-- The cursor after `k` passes that deferred a group.
pub passes : ℕ → ℕ → ℕ → ℕ
passes zero count cursor = cursor
passes (suc k) count cursor = advance_group_rotation_cursor (passes k count cursor) count 0 true

advance-suc :
    (cursor count : ℕ)
    → cursor + 1 < count
    → advance_group_rotation_cursor cursor count 0 true ≡ cursor + 1
unfolding advance_group_rotation_cursor
advance-suc cursor zero h = ground arith
advance-suc cursor (suc n) h = mod-eq_of_lt h

advance-wrap : (n : ℕ) → advance_group_rotation_cursor n (suc n) 0 true ≡ 0
unfolding advance_group_rotation_cursor
advance-wrap n = let same : n + 1 ≡ suc n = omega arith in rw same (mod_self (suc n))

climb : (k count cursor : ℕ) → cursor + k < count → passes k count cursor ≡ cursor + k
unfolding passes
climb zero count cursor h = omega arith
climb (suc k) count cursor h =
    let below = climb k count cursor (omega arith) in
    let up = advance-suc (cursor + k) count (omega arith) in rw (below, up) (omega arith)

-- Once the cursor is at zero, it climbs to every place.
climb_again :
    (count cursor m place : ℕ)
    → passes m count cursor ≡ 0
    → place < count
    → (k : ℕ) × (k ≤ m + place) × (passes k count cursor ≡ place)
unfolding passes
climb_again count cursor m zero at_zero h = (m, omega arith, at_zero)
climb_again count cursor m (suc place) at_zero h =
    let (k, within, reached) = climb_again count cursor m place at_zero (omega arith) in
    let up = advance-suc place count (omega arith) in
    (suc k, omega arith, rw reached (up ∙ omega arith))

at_zero : (n cursor : ℕ) → cursor < suc n → passes (suc (n - cursor)) (suc n) cursor ≡ 0
unfolding passes
at_zero n cursor h =
    let top = climb (n - cursor) (suc n) cursor (omega arith) in
    let full : cursor + (n - cursor) ≡ n = omega arith in rw (top, full) (advance-wrap n)

-- While every pass defers a group, the rotation serves every group: from a cursor within the groups,
-- each place within them is reached after fewer passes than there are groups.
pub rotation_reaches :
    (count cursor place : ℕ)
    → cursor < count
    → place < count
    → (k : ℕ) × (k < count) × (passes k count cursor ≡ place)
rotation_reaches zero cursor place h g = ground arith
rotation_reaches (suc n) cursor place h g = elim (Bool-cases (ltb place cursor)) [
  | inr after ↦
      let k : ℕ = place - cursor in
      let up = climb k (suc n) cursor (ground arith) in (k, ground arith, up ∙ ground arith)
  | inl before ↦
      let (k, within, reached) =
        climb_again (suc n) cursor (suc (n - cursor)) place (at_zero n cursor h) g in
      (k, ground (arith, within), reached)
]

-- A key is among the eligible keys exactly where it is among the given keys and its group is due.
eligible_group_keys-any :
    (key : String) (keys : List String) (now : ℕ) (states : String → Option MarketEventGroupState)
    → any (str_eq key) (eligible_group_keys keys now states)
      ≡ any (str_eq key) keys && is_due now (states key)
unfolding eligible_group_keys
eligible_group_keys-any key [] now states = refl
eligible_group_keys-any key (k ∷ keys) now states =
    let rest = eligible_group_keys-any key keys now states in
    elim (Bool-cases (str_eq key k)) [
      | inl same ↦ let e = (eq_iff key k).0 same in ground (arith, rest, same, e)
      | inr other ↦ ground (arith, rest, other)
    ]

-- ===== src/PaperTrading/Fairness.antt =====
-- services/paper_trading/event_fairness.py: the retry backoff, the groups that are due and the rotation
-- cursor. Times are microseconds; counts and the cursor are natural numbers.
pub mod Rotation
use save_money_trading_bot.Prelude.{
  ℕ, zero, suc, ◌+◌, ◌-◌, ◌*◌, ◌^◌, ◌%◌, max, String, Bool, true, Option, none, some, List, [], ◌∷◌,
  leb, ltb, if◌then◌else◌,
}

abbrev pub default_min_retry_interval_seconds : ℕ
default_min_retry_interval_seconds = 1

abbrev pub max_retry_interval_seconds : ℕ
max_retry_interval_seconds = 30

-- The smaller of two numbers, as the builtin `min` takes it.
abbrev pub smaller : ℕ → ℕ → ℕ
smaller a b = if ltb b a then b else a

unfoldable pub compute_retry_backoff_seconds : (defer_count : ℕ) → ℕ
compute_retry_backoff_seconds defer_count =
    let bounded = smaller (max defer_count 1) 5 in
    let multiplier = default_min_retry_interval_seconds * 2 ^ (bounded - 1) in
    smaller max_retry_interval_seconds multiplier

unfoldable pub next_retry_at : (evaluation_time defer_count : ℕ) → ℕ
unfolding compute_retry_backoff_seconds
next_retry_at evaluation_time defer_count =
    evaluation_time + compute_retry_backoff_seconds defer_count * 1000000

-- `class MarketEventGroupState`, with the fields that the schedule reads.
pub record MarketEventGroupState : Type 0 where
  pub group_key : String
  pub event_type : String
  pub group_time : ℕ
  pub next_attempt_at : ℕ
  pub defer_count : ℕ

-- A group without a state is due.
abbrev pub is_due : ℕ → Option MarketEventGroupState → Bool
is_due evaluation_time none = true
is_due evaluation_time (some state) = leb state.next_attempt_at evaluation_time

unfoldable pub eligible_group_keys :
    (group_keys : List String) (evaluation_time : ℕ)
    (group_states : String → Option MarketEventGroupState)
    → List String
eligible_group_keys [] evaluation_time group_states = []
eligible_group_keys (key ∷ keys) evaluation_time group_states =
    let rest = eligible_group_keys keys evaluation_time group_states in
    if is_due evaluation_time (group_states key) then key ∷ rest else rest

unfoldable pub advance_group_rotation_cursor :
    (cursor eligible_group_count groups_rotated : ℕ) (had_deferred : Bool) → ℕ
advance_group_rotation_cursor cursor zero groups_rotated had_deferred = cursor
advance_group_rotation_cursor cursor (suc n) groups_rotated had_deferred =
    if had_deferred
    then (cursor + 1) % suc n
    else if leb groups_rotated 0
    then cursor
    else (cursor + groups_rotated) % suc n

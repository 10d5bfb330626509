-- ===== src/PaperTrading/Transitions/Runtime.antt =====
-- The runtime's statuses: what leads back to trading after the kill switch, and out of a failure.
use save_money_trading_bot.Prelude.{
  ◌≡◌, refl, Bool, true, false, List, [], ◌∷◌, any, arith, ◌⊎◌, inl, inr,
}
use save_money_trading_bot.PaperTrading.Enums.{
  RuntimeStatus, stopped, starting, killed, shutting_down, runtime_failed, same_runtime,
}
use save_money_trading_bot.PaperTrading.Transitions.{permitted, validate_runtime_transition}

-- The statuses that the runtime takes in order, each by a change that the check permits.
pub data RuntimeRun : RuntimeStatus → List RuntimeStatus → RuntimeStatus → Type 0 where
  done : {s : RuntimeStatus} → RuntimeRun s [] s
  change :
      {s t u : RuntimeStatus} {ts : List RuntimeStatus}
      → validate_runtime_transition s t ≡ permitted
      → RuntimeRun t ts u
      → RuntimeRun s (t ∷ ts) u

-- Down after a kill: the kill, the shutdown, the stop, and a failure of the shutdown.
abbrev is_down : RuntimeStatus → Bool
is_down killed = true
is_down shutting_down = true
is_down stopped = true
is_down runtime_failed = true
is_down _ = false

down_step :
    (s t : RuntimeStatus)
    → is_down s ≡ true
    → validate_runtime_transition s t ≡ permitted
    → (is_down t ≡ true) ⊎ (t ≡ starting)
unfolding validate_runtime_transition
down_step s starting down h = inr refl
down_step s t down h = ground arith

down_run :
    {s u : RuntimeStatus} {ts : List RuntimeStatus}
    → is_down s ≡ true
    → RuntimeRun s ts u
    → (is_down u ≡ true) ⊎ (any (same_runtime starting) ts ≡ true)
down_run down done = inl down
down_run down (change {s = s} {t = t} ok_step rest) = elim (down_step s t down ok_step) [
  | inr e ↦ inr (ground arith)
  | inl still ↦ elim (down_run still rest) [ inl a ↦ inl a | inr b ↦ inr (ground arith) ]
]

-- From the killed status, the runtime is ready, degraded, paused, recovering or syncing again only after
-- a start: a run that ends in a status other than killed, shutting down, stopped or failed passes
-- through starting.
pub killed_restarts :
    {u : RuntimeStatus} {ts : List RuntimeStatus}
    → RuntimeRun killed ts u
    → (any (same_runtime u) (killed ∷ shutting_down ∷ stopped ∷ runtime_failed ∷ []) ≡ true)
      ⊎ (any (same_runtime starting) ts ≡ true)
killed_restarts {u} run = elim (down_run refl run) [ inl a ↦ inl (ground arith) | inr b ↦ inr b ]

-- A run of permitted changes from the failed status ends in the failed status.
failed_stays :
    {s u : RuntimeStatus} {ts : List RuntimeStatus}
    → same_runtime s runtime_failed ≡ true
    → RuntimeRun s ts u
    → same_runtime u runtime_failed ≡ true
unfolding validate_runtime_transition
failed_stays failed done = failed
failed_stays failed (change {t = t} ok_step rest) = failed_stays {s = t} (ground arith) rest

-- ===== src/Backtester/Slicing/Chronological.antt =====
-- Candles without a warning.
use save_money_trading_bot.Prelude.{
  ◌≤◌, ◌<◌, ◌≡◌, ◌↔◌, refl, true, false, Option, none, some, List, [], ◌∷◌, ◌++◌, map, All, any,
  ◌==◌, arith,
}
use save_money_trading_bot.StrategyEngine.Models.{Time, Candle}
use save_money_trading_bot.Backtester.Slicing.{
  DataWarning, is_unsorted, candle_warnings, validate_from, validate_chronological,
}
use save_money_trading_bot.Backtester.Slicing.Timeline.{Ascending, All-below}

-- Closed candles whose open times rise strictly, from a time on.
abbrev RisesFrom : Option Time → List Candle → Type 0
RisesFrom prev [] = Unit
RisesFrom prev (c ∷ cs) =
    (is_unsorted prev c.open_time ≡ false) × (c.is_closed ≡ true) × RisesFrom (some c.open_time) cs

-- No time that was seen is after the last.
abbrev SeenUpTo : Option Time → List Time → Type 0
SeenUpTo none seen = seen ≡ []
SeenUpTo (some p) seen = All (λ t. t ≤ p) seen

fresh :
    (prev : Option Time) (seen : List Time) (t : Time)
    → SeenUpTo prev seen
    → is_unsorted prev t ≡ false
    → any (λ s. s == t) seen ≡ false
fresh none seen t u h = rw u refl
fresh (some p) [] t u h = refl
fresh (some p) (s ∷ seen) t u h = ground (arith, u.0, h, fresh (some p) seen t u.1 h)

SeenUpTo-next :
    (prev : Option Time) (seen : List Time) (t : Time)
    → SeenUpTo prev seen
    → is_unsorted prev t ≡ false
    → SeenUpTo (some t) (t ∷ seen)
SeenUpTo-next prev seen t u h = (omega arith, go prev seen u h)
  where
    go :
        (prev : Option Time) (seen : List Time)
        → SeenUpTo prev seen
        → is_unsorted prev t ≡ false
        → All (λ s. s ≤ t) seen
    go none [] u h = tt
    go none (s ∷ seen) u h = ground (arith, u)
    go (some p) [] u h = tt
    go (some p) (s ∷ seen) u h = (ground (arith, u.0, h), go (some p) seen u.1 h)

candle_warnings-none :
    (seen : List Time) (prev : Option Time) (c : Candle) (rest : List DataWarning)
    → SeenUpTo prev seen
    → (candle_warnings seen prev c ++ rest ≡ [])
      ↔ ((is_unsorted prev c.open_time ≡ false) × (c.is_closed ≡ true) × (rest ≡ []))
unfolding candle_warnings
candle_warnings-none seen prev c rest u = (
  λ h. (ground (arith, h), ground (arith, h), ground (arith, h)),
  λ (sorted, closed, silent).
      ground (arith, fresh prev seen c.open_time u sorted, sorted, closed, silent),
)

validate_from-none :
    (seen : List Time) (prev : Option Time) (cs : List Candle)
    → SeenUpTo prev seen
    → (validate_from seen prev cs ≡ []) ↔ RisesFrom prev cs
unfolding validate_from
validate_from-none seen prev [] u = (λ h. tt, λ r. refl)
validate_from-none seen prev (c ∷ cs) u =
    let (to, from) =
      candle_warnings-none seen prev c (validate_from (c.open_time ∷ seen) (some c.open_time) cs)
        u in
    (
      (λ h.
          let (sorted, closed, silent) = to h in
          let rest =
            validate_from-none (c.open_time ∷ seen) (some c.open_time) cs
              (SeenUpTo-next prev seen c.open_time u sorted) in
          (sorted, closed, rest.0 silent)),
      (λ (sorted, closed, rises).
          let rest =
            validate_from-none (c.open_time ∷ seen) (some c.open_time) cs
              (SeenUpTo-next prev seen c.open_time u sorted) in
          from (sorted, closed, rest.1 rises)),
    )

-- Closed candles in the strict order of their open times.
abbrev pub IsChronological : List Candle → Type 0
IsChronological cs =
    Ascending (map (λ (c : Candle). c.open_time) cs) × All (λ (c : Candle). c.is_closed ≡ true) cs

rises_above :
    (p : Time) (cs : List Candle)
    → RisesFrom (some p) cs
    → All (λ t. p < t) (map (λ (c : Candle). c.open_time) cs)
rises_above p [] r = tt
rises_above p (c ∷ cs) r =
    let p_c : p < c.open_time = ground (arith, r.0) in
    (
      p_c,
      All-below p c.open_time (map (λ (d : Candle). d.open_time) cs) p_c
          (rises_above c.open_time cs r.2),
    )

rises-IsChronological :
    (prev : Option Time) (cs : List Candle) → RisesFrom prev cs → IsChronological cs
rises-IsChronological prev [] r = (tt, tt)
rises-IsChronological prev (c ∷ cs) (sorted, closed, rises) =
    let (ascending, all_closed) = rises-IsChronological (some c.open_time) cs rises in
    ((rises_above c.open_time cs rises, ascending), (closed, all_closed))

chronological-Rises :
    (prev : Option Time) (cs : List Candle)
    → All (λ t. is_unsorted prev t ≡ false) (map (λ (c : Candle). c.open_time) cs)
    → IsChronological cs
    → RisesFrom prev cs
chronological-Rises prev [] b h = tt
chronological-Rises prev (c ∷ cs) b h = (
  b.0,
  (h.1).0,
  chronological-Rises (some c.open_time) cs
      (later_sorted c.open_time (map (λ (d : Candle). d.open_time) cs) (h.0).0) ((h.0).1, (h.1).1),
)
  where
    later_sorted :
        (p : Time) (ts : List Time)
        → All (λ t. p < t) ts
        → All (λ t. is_unsorted (some p) t ≡ false) ts
    later_sorted p [] k = tt
    later_sorted p (t ∷ ts) k = (ground (arith, k.0), later_sorted p ts k.1)

-- The check gives no warning exactly for closed candles in the strict order of their open times.
pub validate_chronological-none :
    (cs : List Candle) → (validate_chronological cs ≡ []) ↔ IsChronological cs
unfolding validate_chronological
validate_chronological-none cs =
    let (to, from) = validate_from-none [] none cs refl in
    (
      (λ h. rises-IsChronological none cs (to h)),
      (λ h.
          from
            (chronological-Rises none cs (none_unsorted (map (λ (c : Candle). c.open_time) cs)) h)),
    )
  where
    none_unsorted : (ts : List Time) → All (λ t. is_unsorted none t ≡ false) ts
    none_unsorted [] = tt
    none_unsorted (t ∷ ts) = (refl, none_unsorted ts)

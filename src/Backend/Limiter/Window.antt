-- ===== src/Backend/Limiter/Window.antt =====
-- How many requests the limiter lets through.
use bigfleet_demo.Common.{ℕ, ◌+◌, ◌-◌, ◌*◌, ◌≤◌, ◌≡◌, ◌⊎◌, Bool, true, List, [], ◌∷◌, arith, bit}
use bigfleet_demo.Host.State.{second}
use bigfleet_demo.Backend.Limiter.{RateLimiter, refill, allow}

abbrev pub passed : List Bool → ℕ
passed [] = 0
passed (b ∷ bs) = bit b + passed bs

abbrev pub elapsed : List ℕ → ℕ
elapsed [] = 0
elapsed (gap ∷ gaps) = gap + elapsed gaps

refill_gap :
    (gap : ℕ) (rl : RateLimiter)
    → (refill (rl.last + gap) rl ≤ rl.tokens + gap * rl.per_sec)
      × ((refill (rl.last + gap) rl ≡ rl.max)
          ⊎ (refill (rl.last + gap) rl ≡ rl.tokens + gap * rl.per_sec))
unfolding refill
refill_gap gap rl =
    let e : rl.last + gap - rl.last ≡ gap = omega arith in rw (e, refill) (ground arith)

-- The bucket holds `burst` tokens at most, and its rate stays.
record Bounded (per_sec burst : ℕ) (rl : RateLimiter) : Type 0 where
  at_most : rl.tokens ≤ burst * second
  cap : rl.max ≡ burst * second
  rate : rl.per_sec ≡ per_sec

-- A request that comes long enough after the last one for a token passes, if the bucket holds one.
pub spaced_passes :
    (gap : ℕ) (rl : RateLimiter)
    → second ≤ rl.max
    → second ≤ gap * rl.per_sec
    → (allow (rl.last + gap) rl).0 ≡ true
unfolding allow
spaced_passes gap rl room h = ground (arith, refill_gap gap rl)

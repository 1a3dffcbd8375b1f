-- ===== src/Backend/Limiter.antt =====
-- backend/cmd/demo-backend/main.go: `rateLimiter`, the token bucket of the write endpoints. A token
-- is counted as 1,000,000,000 parts, so that a nanosecond adds `per_sec` parts; the source counts
-- tokens in float64.
pub mod Window
use bigfleet_demo.Common.{
  ℕ, zero, suc, ◌+◌, ◌-◌, ◌*◌, Bool, true, false, List, [], ◌∷◌, ltb, leb, if◌then◌else◌,
}
use bigfleet_demo.Host.State.{second}

pub record RateLimiter : Type 0 where
  pub tokens : ℕ
  pub max : ℕ
  pub per_sec : ℕ
  pub last : ℕ

unfoldable pub new_rate_limiter : ℕ → ℕ → ℕ → RateLimiter
new_rate_limiter per_sec burst now = record {
  tokens = burst * second;
  max = burst * second;
  per_sec = per_sec;
  last = now;
}

unfoldable pub refill : ℕ → RateLimiter → ℕ
refill now rl =
    let tokens = rl.tokens + (now - rl.last) * rl.per_sec in
    if ltb rl.max tokens then rl.max else tokens

-- Whether a request passes, and the limiter after it.
unfoldable pub allow : ℕ → RateLimiter → Bool × RateLimiter
allow now rl =
    let tokens = refill now rl in
    if leb second tokens
    then (true, record rl { tokens = tokens - second; last = now })
    else (false, record rl { tokens = tokens; last = now })

-- The write limiter of a backend: 5 requests a second, 10 at once.
abbrev pub write_limiter : ℕ → RateLimiter
write_limiter now = new_rate_limiter 5 10 now

-- The answers to requests that come one after the other, each given by the time since the last.
unfoldable pub allow_all : List ℕ → RateLimiter → List Bool × RateLimiter
allow_all [] rl = ([], rl)
allow_all (gap ∷ gaps) rl =
    let (ok, rl') = allow (rl.last + gap) rl in
    let (oks, end) = allow_all gaps rl' in (ok ∷ oks, end)

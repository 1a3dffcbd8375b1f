-- ===== src/Backend/Handlers.antt =====
-- backend/cmd/demo-backend/main.go: `resetHandler` and `limited`.
pub mod Rest
use bigfleet_demo.Common.{ℕ, Bool, Option, none, some, List, Text, if◌then◌else◌}
use bigfleet_demo.Backend.Demand.{Demand, seed_busy_fleet}
use bigfleet_demo.Backend.Scenario.{Scenarios, cancel_scenario}
use bigfleet_demo.Backend.Limiter.{RateLimiter, allow}

-- `POST /api/reset`: the scenarios and the demand after it.
unfoldable pub reset_handler : ℕ → List Text → ℕ → ℕ → Scenarios → Demand → Scenarios × Demand
reset_handler budget clusters baseline donor s d =
    (cancel_scenario s, seed_busy_fleet budget clusters baseline donor d)

-- `limited`: the answer of the wrapped handler, or `none` for the status 429, and the limiter.
unfoldable pub limited {ℓ} : {A : Type ℓ} → ℕ → RateLimiter → A → Option A × RateLimiter
limited now rl next = let (ok, rl') = allow now rl in ((if ok then some next else none), rl')

-- ===== src/Host/Begin.antt =====
-- cmd/demohost/main.go: `beginBackend` and `pokeHeartbeat`, by which the host writes the clock of a
-- session's backend.
pub mod Once
use bigfleet_demo.Common.{ℕ, zero, suc, ◌+◌, Bool, true, false, if◌then◌else◌}
use bigfleet_demo.Backend.Clock.{SessionClock, ClockRequest, heartbeats, begins, handle}

-- What becomes of a request: it does not arrive, or it arrives at a time and the response is lost or
-- comes back.
pub data Delivery : Type 0 where
  lost : Delivery
  unanswered : ℕ → Delivery
  answered : ℕ → Delivery

unfoldable pub deliver : (ℕ → ClockRequest) → Delivery → SessionClock → SessionClock
deliver request lost c = c
deliver request (unanswered t) c = handle (request t) c
deliver request (answered t) c = handle (request t) c

abbrev pub is_answered : Delivery → Bool
is_answered lost = false
is_answered (unanswered t) = false
is_answered (answered t) = true

-- The rounds from `attempt` on, `left` of them: whether a response came back, and the clock then.
unfoldable pub begin_from : ℕ → ℕ → (ℕ → Delivery) → SessionClock → Bool × SessionClock
begin_from zero attempt network c = (false, c)
begin_from (suc left) attempt network c =
    let c' = deliver begins (network attempt) c in
    let rest = begin_from left (attempt + 1) network c' in
    if is_answered (network attempt) then (true, c') else rest

unfoldable pub begin_backend : (ℕ → Delivery) → SessionClock → Bool × SessionClock
begin_backend network c = begin_from 3 0 network c

unfoldable pub poke_heartbeat : Delivery → SessionClock → SessionClock
poke_heartbeat d c = deliver heartbeats d c

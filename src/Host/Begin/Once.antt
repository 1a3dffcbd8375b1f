-- ===== src/Host/Begin/Once.antt =====
-- The retries of `beginBackend` against the clock.
use bigfleet_demo.Common.{ℕ, zero, suc, ◌+◌, ◌≡◌, refl, ◌∙◌, Option, none, some, arith}
use bigfleet_demo.Backend.Clock.{SessionClock, begin, handle}
use bigfleet_demo.Host.Begin.{
  Delivery, lost, unanswered, answered, deliver, begin_from, begin_backend,
}

-- When the first request that arrives does, of `left` from `attempt` on.
unfoldable pub first_arrival : ℕ → ℕ → (ℕ → Delivery) → Option ℕ
first_arrival zero attempt network = none
first_arrival (suc left) attempt network = elim (network attempt) [
  | lost ↦ first_arrival left (attempt + 1) network
  | unanswered t ↦ some t
  | answered t ↦ some t
]

abbrev pub begun_at : Option ℕ → SessionClock → SessionClock
begun_at none c = c
begun_at (some t) c = begin t c

begin-begin : (t s : ℕ) (c : SessionClock) → begin s (begin t c) ≡ begin t c
unfolding begin
begin-begin t s c = ground arith

begun_at-begin : (o : Option ℕ) (t : ℕ) (c : SessionClock) → begun_at o (begin t c) ≡ begin t c
begun_at-begin none t c = refl
begun_at-begin (some s) t c = begin-begin t s c

begin_from-begun :
    (left attempt : ℕ) (network : ℕ → Delivery) (c : SessionClock)
    → (begin_from left attempt network c).1 ≡ begun_at (first_arrival left attempt network) c
unfolding begin_from first_arrival deliver handle
begin_from-begun zero attempt network c = refl
begin_from-begun (suc left) attempt network c =
    on (network attempt) refl (λ k. begin_from-begun left (attempt + 1) network k)
  where
    on :
        (d : Delivery)
        → network attempt ≡ d
        → ((k : SessionClock)
            → (begin_from left (attempt + 1) network k).1
              ≡ begun_at (first_arrival left (attempt + 1) network) k)
        → (begin_from (suc left) attempt network c).1
          ≡ begun_at (first_arrival (suc left) attempt network) c
    on lost e rest = rw (e, begin_from, first_arrival) (rest c)
    on (answered t) e rest = rw (e, begin_from, first_arrival) refl
    on (unanswered t) e rest =
        rw (e, begin_from, first_arrival)
          (rest (begin t c) ∙ begun_at-begin (first_arrival left (attempt + 1) network) t c)

-- However the network loses the requests and the responses of a hand-out's three attempts: the clock of the
-- session begins with the first that arrives, later ones change nothing, and if none arrives it
-- stays as it was.
pub begin_backend_once :
    (network : ℕ → Delivery) (c : SessionClock)
    → (begin_backend network c).1 ≡ begun_at (first_arrival 3 0 network) c
unfolding begin_backend
begin_backend_once network c = begin_from-begun 3 0 network c

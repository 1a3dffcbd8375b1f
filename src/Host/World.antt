-- ===== src/Host/World.antt =====
-- cmd/demohost/main.go: the daemon's life as a sequence of critical sections. Handlers, the reaper
-- and the goroutines of the pool interleave only between these, since each holds the host's lock.
pub mod Cases
pub mod Consistent
pub mod Registry
pub mod Reservations
pub mod Budget
pub mod Races
pub mod Moves
pub mod Lifecycle
use bigfleet_demo.Common.{ℕ, zero, suc, ◌+◌, Bool, Option, none, some, List, [], ◌∷◌, Text}
use bigfleet_demo.Host.State.{Config, Session, Host, new_host, remove}
use bigfleet_demo.Host.Identity.{Draw}
use bigfleet_demo.Host.Create.{begin_create, finish_create}
use bigfleet_demo.Host.Pool.{pool_tick, begin_pooled, finish_warm, finish_settle}
use bigfleet_demo.Host.Reaper.{
  Probe, reap_scan, finish_reap, sample_memory, begin_delete, finish_delete,
}

-- One critical section, with what its environment answers: which ports can be bound, the random
-- bytes, the clock, the state of the backends, the outcome of a script, measured memory. Which
-- sessions a late section names is left open, so every order of events is covered.
pub data Event : Type 0 where
  creates : (ℕ → Bool) → List Draw → ℕ → Event
  created : Bool → ℕ → Text → Event
  ticks : ℕ → Event
  recycled : Text → Event
  pools : (ℕ → Bool) → List Draw → ℕ → Event
  warmed : Bool → ℕ → Text → Event
  settled : Text → Event
  scans : ℕ → (ℕ → Probe) → Event
  reaps : ℕ → Text → Session → Event
  samples : ℕ → ℕ → Event
  deletes : Text → Event
  deleted : ℕ → Text → Session → Event

-- The host, and the goroutines `createPooled` that have been started and wait for the lock.
pub record World : Type 0 where
  pub host : Host
  pub waiting : ℕ

unfoldable pub boot : Config → ℕ → World
unfolding new_host
boot cfg machine_mb = record { host = new_host cfg machine_mb; waiting = 0 }

-- A waiting `createPooled` takes the lock.
start_pooled : (ℕ → Bool) → List Draw → ℕ → Host → ℕ → World
start_pooled free draws now h zero = record { host = h; waiting = 0 }
start_pooled free draws now h (suc n) = elim (begin_pooled free draws now h) [
  | none ↦ record { host = h; waiting = suc n }
  | some h' ↦ record { host = h'; waiting = n }
]

unfoldable pub step : Event → World → World
unfolding start_pooled
step (creates free draws now) w = record w { host = (begin_create free draws now w.host).1 }
step (created up now id) w = record w { host = finish_create up now id w.host }
step (ticks now) w =
    let t = pool_tick now w.host in record { host = t.after; waiting = w.waiting + t.launches }
step (recycled id) w = record w { host = remove id w.host }
step (pools free draws now) w = start_pooled free draws now w.host w.waiting
step (warmed up now id) w = record w { host = finish_warm up now id w.host }
step (settled id) w = record w { host = finish_settle id w.host }
step (scans now probe) w = record w { host = reap_scan now probe w.host }
step (reaps now id s) w = record w { host = finish_reap now id s w.host }
step (samples mb now) w = record w { host = sample_memory mb now w.host }
step (deletes id) w = record w { host = (begin_delete id w.host).1 }
step (deleted now id s) w = record w { host = finish_delete now id s w.host }

unfoldable pub run : List Event → World → World
run [] w = w
run (e ∷ es) w = run es (step e w)

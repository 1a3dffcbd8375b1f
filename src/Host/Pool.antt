-- ===== src/Host/Pool.antt =====
-- cmd/demohost/main.go: the warm pool, `poolTick` and `createPooled`.
pub mod Launches
use bigfleet_demo.Common.{
  ℕ, zero, suc, ◌+◌, ◌-◌, Bool, true, false, not, ◌&&◌, ◌||◌, Option, none, some, List, [], ◌∷◌,
  Text, ltb, if◌then◌else◌,
}
use bigfleet_demo.Common.Dict.{Dict}
use bigfleet_demo.Common.Dict.Counting.{count_if, adjust}
use bigfleet_demo.Host.State.{
  State, Config, Session, Host, starting, warming, pooled, running, reaping, is_active, register,
  remove, modify,
}
use bigfleet_demo.Host.Admission.{admitted, refused, admit}
use bigfleet_demo.Host.Ports.{alloc_base}
use bigfleet_demo.Host.Identity.{Draw, gen_id}
use bigfleet_demo.Host.Create.{new_session}

-- A session that the tick looks at: not skipped by its first test.
abbrev pub in_pool : Session → Bool
in_pool s = s.is_pooled && is_active s.state

unfoldable pub is_stale : Config → ℕ → Session → Bool
is_stale cfg now s = in_pool s && ltb cfg.warm_max_age (now - s.created_at)

-- Counted in `pooled`.
unfoldable pub is_fresh : Config → ℕ → Session → Bool
is_fresh cfg now s = in_pool s && not (ltb cfg.warm_max_age (now - s.created_at))

abbrev is_waiting : State → Bool
is_waiting warming = true
is_waiting pooled = true
is_waiting _ = false

unfoldable pub mark_stale : Config → ℕ → Session → Session
unfolding is_stale
mark_stale cfg now s = if is_stale cfg now s then record s { state = reaping } else s

-- `recycle`: the keys of the sessions that the tick will take down.
unfoldable pub stale_keys : Config → ℕ → Dict Text Session → List Text
stale_keys cfg now [] = []
stale_keys cfg now ((k, s) ∷ m) =
    if is_stale cfg now s then k ∷ stale_keys cfg now m else stale_keys cfg now m

-- `keepAlive`: the ports whose backends get a heartbeat.
unfoldable pub keep_alive : Config → ℕ → Dict Text Session → List ℕ
keep_alive cfg now [] = []
keep_alive cfg now ((k, s) ∷ m) =
    if is_fresh cfg now s && is_waiting s.state
    then s.port_base ∷ keep_alive cfg now m
    else keep_alive cfg now m

-- `for pooled + poolInFlight + launch < warmPool && admitLocked() == nil`, on fuel.
unfoldable pub launch_loop : ℕ → ℕ → ℕ → Host → ℕ × Host
launch_loop zero pooled_now launch h = (launch, h)
launch_loop (suc fuel) pooled_now launch h =
    elim (ltb (pooled_now + h.pool_in_flight + launch) h.cfg.warm_pool) [
      | false ↦ (launch, h)
      | true ↦ elim (admit h) [
        | refused r ↦ (launch, h)
        | admitted ↦
            launch_loop fuel pooled_now (launch + 1)
              (record h { pool_in_flight = h.pool_in_flight + 1 })
      ]
    ]

pub record Tick : Type 0 where
  pub recycle : List Text
  pub alive : List ℕ
  pub launches : ℕ
  pub after : Host

-- The critical section of `poolTick`. The walk over the sessions is written as four passes, each
-- of which looks at one session at a time, as the loop does.
unfoldable pub pool_tick : ℕ → Host → Tick
pool_tick now h =
    let marked = record h { sessions = adjust (mark_stale h.cfg now) h.sessions } in
    let (launches, h') =
      launch_loop h.cfg.warm_pool (count_if (is_fresh h.cfg now) h.sessions) 0 marked in
    record {
      recycle = stale_keys h.cfg now h.sessions;
      alive = keep_alive h.cfg now h.sessions;
      launches = launches;
      after = h';
    }

-- `createPooled` up to the call of `spawn`. `none` stands for no state that the code leaves: the
-- random bytes that the model was given did not reach a free id.
unfoldable pub begin_pooled : (ℕ → Bool) → List Draw → ℕ → Host → Option Host
begin_pooled free draws now h =
    let landed = record h { pool_in_flight = h.pool_in_flight - 1 } in
    elim (alloc_base free h) [
      | none ↦ some landed
      | some base ↦ elim (gen_id draws h) [
        | none ↦ none
        | some id ↦ some (register (new_session h.cfg id base now true none) landed)
      ]
    ]

abbrev pub warm_state : State → State
warm_state starting = warming
warm_state warming = warming
warm_state pooled = pooled
warm_state running = running
warm_state reaping = reaping

unfoldable pub warm_now : ℕ → Session → Session
warm_now now s = record s { state = warm_state s.state; last_seen_ok = now }

-- `createPooled` after `spawn`.
unfoldable pub finish_warm : Bool → ℕ → Text → Host → Host
finish_warm up now id h = if up then modify id (warm_now now) h else remove id h

abbrev pub settle_state : State → State
settle_state warming = pooled
settle_state starting = starting
settle_state pooled = pooled
settle_state running = running
settle_state reaping = reaping

unfoldable pub settle : Session → Session
settle s = record s { state = settle_state s.state }

-- `createPooled` after `waitForSettle`.
unfoldable pub finish_settle : Text → Host → Host
finish_settle id h = modify id settle h

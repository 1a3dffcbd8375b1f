-- ===== src/Host/Pool/Launches.antt =====
-- How many sessions one tick of the warm pool launches.
use bigfleet_demo.Common.{
  ℕ, zero, suc, ◌+◌, ◌*◌, ◌≤◌, ◌<◌, ◌≡◌, refl, ◌⊎◌, inl, inr, arith, ltb, ltb→lt, Bool-cases,
}
use bigfleet_demo.Common.Dict.Counting.{count_if, adjust}
use bigfleet_demo.Host.State.{Host}
use bigfleet_demo.Host.Admission.{Refusal, refused, admit}
use bigfleet_demo.Host.Admission.Decision.{Admission-cases}
use bigfleet_demo.Host.Pool.{is_fresh, mark_stale, launch_loop, pool_tick}

-- The loop stops by its test or by a refusal, never for want of fuel.
launch_loop_ends :
    (fuel pooled_now launch : ℕ) (h : Host)
    → h.cfg.warm_pool ≤ fuel + (pooled_now + h.pool_in_flight + launch)
    → let (l, u) = launch_loop fuel pooled_now launch h in
      (h.cfg.warm_pool ≤ pooled_now + u.pool_in_flight + l)
      ⊎ ((r : Refusal) × (admit u ≡ refused r))
unfolding launch_loop
launch_loop_ends zero pooled_now launch h le = inl (omega arith)
launch_loop_ends (suc fuel) pooled_now launch h le =
    elim (Bool-cases (ltb (pooled_now + h.pool_in_flight + launch) h.cfg.warm_pool)) [
      | inr full ↦ rw (full, launch_loop) (inl (ground (arith, full)))
      | inl short ↦ elim (Admission-cases (admit h)) [
        | inr (r, a) ↦ rw (short, a, launch_loop) (inr (r, a))
        | inl a ↦
            rw (short, a, launch_loop)
              (launch_loop_ends fuel pooled_now (launch + 1)
                (record h { pool_in_flight = h.pool_in_flight + 1 }) (omega arith))
      ]
    ]

-- Each round moves two of the three numbers of the test.
launch_loop_counts :
    (fuel pooled_now launch : ℕ) (h : Host)
    → let (l, u) = launch_loop fuel pooled_now launch h in
      (u.pool_in_flight + launch ≡ h.pool_in_flight + l)
      × (launch ≤ l)
      × ((l ≡ launch) ⊎ (pooled_now + u.pool_in_flight + l ≤ h.cfg.warm_pool + 1))
unfolding launch_loop
launch_loop_counts zero pooled_now launch h = (refl, omega arith, inl refl)
launch_loop_counts (suc fuel) pooled_now launch h =
    elim (Bool-cases (ltb (pooled_now + h.pool_in_flight + launch) h.cfg.warm_pool)) [
      | inr full ↦ rw (full, launch_loop) (refl, omega arith, inl refl)
      | inl short ↦ elim (Admission-cases (admit h)) [
        | inr (r, a) ↦ rw (short, a, launch_loop) (refl, omega arith, inl refl)
        | inl a ↦
            rw (short, a, launch_loop)
              (one_more _ _ (ltb→lt _ _ short) (
                launch_loop_counts fuel pooled_now (launch + 1)
                  (record h { pool_in_flight = h.pool_in_flight + 1 })))
      ]
    ]
  where
    one_more :
        (l f : ℕ)
        → pooled_now + h.pool_in_flight + launch < h.cfg.warm_pool
        → (f + (launch + 1) ≡ h.pool_in_flight + 1 + l)
          × (launch + 1 ≤ l)
          × ((l ≡ launch + 1) ⊎ (pooled_now + f + l ≤ h.cfg.warm_pool + 1))
        → (f + launch ≡ h.pool_in_flight + l)
          × (launch ≤ l)
          × ((l ≡ launch) ⊎ (pooled_now + f + l ≤ h.cfg.warm_pool + 1))
    one_more l f lt (e, le, d) = (omega arith, omega arith, inr (omega arith))

-- The number of sessions of the pool that a tick keeps.
abbrev pub kept : ℕ → Host → ℕ
kept now h = count_if (is_fresh h.cfg now) h.sessions

-- A tick reserves a slot for each session that it launches, and, unless a further session is not
-- admitted, it launches half of what the pool lacks, rounded up: with `m` sessions kept and `f` in
-- flight, either it launches none or m + f + 2 * launches is at most warm_pool + 1, and the loop
-- ends when m + f + 2 * launches reaches warm_pool.
pub pool_tick_launches :
    (now : ℕ) (h : Host)
    → let t = pool_tick now h in
      (t.after.pool_in_flight ≡ h.pool_in_flight + t.launches)
      × ((t.launches ≡ 0) ⊎ (kept now h + h.pool_in_flight + 2 * t.launches ≤ h.cfg.warm_pool + 1))
      × ((h.cfg.warm_pool ≤ kept now h + h.pool_in_flight + 2 * t.launches)
          ⊎ ((r : Refusal) × (admit t.after ≡ refused r)))
unfolding pool_tick
pool_tick_launches now h =
    let marked = record h { sessions = adjust (mark_stale h.cfg now) h.sessions } in
    let counts = launch_loop_counts h.cfg.warm_pool (kept now h) 0 marked in
    let ends = launch_loop_ends h.cfg.warm_pool (kept now h) 0 marked (omega arith) in
    (omega arith, omega arith, ground (arith, ends, counts))

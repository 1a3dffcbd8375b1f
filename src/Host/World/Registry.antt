-- ===== src/Host/World/Registry.antt =====
-- The registry of sessions and the map of used port blocks agree after every history.
use bigfleet_demo.Common.{
  ℕ, zero, suc, ◌+◌, ◌-◌, ◌*◌, ◌≤◌, ◌≡◌, refl, sym, ◌∙◌, ap, ◌⊎◌, ◌≢◌, inl, inr, Bool, true, false,
  none, some, List, [], ◌∷◌, arith, Text, eqb_iff, Option-cases, text_has_eq, nat_eq,
}
use native.Mathlib.Decide.{dec_lt}
use bigfleet_demo.Common.Dict.{lookup}
use bigfleet_demo.Common.Dict.Counting.{count_if}
use bigfleet_demo.Common.Dict.Every.{Every-lookup, two-le-count_if}
use bigfleet_demo.Host.State.{
  Config, Session, Host, Reason, append_completion, is_used, register, remove,
}
use bigfleet_demo.Host.Identity.{Draw}
use bigfleet_demo.Host.Create.{hand_out, run_now, finish_create}
use bigfleet_demo.Host.Pool.{
  mark_stale, pool_tick, begin_pooled, warm_now, finish_warm, settle, finish_settle,
}
use bigfleet_demo.Host.Reaper.{
  Probe, scan_session, reap_scan, finish_reap, sample_memory, mark_reaping, finish_delete,
}
use bigfleet_demo.Host.World.{
  Event, creates, created, ticks, recycled, pools, warmed, settled, scans, reaps, samples, deletes,
  deleted, World, boot, start_pooled, step, run,
}
use bigfleet_demo.Host.World.Cases.{
  begin_create_cases, begin_pooled_cases, begin_delete_cases, append_completion_cases,
  launch_loop_inv,
}
use bigfleet_demo.Host.World.Consistent.{
  EntryOk, IsConsistent, Keeps, adjust-IsConsistent, flight-IsConsistent, launch-IsConsistent,
  modify-IsConsistent, on_port, remove-IsConsistent,
}

mark_stale-Keeps : (c : Config) (now : ℕ) → Keeps (mark_stale c now)
unfolding mark_stale
mark_stale-Keeps c now s = ground arith

scan_session-Keeps : (now : ℕ) (probe : ℕ → Probe) → Keeps (scan_session now probe)
unfolding scan_session
scan_session-Keeps now probe s = ground arith

finish_create-IsConsistent :
    (cfg : Config) (up : Bool) (now : ℕ) (id : Text) (h : Host)
    → IsConsistent cfg h
    → IsConsistent cfg (finish_create up now id h)
unfolding finish_create run_now
finish_create-IsConsistent cfg true now id h c =
    modify-IsConsistent cfg id (run_now now) h (λ s. (refl, refl, refl)) c
finish_create-IsConsistent cfg false now id h c = remove-IsConsistent cfg id h c

finish_warm-IsConsistent :
    (cfg : Config) (up : Bool) (now : ℕ) (id : Text) (h : Host)
    → IsConsistent cfg h
    → IsConsistent cfg (finish_warm up now id h)
unfolding finish_warm warm_now
finish_warm-IsConsistent cfg true now id h c =
    modify-IsConsistent cfg id (warm_now now) h (λ s. (refl, refl, refl)) c
finish_warm-IsConsistent cfg false now id h c = remove-IsConsistent cfg id h c

dropped-IsConsistent :
    (cfg : Config) (s : Session) (r : Reason) (now : ℕ) (id : Text) (h : Host)
    → IsConsistent cfg h
    → IsConsistent cfg (append_completion s r now (remove id h))
dropped-IsConsistent cfg s r now id h c =
    append_completion_cases (IsConsistent cfg) s r now (remove id h) λ cs.
      let k = remove-IsConsistent cfg id h c in
      record { same_cfg = k.same_cfg; unique = k.unique; owned = k.owned; entries = k.entries }

pool_tick-IsConsistent :
    (cfg : Config) (now : ℕ) (h : Host)
    → IsConsistent cfg h
    → IsConsistent cfg (pool_tick now h).after
unfolding pool_tick
pool_tick-IsConsistent cfg now h c =
    launch_loop_inv (λ _ u. IsConsistent cfg u) _
      (λ launch u _ _ d. flight-IsConsistent cfg (u.pool_in_flight + 1) u d) _ 0 _
      (adjust-IsConsistent cfg (mark_stale h.cfg now) h (mark_stale-Keeps h.cfg now) c)

start_pooled-IsConsistent :
    (cfg : Config) (free : ℕ → Bool) (draws : List Draw) (now : ℕ) (h : Host) (n : ℕ)
    → IsConsistent cfg h
    → IsConsistent cfg (start_pooled free draws now h n).host
unfolding start_pooled
start_pooled-IsConsistent cfg free draws now h zero c = c
start_pooled-IsConsistent cfg free draws now h (suc n) c =
    elim (Option-cases (begin_pooled free draws now h)) [
      | inl e ↦ rw (e, start_pooled) c
      | inr (h', e) ↦
          let landed = flight-IsConsistent cfg (h.pool_in_flight - 1) h c in
          rw (e, start_pooled)
            (begin_pooled_cases (IsConsistent cfg) free draws now h h' e landed λ base id b g.
              unfold register in
              flight-IsConsistent cfg (h.pool_in_flight - 1) _
                (launch-IsConsistent cfg free draws now base id true none h b g c))
    ]

-- Every critical section keeps the registry consistent.
pub step-IsConsistent :
    (cfg : Config) (e : Event) (w : World)
    → IsConsistent cfg w.host
    → IsConsistent cfg (step e w).host
unfolding step
step-IsConsistent cfg (creates free draws now) w c =
    begin_create_cases (IsConsistent cfg) free draws now w.host c
      (λ k s _. modify-IsConsistent cfg k _ w.host (unfold hand_out in λ s. (refl, refl, refl)) c)
      (λ base id _ b g.
        launch-IsConsistent cfg free draws now base id false (some now) w.host b g c)
step-IsConsistent cfg (created up now id) w c = finish_create-IsConsistent cfg up now id w.host c
step-IsConsistent cfg (ticks now) w c = pool_tick-IsConsistent cfg now w.host c
step-IsConsistent cfg (recycled id) w c = remove-IsConsistent cfg id w.host c
step-IsConsistent cfg (pools free draws now) w c =
    start_pooled-IsConsistent cfg free draws now w.host w.waiting c
step-IsConsistent cfg (warmed up now id) w c = finish_warm-IsConsistent cfg up now id w.host c
step-IsConsistent cfg (settled id) w c =
    unfold finish_settle settle in modify-IsConsistent cfg id _ w.host (λ s. (refl, refl, refl)) c
step-IsConsistent cfg (scans now probe) w c =
    unfold reap_scan in
    adjust-IsConsistent cfg (scan_session now probe) w.host (scan_session-Keeps now probe) c
step-IsConsistent cfg (reaps now id s) w c =
    unfold finish_reap in dropped-IsConsistent cfg s _ now id w.host c
step-IsConsistent cfg (samples mb now) w c =
    unfold sample_memory in
    record { same_cfg = c.same_cfg; unique = c.unique; owned = c.owned; entries = c.entries }
step-IsConsistent cfg (deletes id) w c = begin_delete_cases (IsConsistent cfg) id w.host c (
    modify-IsConsistent cfg id mark_reaping w.host (unfold mark_reaping in λ s. (refl, refl, refl))
      c)
step-IsConsistent cfg (deleted now id s) w c =
    unfold finish_delete in dropped-IsConsistent cfg s _ now id w.host c

pub steps-IsConsistent :
    (cfg : Config) (es : List Event) (w : World)
    → IsConsistent cfg w.host
    → IsConsistent cfg (run es w).host
unfolding run
steps-IsConsistent cfg [] w c = c
steps-IsConsistent cfg (e ∷ es) w c =
    steps-IsConsistent cfg es (step e w) (step-IsConsistent cfg e w c)

pub boot-IsConsistent : (cfg : Config) (mb : ℕ) → IsConsistent cfg (boot cfg mb).host
unfolding boot count_if is_used lookup
boot-IsConsistent cfg mb = record { same_cfg = refl; unique = tt; owned = λ b. refl; entries = tt }

-- After any history of the daemon each id stands once in the registry, a port block is marked used
-- exactly while one session (and no other) has it, and every session stands under its own id with
-- the configured share of memory on one of the blocks 0 to 4 * max_sessions + 7.
pub run-IsConsistent :
    (cfg : Config) (machine_mb : ℕ) (es : List Event)
    → IsConsistent cfg (run es (boot cfg machine_mb)).host
run-IsConsistent cfg mb es = steps-IsConsistent cfg es (boot cfg mb) (boot-IsConsistent cfg mb)

blocks_apart :
    (i l stride base : ℕ)
    → base + i * stride ≢ base + l * stride
    → (base + i * stride + stride ≤ base + l * stride)
      ⊎ (base + l * stride + stride ≤ base + i * stride)
blocks_apart i l stride base ne = elim (dec_lt i l) [
  | yes p ↦ inl (grind arith)
  | no p ↦ elim (dec_lt l i) [
    | yes q ↦ inr (grind arith)
    | no q ↦ let e : i ≡ l = omega arith in absurd (ne (ap (λ (n : ℕ). base + n * stride) e))
  ]
]

-- Two sessions cannot begin at one port, for that port would count twice.
ports_ne :
    (cfg : Config) (h : Host) (k j : Text) (s t : Session)
    → IsConsistent cfg h
    → k ≢ j
    → lookup k h.sessions ≡ some s
    → lookup j h.sessions ≡ some t
    → s.port_base ≢ t.port_base
ports_ne cfg h k j s t c ne a b same =
    let twice =
      two-le-count_if (on_port t.port_base) k j s t h.sessions c.unique ne a b
        ((eqb_iff s.port_base t.port_base).1 same) ((eqb_iff t.port_base t.port_base).1 refl) in
    ground (arith, twice, c.owned t.port_base)

-- No two sessions share a port: after any history of the daemon, the blocks of `stride` ports
-- that begin at the ports of two sessions of the registry do not overlap.
pub blocks_disjoint :
    (cfg : Config) (machine_mb : ℕ) (es : List Event) (k j : Text) (s t : Session)
    → k ≢ j
    → lookup k (run es (boot cfg machine_mb)).host.sessions ≡ some s
    → lookup j (run es (boot cfg machine_mb)).host.sessions ≡ some t
    → (s.port_base + cfg.stride ≤ t.port_base) ⊎ (t.port_base + cfg.stride ≤ s.port_base)
blocks_disjoint cfg mb es k j s t ne a b =
    let c = run-IsConsistent cfg mb es in
    let m = (run es (boot cfg mb)).host.sessions in
    let (_, _, i, _, at) = Every-lookup (EntryOk cfg) k s m c.entries a in
    let (_, _, l, _, at') = Every-lookup (EntryOk cfg) j t m c.entries b in
    rw (at, at')
      (blocks_apart i l cfg.stride cfg.port_base
        (λ e. ports_ne cfg (run es (boot cfg mb)).host k j s t c ne a b (at ∙ e ∙ sym at')))

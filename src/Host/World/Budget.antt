-- ===== src/Host/World/Budget.antt =====
-- The reservations of the daemon stay within its limits.
use bigfleet_demo.Common.{
  ℕ, zero, suc, ◌+◌, ◌-◌, ◌≡◌, refl, inl, inr, Bool, true, false, none, some, List, [], ◌∷◌, arith,
  Text, Option-cases, text_eq_iff, text_has_eq,
}
use bigfleet_demo.Common.Dict.{Dict, lookup, Unique}
use bigfleet_demo.Common.Dict.Counting.{count_if, count_if-insert_fresh}
use bigfleet_demo.Host.State.{
  Config, Session, Host, Reason, is_active, active_count, append_completion, register, remove,
}
use bigfleet_demo.Host.Identity.{Draw, gen_id_fresh}
use bigfleet_demo.Host.Create.{find_ready, new_session, run_now, finish_create}
use bigfleet_demo.Host.Pool.{
  mark_stale, pool_tick, begin_pooled, warm_now, finish_warm, settle, finish_settle,
}
use bigfleet_demo.Host.Reaper.{
  Probe, scan_session, reap_scan, finish_reap, sample_memory, mark_reaping, finish_delete,
}
use bigfleet_demo.Host.World.{
  Event, creates, created, ticks, recycled, pools, warmed, settled, scans, reaps, samples, deletes,
  deleted, World, boot, start_pooled, step, run,
}
use bigfleet_demo.Host.World.Consistent.{IsConsistent}
use bigfleet_demo.Host.World.Registry.{step-IsConsistent, boot-IsConsistent}
use bigfleet_demo.Host.World.Cases.{
  begin_create_cases, begin_pooled_cases, begin_delete_cases, append_completion_cases,
  launch_loop_inv,
}
use bigfleet_demo.Host.World.Reservations.{
  Fits-mono, InBudget, active, adjust-InBudget, admit-Fits, launch-InBudget, modify-InBudget,
  remove-InBudget,
}

-- `createSession` ends well on a session that nobody is taking down in the meantime.
abbrev pub Unraced : Event → World → Type 0
Unraced (created true now id) w =
    (s : Session) → lookup id w.host.sessions ≡ some s → is_active s.state ≡ true
Unraced (created false now id) w = Unit
Unraced _ w = Unit

abbrev pub UnracedAll : List Event → World → Type 0
UnracedAll [] w = Unit
UnracedAll (e ∷ es) w = Unraced e w × UnracedAll es (step e w)

-- A session that is handed out was ready, hence counted.
find_ready-active :
    (m : Dict Text Session) (k : Text) (s : Session)
    → find_ready m ≡ some (k, s)
    → Unique m
    → (lookup k m ≡ some s) × (active s ≡ true)
unfolding find_ready lookup
find_ready-active [] k s e u = absurd (ground arith)
find_ready-active ((i, t) ∷ m) k s e u = ground (arith, text_eq_iff i k, find_ready-active m k s)

mark_stale-active :
    (c : Config) (now : ℕ) (s : Session) → active (mark_stale c now s) ≡ true → active s ≡ true
unfolding mark_stale
mark_stale-active c now s h = ground arith

scan_session-active :
    (now : ℕ) (probe : ℕ → Probe) (s : Session)
    → active (scan_session now probe s) ≡ true
    → active s ≡ true
unfolding scan_session
scan_session-active now probe s h = ground arith

-- A goroutine that gives up returns its slot.
landed-InBudget :
    (cfg : Config) (h : Host) (n : ℕ)
    → InBudget cfg h (suc n)
    → InBudget cfg (record h { pool_in_flight = h.pool_in_flight - 1 }) n
unfolding active_count
landed-InBudget cfg h n b = record {
  same_cfg = b.same_cfg;
  counted = omega (arith, b.counted);
  fits = Fits-mono cfg _ (active_count h + suc n) (omega arith) b.fits;
}

-- One that registers its session turns the slot into the session.
taken-InBudget :
    (cfg : Config) (s : Session) (h : Host) (n : ℕ)
    → lookup s.id h.sessions ≡ none
    → InBudget cfg h (suc n)
    → InBudget cfg (register s (record h { pool_in_flight = h.pool_in_flight - 1 })) n
unfolding register active_count
taken-InBudget cfg s h n fresh b = record {
  same_cfg = b.same_cfg;
  counted = omega (arith, b.counted);
  fits =
      Fits-mono cfg _ (active_count h + suc n)
        (ground (arith, count_if-insert_fresh active s.id s h.sessions fresh)) b.fits;
}

pool_tick-InBudget :
    (cfg : Config) (now : ℕ) (h : Host) (n : ℕ)
    → InBudget cfg h n
    → InBudget cfg (pool_tick now h).after (n + (pool_tick now h).launches)
unfolding pool_tick active_count
pool_tick-InBudget cfg now h n b =
    launch_loop_inv (λ launch u. InBudget cfg u (n + launch)) _
      (λ launch u _ a d. record {
        same_cfg = d.same_cfg;
        counted = omega (arith, d.counted);
        fits =
            Fits-mono cfg _ (active_count u + (n + launch) + 1) (omega arith)
              (admit-Fits cfg u (n + launch) a d);
      })
      _ 0 _
      (let e : n + 0 ≡ n = omega arith in
        rw e (adjust-InBudget cfg (mark_stale h.cfg now) h n (mark_stale-active h.cfg now) b))

start_pooled-InBudget :
    (cfg : Config) (free : ℕ → Bool) (draws : List Draw) (now : ℕ) (h : Host) (n : ℕ)
    → InBudget cfg h n
    → InBudget cfg (start_pooled free draws now h n).host (start_pooled free draws now h n).waiting
unfolding start_pooled new_session
start_pooled-InBudget cfg free draws now h zero b = b
start_pooled-InBudget cfg free draws now h (suc n) b =
    elim (Option-cases (begin_pooled free draws now h)) [
      | inl e ↦ rw (e, start_pooled) b
      | inr (h', e) ↦
          rw (e, start_pooled)
            (begin_pooled_cases (λ u. InBudget cfg u n) free draws now h h' e
              (landed-InBudget cfg h n b)
              λ base id _ g. taken-InBudget cfg _ h n (gen_id_fresh draws h id g).1 b)
    ]

finish_create-InBudget :
    (cfg : Config) (up : Bool) (now : ℕ) (id : Text) (w : World)
    → Unique w.host.sessions
    → Unraced (created up now id) w
    → InBudget cfg w.host w.waiting
    → InBudget cfg (finish_create up now id w.host) w.waiting
unfolding finish_create run_now
finish_create-InBudget cfg true now id w u ok b =
    modify-InBudget cfg id _ w.host w.waiting u (λ s e _. ok s e) b
finish_create-InBudget cfg false now id w u ok b = remove-InBudget cfg id w.host w.waiting b

finish_warm-InBudget :
    (cfg : Config) (up : Bool) (now : ℕ) (id : Text) (h : Host) (n : ℕ)
    → Unique h.sessions
    → InBudget cfg h n
    → InBudget cfg (finish_warm up now id h) n
unfolding finish_warm warm_now
finish_warm-InBudget cfg true now id h n u b =
    modify-InBudget cfg id _ h n u (λ s _ a. ground arith) b
finish_warm-InBudget cfg false now id h n u b = remove-InBudget cfg id h n b

dropped-InBudget :
    (cfg : Config) (s : Session) (r : Reason) (now : ℕ) (id : Text) (h : Host) (n : ℕ)
    → InBudget cfg h n
    → InBudget cfg (append_completion s r now (remove id h)) n
unfolding active_count
dropped-InBudget cfg s r now id h n b =
    append_completion_cases (λ u. InBudget cfg u n) s r now (remove id h)
      λ cs.
        let k = remove-InBudget cfg id h n b in
        record { same_cfg = k.same_cfg; counted = k.counted; fits = k.fits }

step-InBudget :
    (cfg : Config) (e : Event) (w : World)
    → Unique w.host.sessions
    → Unraced e w
    → InBudget cfg w.host w.waiting
    → InBudget cfg (step e w).host (step e w).waiting
unfolding step
step-InBudget cfg (creates free draws now) w u ok b =
    begin_create_cases (λ h. InBudget cfg h w.waiting) free draws now w.host b
      (λ k s e. modify-InBudget cfg k _ w.host w.waiting u (λ t at _. ready_in k s t e at) b)
      (λ base id a _ g.
        launch-InBudget cfg _ w.host w.waiting
          (unfold new_session in (gen_id_fresh draws w.host id g).1) a b)
  where
    ready_in :
        (k : Text) (s t : Session)
        → find_ready w.host.sessions ≡ some (k, s)
        → lookup k w.host.sessions ≡ some t
        → active t ≡ true
    ready_in k s t e at = ground (arith, find_ready-active w.host.sessions k s e u, at)
step-InBudget cfg (created up now id) w u ok b = finish_create-InBudget cfg up now id w u ok b
step-InBudget cfg (ticks now) w u ok b = pool_tick-InBudget cfg now w.host w.waiting b
step-InBudget cfg (recycled id) w u ok b = remove-InBudget cfg id w.host w.waiting b
step-InBudget cfg (pools free draws now) w u ok b =
    start_pooled-InBudget cfg free draws now w.host w.waiting b
step-InBudget cfg (warmed up now id) w u ok b =
    finish_warm-InBudget cfg up now id w.host w.waiting u b
step-InBudget cfg (settled id) w u ok b =
    unfold finish_settle settle in
    modify-InBudget cfg id _ w.host w.waiting u (λ s _ a. ground arith) b
step-InBudget cfg (scans now probe) w u ok b =
    unfold reap_scan in
    adjust-InBudget cfg (scan_session now probe) w.host w.waiting (scan_session-active now probe) b
step-InBudget cfg (reaps now id s) w u ok b =
    unfold finish_reap in dropped-InBudget cfg s _ now id w.host w.waiting b
step-InBudget cfg (samples mb now) w u ok b =
    unfold sample_memory active_count in
    record { same_cfg = b.same_cfg; counted = b.counted; fits = b.fits }
step-InBudget cfg (deletes id) w u ok b =
    begin_delete_cases (λ h. InBudget cfg h w.waiting) id w.host b
      (modify-InBudget cfg id mark_reaping w.host w.waiting u
        (unfold mark_reaping in λ s _ a. ground arith) b)
step-InBudget cfg (deleted now id s) w u ok b =
    unfold finish_delete in dropped-InBudget cfg s _ now id w.host w.waiting b

steps-InBudget :
    (cfg : Config) (es : List Event) (w : World)
    → IsConsistent cfg w.host
    → UnracedAll es w
    → InBudget cfg w.host w.waiting
    → InBudget cfg (run es w).host (run es w).waiting
unfolding run
steps-InBudget cfg [] w c ok b = b
steps-InBudget cfg (e ∷ es) w c ok b =
    steps-InBudget cfg es (step e w) (step-IsConsistent cfg e w c) ok.1
      (step-InBudget cfg e w c.unique ok.0 b)

-- The daemon never promises more than it has: after any history in which no creation completes on a
-- session that is already being taken down, the sessions that hold a reservation and the pool
-- sessions still to be created are together at most `max_sessions`, and their reservations are
-- within the memory budget; the counter of launches is the number of goroutines that wait.
pub run-InBudget :
    (cfg : Config) (machine_mb : ℕ) (es : List Event)
    → UnracedAll es (boot cfg machine_mb)
    → let w = run es (boot cfg machine_mb) in InBudget cfg w.host w.waiting
run-InBudget cfg mb es ok = steps-InBudget cfg es (boot cfg mb) (boot-IsConsistent cfg mb) ok (
    unfold boot active_count count_if in
    record { same_cfg = refl; counted = refl; fits = omega arith })

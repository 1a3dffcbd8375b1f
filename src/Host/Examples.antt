-- ===== src/Host/Examples.antt =====
-- A small daemon, and the theorems about cmd/demohost at it.
mod Daemon
use bigfleet_demo.Common.{
  ℕ, ◌+◌, ◌*◌, ◌≤◌, ◌<◌, ◌≡◌, refl, ◌↔◌, ◌⊎◌, inl, ◌≢◌, Bool, true, false, none, some, List, [],
  ◌∷◌, ◌++◌, arith, Text, codes, text_eq, length, nat_eq, text_has_eq,
}
use bigfleet_demo.Common.Dict.{lookup, insert, update}
use bigfleet_demo.Common.Dict.Counting.{count_if}
use bigfleet_demo.Common.Dict.Every.{Every}
use bigfleet_demo.Common.Decimal.{decimal, value_from}
use bigfleet_demo.Host.State.{
  Config, Session, Host, State, starting, pooled, running, reaping, is_used, active_count, register,
  modify, session_url,
}
use bigfleet_demo.Host.Admission.{
  admitted, admit, reserved_count, at_max_sessions, Refusal, refused,
}
use bigfleet_demo.Host.Admission.Fits.{reservations, admit-register}
use bigfleet_demo.Host.Ports.{alloc_base, IsLowest, alloc_base-IsLowest}
use bigfleet_demo.Host.Identity.{Draw, id_of, gen_id, IsIdLetter, IsSessionId, gen_id_fresh}
use bigfleet_demo.Host.Create.{
  find_ready, take_pooled, hand_out, new_session, begin_create, run_now, finish_create,
  over_capacity,
}
use bigfleet_demo.Host.Pool.{pool_tick}
use bigfleet_demo.Host.Pool.Launches.{kept, pool_tick_launches}
use bigfleet_demo.Host.Reaper.{
  Probe, scan_session, reap_scan, begin_delete, mark_reaping, finish_reap, finish_delete,
}
use bigfleet_demo.Host.Reaper.Scans.{
  Scan, reap_scans, scan_all, spares, reap_scans_alive, hand_out_full_time,
}
use bigfleet_demo.Host.Http.{cut_prefix, trim_prefix, trim_space, authorized, bearer}
use bigfleet_demo.Host.Http.Keys.{authorized_sound}
use bigfleet_demo.Host.Capacity.{CapacityView, capacity_view}
use bigfleet_demo.Host.Capacity.Headroom.{NotRefused, headroom_iff_served}
use bigfleet_demo.Host.Memory.{
  is_theirs, is_listed, docker_mb, fields, fields_from, text_before, split, split_from, sum_lines,
  parse_mem_mb, parse_unit, cut_suffix, parse_float, used_part, add_figure,
}
use mathlib.Core.List.{Memᴰ}
use bigfleet_demo.Host.Memory.Containers.{cluster_name, is_theirs_iff}
use bigfleet_demo.Backend.Fleet.{ClusterState}
use bigfleet_demo.Host.Settle.{Poll, settled_down, wait_for_settle}
use bigfleet_demo.Host.Settle.Converged.{converges_twice, wait_for_settle_iff}
use bigfleet_demo.Host.World.{Event, creates, created, deletes, World, boot, step, run}
use bigfleet_demo.Host.World.Consistent.{IsConsistent}
use bigfleet_demo.Host.World.Registry.{run-IsConsistent, blocks_disjoint}
use bigfleet_demo.Host.World.Reservations.{InBudget}
use bigfleet_demo.Host.World.Budget.{UnracedAll, run-InBudget}
use bigfleet_demo.Host.World.Lifecycle.{seen}
use bigfleet_demo.Host.World.Moves.{Moves}

abbrev small : Config
small = record {
  addr = [];
  repo = [];
  advertise = codes "localhost";
  key = codes "k";
  port_base = 21000;
  stride = 16;
  max_sessions = 2;
  demo_budget_mb = 5000;
  session_mb = 2000;
  ttl = 3600;
  idle = 300;
  dashboards = false;
  warm_pool = 3;
  warm_settle = 60;
  warm_max_age = 1800;
}

abbrev any_port : ℕ → Bool
any_port p = true

abbrev draw : ℕ → Draw
draw n = record { b0 = n; b1 = n; b2 = n; b3 = n; b4 = n }

abbrev id_a : Text
id_a = codes "aaaaa"

abbrev id_b : Text
id_b = codes "bbbbb"

-- Two visitors come, and the first session is up.
abbrev history : List Event
history =
    creates any_port (draw 0 ∷ []) 100
    ∷ created true 160 id_a
    ∷ creates any_port (draw 0 ∷ draw 1 ∷ []) 200
    ∷ []

final : World
unfolding run step boot begin_create take_pooled find_ready admit reserved_count active_count
    count_if alloc_base is_used lookup gen_id id_of new_session session_url decimal register insert
    text_eq finish_create modify run_now update
final = run history (boot small 16000)

run-IsConsistent_example : IsConsistent small final.host
unfolding final
run-IsConsistent_example = run-IsConsistent small 16000 history

abbrev session_at : Text → ℕ → ℕ → State → ℕ → Session
session_at id base start state seen = record {
  id = id;
  port_base = base;
  url = codes "http://localhost:" ++ decimal base;
  created_at = start;
  expires_at = start + 3600;
  reserved_mb = 2000;
  state = state;
  is_pooled = false;
  last_seen_ok = seen;
  assigned_at = some start;
}

final_a : lookup id_a final.host.sessions ≡ some (session_at id_a 21000 100 running 160)
unfolding final
final_a = refl

final_b : lookup id_b final.host.sessions ≡ some (session_at id_b 21016 200 starting 200)
unfolding final
final_b = refl

blocks_disjoint_example : (21000 + 16 ≤ 21016) ⊎ (21016 + 16 ≤ 21000)
unfolding final
blocks_disjoint_example =
    blocks_disjoint small 16000 history id_a id_b (session_at id_a 21000 100 running 160)
      (session_at id_b 21016 200 starting 200) (λ e. ground arith) final_a final_b

unraced : UnracedAll history (boot small 16000)
unfolding final
unraced = (tt, (λ s e. ground (arith, e), (tt, tt)))

run-InBudget_example : InBudget small final.host final.waiting
unfolding final
run-InBudget_example = run-InBudget small 16000 history unraced

abbrev next : Session
next = session_at (codes "ccccc") 21032 300 starting 300

admit-register_example :
    let h' = register next final.host in
    (admit final.host ≡ admitted) ↔ (
      (reservations h' ≤ 2)
      × (reservations h' * 2000 ≤ 5000)
      × ((final.host.mem_actual_mb ≡ 0) ⊎ (final.host.mem_actual_mb + 2000 ≤ 5000)))
unfolding final
admit-register_example = admit-register final.host next refl refl

alloc_base-IsLowest_example : IsLowest any_port final.host 0 16 (some 21032)
unfolding final
alloc_base-IsLowest_example = alloc_base-IsLowest any_port final.host

gen_id_fresh_example :
    IsSessionId (codes "ccccc") × (lookup (codes "ccccc") final.host.sessions ≡ none)
unfolding final
gen_id_fresh_example = gen_id_fresh (draw 1 ∷ draw 2 ∷ []) final.host (codes "ccccc") refl

abbrev empty_view : CapacityView
empty_view = record {
  machine_total_mb = 16000;
  demo_budget_mb = 5000;
  per_session_mb = 2000;
  running_sessions = 0;
  visitor_sessions = 0;
  max_sessions = 2;
  reserved_mb = 0;
  measured_actual_mb = 0;
  measured_age_sec = 0;
  warm_ready = 0;
  headroom_sessions = 2;
  budget_used_pct = record { numerator = 0; denominator = 5000 };
}

headroom_iff_served_example :
    (0 < 2) ↔ NotRefused any_port (draw 0 ∷ []) 100 (boot small 16000).host
unfolding final capacity_view
headroom_iff_served_example =
    headroom_iff_served 100 empty_view any_port (draw 0 ∷ []) 100 (boot small 16000).host refl refl

-- Two launches of the pool wait: they hold both slots.
abbrev launching : Host
launching = record (boot small 16000).host { pool_in_flight = 2 }

abbrev empty_host : Host
empty_host = (boot small 16000).host

pool_tick_launches_example :
    let t = pool_tick 100 empty_host in
    (t.after.pool_in_flight ≡ 0 + t.launches)
    × ((t.launches ≡ 0) ⊎ (kept 100 empty_host + 0 + 2 * t.launches ≤ 3 + 1))
    × ((3 ≤ kept 100 empty_host + 0 + 2 * t.launches)
        ⊎ ((r : Refusal) × (admit t.after ≡ refused r)))
unfolding final
pool_tick_launches_example = pool_tick_launches 100 empty_host

abbrev answering : ℕ → Probe
answering p = record { expired = false; reachable = true }

abbrev silent : ℕ → Probe
silent port = record { expired = false; reachable = false }

-- The backend is out of reach for a while.
abbrev night : List Scan
night =
    record { now = 3000; probe = answering }
    ∷ record { now = 3040; probe = silent }
    ∷ record { now = 3700; probe = answering }
    ∷ []

reap_scans_alive_example :
    (s' : Session) × (lookup id_a (reap_scans night final.host).sessions ≡ some s')
    × ((s'.state ≡ running)
        ↔ (spares 21000 (session_at id_a 21000 100 running 160).expires_at 160 night ≡ true))
reap_scans_alive_example =
    reap_scans_alive night final.host id_a (session_at id_a 21000 100 running 160) final_a refl

hand_out_full_time_example :
    (scan_all night (hand_out 3600 100 (session_at id_a 21000 50 pooled 90))).state ≡ running
unfolding spares
hand_out_full_time_example =
    hand_out_full_time 3600 100 night (session_at id_a 21000 50 pooled 90) refl

-- The second session is deleted while its stack is still coming up.
abbrev deleting : World
deleting = step (deletes id_b) final

is_theirs_iff_example :
    ((is_theirs (id_a ∷ id_b ∷ []) (codes "kwok-bbbbb-cluster-a-etcd") ≡ true) ↔ (
      (i : Text) × (t : Text) × Memᴰ i (id_a ∷ id_b ∷ [])
      × (codes "kwok-bbbbb-cluster-a-etcd" ≡ cluster_name i t)))
    × ((is_theirs (id_a ∷ id_b ∷ []) (cluster_name id_b (codes "-b")) ≡ true)
        ↔ Memᴰ id_b (id_a ∷ id_b ∷ []))
is_theirs_iff_example =
    let a : IsIdLetter b'a' =
      (omega arith, omega arith, (λ e. omega (arith, e)), (λ e. omega (arith, e))) in
    let b : IsIdLetter b'b' =
      (omega arith, omega arith, (λ e. omega (arith, e)), (λ e. omega (arith, e))) in
    let is_b : IsSessionId id_b = (b, refl, (inl b, (inl b, (inl b, (inl b, tt))))) in
    is_theirs_iff (id_a ∷ id_b ∷ []) (codes "kwok-bbbbb-cluster-a-etcd") id_b (codes "-b")
      ((a, refl, (inl a, (inl a, (inl a, (inl a, tt))))), (is_b, tt)) is_b

-- Only the first container is the session's.
docker_mb_two :
    docker_mb
      (id_a ∷ id_b ∷ [])
      (some (codes "kwok-aaaaa-cluster-a etcd kwok-ccccc-cluster-a"))
      (λ names. some (codes "12.5MiB / 7GiB"))
    ≡ 12
unfolding docker_mb is_theirs fields fields_from cut_prefix text_before is_listed text_eq split
    split_from trim_space sum_lines parse_mem_mb parse_unit cut_suffix parse_float value_from
    used_part add_figure
docker_mb_two = refl

-- A cluster with this many pods pending.
abbrev cluster_with : ℕ → ClusterState
cluster_with n = record {
  name = codes "cluster-a";
  dashboard = [];
  nodes_by_cloud = [];
  nodes = 4;
  nodes_ready = 4;
  provisioning = 0;
  pods_running = 9;
  pods_pending = n;
  batch_pending = 0;
  baseline = 0;
  demand = 0;
  critical = 0;
}

abbrev settle_polls : List Poll
settle_polls =
    record { now = 100; answer = none }
    ∷ record { now = 103; answer = some (cluster_with 0 ∷ []) }
    ∷ record { now = 106; answer = some (cluster_with 2 ∷ []) }
    ∷ record { now = 109; answer = some (cluster_with 0 ∷ []) }
    ∷ record { now = 112; answer = some (cluster_with 0 ∷ []) }
    ∷ []

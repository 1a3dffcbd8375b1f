-- ===== src/Backend/Examples.antt =====
-- The theorems about backend/cmd/demo-backend at small inputs.
mod Reads
mod Run
use bigfleet_demo.Common.Dict.{lookup, insert}
use bigfleet_demo.Common.{
  ℕ, ◌+◌, ◌≤◌, ◌≡◌, refl, Bool, true, false, none, some, List, [], ◌∷◌, ◌++◌, map, arith, Text,
  codes, text_eq, All, nat_eq,
}
use bigfleet_demo.Host.State.{Session, pooled, running, reaping}
use bigfleet_demo.Host.Create.{hand_out}
use bigfleet_demo.Host.Reaper.{scan_session}
use bigfleet_demo.Backend.Clock.{
  SessionClock, new_session_clock, beat, begin, ClockRequest, heartbeats, begins, handle,
  handle_all,
}
use bigfleet_demo.Backend.Clock.Deadline.{hard_deadline_fixed}
use bigfleet_demo.Backend.Clock.HandOut.{
  Happening, requests, scans, happen_all, attended, visitor_keeps_session,
}
use bigfleet_demo.Backend.Services.{tier_services, namespace_of}
use bigfleet_demo.Backend.Demand.{
  clamp, Demand, patch_replicas, ensure_deployments, set_tier_replicas, total_weight, replicas_of,
}
use bigfleet_demo.Backend.Demand.Bundle.{bundle, bundle_near_level}
use bigfleet_demo.Backend.Demand.Levels.{level_of}
use bigfleet_demo.Backend.Fleet.{Listing, no_tally, tally_clusters, CapConfig, capacity_of}
use bigfleet_demo.Backend.Demand.Patches.{
  batch, production, Drive, last_level, drive_all, replayed, has_service,
}
use bigfleet_demo.Backend.Demand.Replay.{replicas_at, at_level, new_demand, drive_all_refines}
use bigfleet_demo.Backend.Feed.{
  FleetState, Feed, synthesize_feed, push_feed, add_line, add_lines, poll_lines, capacity_lines,
  batch_lines, node_lines, count_at, note_prev, copy_counts, note_nodes,
}
use bigfleet_demo.Backend.Feed.Length.{polls, narrates, feed_run}
use bigfleet_demo.Backend.Feed.Deltas.{lines_of, owned_after, feed_adds_up}
use bigfleet_demo.Backend.Feed.Sums.{sum_by, placed_by, reclaimed_by}
use bigfleet_demo.Backend.Nodes.{Node, instance_type_key}
use bigfleet_demo.Backend.Fleet.Counted.{Counted, poll-Counted}
use bigfleet_demo.Backend.Fleet.Providers.{Attributed, describe-Attributed}
use bigfleet_demo.Fakecloud.Catalog.{Instance}
use bigfleet_demo.Fakecloud.Multiplex.{new, describe}
use bigfleet_demo.Fakecloud.Sample.{kit, few}
use bigfleet_demo.Backend.Hub.{new_hub, HubStep, opens, broadcasts, takes, closes, hub_run}
use bigfleet_demo.Backend.Hub.Streams.{InCap}
use bigfleet_demo.Backend.Scenario.{ScenarioStep, launches, finishes, resets, at_rest, scenario_run}

abbrev id_a : Text
id_a = codes "aaaaa"

-- The clock of a session that was warm for a while, and then handed out at 100.
abbrev waiting : SessionClock
waiting = handle_all (map heartbeats (20 ∷ 40 ∷ [])) (new_session_clock id_a 3600 300 10)

abbrev later : List ClockRequest
later = heartbeats 350 ∷ begins 360 ∷ heartbeats 600 ∷ []

abbrev clock : SessionClock
clock = handle_all later (begin 100 waiting)

hard_deadline_fixed_example :
    (clock.started_at ≡ 100)
    × (clock.hard_deadline ≡ 100 + 3600)
    × (clock.begun ≡ true)
    × (clock.idle_timeout ≡ 300)
hard_deadline_fixed_example = hard_deadline_fixed id_a 3600 300 10 100 (20 ∷ 40 ∷ []) later

abbrev warm : Session
warm = record {
  id = id_a;
  port_base = 21000;
  url = [];
  created_at = 5;
  expires_at = 3605;
  reserved_mb = 2000;
  state = pooled;
  is_pooled = true;
  last_seen_ok = 90;
  assigned_at = none;
}

-- A visitor who comes at 100, and whose tab is open until the end.
abbrev visit : List Happening
visit =
    scans 99
    ∷ requests (begins 100)
    ∷ scans 130
    ∷ requests (heartbeats 350)
    ∷ scans 360
    ∷ requests (heartbeats 600)
    ∷ scans 800
    ∷ []

visitor_keeps_session_example :
    (happen_all visit (
      handle_all (map heartbeats (20 ∷ 40 ∷ [])) (new_session_clock id_a 3600 300 10),
      hand_out 3600 99 warm,
    )).1.state
    ≡ running
unfolding attended
visitor_keeps_session_example =
    visitor_keeps_session id_a 3600 300 10 99 (20 ∷ 40 ∷ []) visit warm refl

abbrev quiet : Demand
quiet = record { ensure_done = []; demand_level = []; calls = [] }

abbrev cl_a : Text
cl_a = codes "cluster-a"

abbrev cl_b : Text
cl_b = codes "cluster-b"

abbrev demand : Text
demand = codes "demand"

bundle_near_level_example :
    ((set_tier_replicas 7000 cl_a demand 3 quiet).calls
      ≡ (ensure_deployments cl_a quiet).calls
        ++ map
            (λ c. (cl_a, c))
            (map
              (λ svc.
                patch_replicas
                  (namespace_of demand)
                  svc
                  (replicas_of 21000 (total_weight (tier_services demand)) svc))
              (tier_services demand)))
    × (bundle 21000 demand ≤ 27500)
    × (21000 ≤ bundle 21000 demand + 6500)
bundle_near_level_example = bundle_near_level 7000 3 cl_a demand quiet

abbrev node : Text → Text → Bool → Node
node it billing up = record {
  conditions = record { is_ready_type = true; is_true = up } ∷ [];
  labels = (codes "bigfleet.demo/billing", billing) ∷ (instance_type_key, it) ∷ [];
}

abbrev listings : List Listing
listings =
    record {
      name = cl_a;
      dashboard = [];
      nodes = some (
          node (codes "bare-metal-8vcpu") (codes "owned") true
          ∷ node (codes "m5.2xlarge") (codes "spot") true
          ∷ node (codes "m5.2xlarge") [] false
          ∷ []);
      upcoming = none;
      pods = none;
    }
    ∷ []

poll-Counted_example : Counted (codes "GCP") listings (tally_clusters listings no_tally)
poll-Counted_example = poll-Counted (codes "GCP") listings

abbrev prices : CapConfig
prices = record { onprem = 2; cloud = 4; node_hourly = 38; spot_hourly = 12 }

describe-Attributed_example :
    (xs : List (Instance kit)) × (describe kit (new kit few) ≡ some xs) × All (Attributed kit) xs
describe-Attributed_example = describe-Attributed kit few

abbrev busy : List HubStep
busy = opens ∷ broadcasts (codes "x") ∷ opens ∷ takes 0 ∷ closes 1 ∷ []

abbrev beats : List ScenarioStep
beats =
    launches (codes "saturate")
    ∷ launches (codes "move")
    ∷ finishes 1
    ∷ resets
    ∷ launches (codes "critical")
    ∷ []

abbrev drives : List Drive
drives =
    record { cluster = cl_a; tier = production; level = 10 }
    ∷ record { cluster = cl_b; tier = batch; level = 40 }
    ∷ record { cluster = cl_a; tier = production; level = 4 }
    ∷ []

drive_all_refines_example :
    let s = drive_all 7000 drives new_demand in
    (level_of cl_a (codes "demand") s ≡ last_level drives cl_a production)
    × (replayed cl_a (namespace_of (codes "demand")) (codes "checkout") s.calls
        ≡ at_level
            (replicas_at 7000 production (codes "checkout"))
            (level_of cl_a (codes "demand") s))
unfolding has_service tier_services text_eq
drive_all_refines_example = drive_all_refines 7000 drives cl_a production (codes "checkout") refl

-- What a poll sees when this many committed nodes are in use.
abbrev polled_state : ℕ → FleetState
polled_state n = record {
  clusters = [];
  shard = (codes "preempt", n) ∷ [];
  fleet_by_cloud = [];
  clouds = [];
  fleet_size = 120;
  scenario = [];
  fleet_dashboard = [];
  capacity = capacity_of prices (record no_tally { committed_ready = n });
  feed = [];
  ts = codes "10:00:00";
}

abbrev no_feed : Feed
no_feed = record { feed = []; prev = []; prev_nodes = []; prev_batch = []; feed_primed = false }

feed_adds_up_example :
    let es = polls (polled_state 2) ∷ narrates [] (codes "x") ∷ polls (polled_state 0) ∷ [] in
    let end = feed_run (polls (polled_state 1) ∷ es) no_feed in
    (polled_state 1).capacity.onprem_in_use + sum_by placed_by (lines_of end.feed)
    ≡ owned_after (polled_state 1).capacity.onprem_in_use es
      + sum_by reclaimed_by (lines_of end.feed)
unfolding feed_run synthesize_feed push_feed add_line add_lines poll_lines capacity_lines
    batch_lines node_lines count_at note_prev lookup insert copy_counts text_eq capacity_of clamp
feed_adds_up_example =
    feed_adds_up (polled_state 1)
      (polls (polled_state 2) ∷ narrates [] (codes "x") ∷ polls (polled_state 0) ∷ []) no_feed refl
      (omega arith)

-- ===== src/Backend/Latest.antt =====
-- backend/cmd/demo-backend/main.go: the latest state that `pollLoop` keeps, and who reads it: the scenarios
-- and `GET /api/state`.
pub mod Settled
use bigfleet_demo.Common.{
  ℕ, List, [], ◌∷◌, map, Text, codes, text_eq, if◌then◌else◌, Option, some, none,
}
use bigfleet_demo.Common.Dict.{Dict}
use bigfleet_demo.Backend.Demand.{Demand}
use bigfleet_demo.Backend.Fleet.{
  ClusterState, Listing, poll_cluster, Capacity, CapConfig, capacity_of, tally_clusters, no_tally,
}
use bigfleet_demo.Backend.Dashboards.{fleet_link}
use bigfleet_demo.Backend.Scenario.{Scenarios}
use bigfleet_demo.Backend.Feed.{FleetState, Feed, publish, Published}

-- `setLatest`: what the variable `latest` is after it.
unfoldable pub set_latest : FleetState → FleetState → FleetState
set_latest st old = st

unfoldable pub cap_now : FleetState → Capacity
cap_now latest = latest.capacity

unfoldable pub nodes_at : Text → List ClusterState → ℕ
nodes_at name [] = 0
nodes_at name (c ∷ cs) = if text_eq c.name name then c.nodes else nodes_at name cs

unfoldable pub cluster_nodes_now : Text → FleetState → ℕ
cluster_nodes_now name latest = nodes_at name latest.clusters

-- What a round of `pollLoop` reads: the lists of the clusters, the counters of the shard, the clock.
pub record Round : Type 0 where
  pub listings : List Listing
  pub shard : Dict Text ℕ
  pub ts : Text

-- The arguments of `pollLoop`, and the address of the fleet's dashboard.
pub record Settings : Type 0 where
  pub cfg : CapConfig
  pub fleet_size : ℕ
  pub bigfleet_dashboard : Text

-- `cloudOrder`
abbrev pub cloud_order : List Text
cloud_order = codes "On-prem" ∷ codes "GCP" ∷ codes "AWS" ∷ []

-- The state that a round builds, before the feed is added; `scenario` is the one shown as running.
unfoldable pub fleet_state : Settings → Demand → Text → Round → FleetState
fleet_state k d scenario r =
    let tally = tally_clusters r.listings no_tally in
    record {
      clusters = map (poll_cluster d) r.listings;
      shard = r.shard;
      fleet_by_cloud = tally.fleet_by_cloud;
      clouds = cloud_order;
      fleet_size = k.fleet_size;
      capacity = capacity_of k.cfg tally;
      scenario = scenario;
      feed = [];
      ts = r.ts;
      fleet_dashboard = fleet_link k.bigfleet_dashboard;
    }

-- A round of `pollLoop`: the state that `latest` is then, and the variables of the feed.
unfoldable pub poll_round :
    Settings → Demand → Scenarios → Round → FleetState → Feed → FleetState × Feed
poll_round k d s r latest f =
    let out = publish (fleet_state k d s.cur_scenario r) f in
    (set_latest out.latest latest, out.after)

-- `GET /api/state`, as `backendPending` of the host decodes it.
unfoldable pub api_state : FleetState → Option (List ClusterState)
api_state latest = some latest.clusters

-- ===== src/Backend/Fleet.antt =====
-- backend/cmd/demo-backend/main.go: how `pollLoop` counts the nodes and pods of the clusters. Prices
-- are in hundredths; of a pod and an upcoming node stands what the loop reads.
pub mod Providers
pub mod Tallies
pub mod Counted
use bigfleet_demo.Common.{
  ℕ, zero, suc, ◌+◌, ◌-◌, ◌*◌, Bool, true, false, not, ◌&&◌, ◌||◌, Option, none, some, List, [],
  ◌∷◌, ◌++◌, Text, codes, text_eq, text_has_eq, if◌then◌else◌, length,
}
use bigfleet_demo.Common.Int.{ℤ, pos}
use bigfleet_demo.Common.Dict.{Dict, lookup, insert}
use bigfleet_demo.Backend.Nodes.{cloud_of, label, instance_type_key, node_tier, Node, node_ready}
use bigfleet_demo.Backend.Demand.{Demand, levels_of, clamp}

-- `m[k]++`
unfoldable pub bump : Text → Dict Text ℕ → Dict Text ℕ
bump k m = insert k (elim (lookup k m) [ none ↦ 1 | some n ↦ n + 1 ]) m

pub data Tier : Type 0 where
  committed spot on_demand : Tier

-- The switch over `nodeTier`.
unfoldable pub tier_of : Text → Tier
tier_of t =
    if text_eq t (codes "owned") || text_eq t (codes "reserved")
    then committed
    else if text_eq t (codes "spot")
    then spot
    else on_demand

-- The counters of one poll over the whole fleet.
pub record Tally : Type 0 where
  pub fleet_by_cloud : Dict Text ℕ
  pub committed_ready : ℕ
  pub cloud_ready : ℕ
  pub on_demand_ready : ℕ
  pub spot_ready : ℕ
  pub committed_by_prov : Dict Text ℕ
  pub cloud_by_prov : Dict Text ℕ
  pub committed_by_type : Dict Text ℕ
  pub cloud_by_type : Dict Text ℕ
  pub spot_by_type : Dict Text ℕ

abbrev pub no_tally : Tally
no_tally = record {
  fleet_by_cloud = [];
  committed_ready = 0;
  cloud_ready = 0;
  on_demand_ready = 0;
  spot_ready = 0;
  committed_by_prov = [];
  cloud_by_prov = [];
  committed_by_type = [];
  cloud_by_type = [];
  spot_by_type = [];
}

unfoldable pub count_tier : Tier → Text → Text → Tally → Tally
count_tier committed it prov t = record t {
  committed_ready = t.committed_ready + 1;
  committed_by_prov = bump prov t.committed_by_prov;
  committed_by_type = bump it t.committed_by_type;
}
count_tier spot it prov t = record t {
  cloud_ready = t.cloud_ready + 1;
  spot_ready = t.spot_ready + 1;
  cloud_by_prov = bump prov t.cloud_by_prov;
  spot_by_type = bump it t.spot_by_type;
}
count_tier on_demand it prov t = record t {
  cloud_ready = t.cloud_ready + 1;
  on_demand_ready = t.on_demand_ready + 1;
  cloud_by_prov = bump prov t.cloud_by_prov;
  cloud_by_type = bump it t.cloud_by_type;
}

-- One ready node.
unfoldable pub count_node : Dict Text Text → Tally → Tally
count_node labels t =
    let it = label instance_type_key labels in
    let prov = cloud_of it in
    count_tier (tier_of (node_tier labels)) it prov
      (record t { fleet_by_cloud = bump prov t.fleet_by_cloud })

unfoldable pub count_nodes : List Node → Tally → Tally
count_nodes [] t = t
count_nodes (n ∷ ns) t = count_nodes ns (if node_ready n then count_node n.labels t else t)

pub record Pod : Type 0 where
  pub node_name : Text
  pub tier : Text

pub record ClusterState : Type 0 where
  pub name : Text
  pub dashboard : Text
  pub nodes_by_cloud : Dict Text ℕ
  pub nodes : ℕ
  pub nodes_ready : ℕ
  pub provisioning : ℕ
  pub pods_running : ℕ
  pub pods_pending : ℕ
  pub batch_pending : ℕ
  pub baseline : ℕ
  pub demand : ℕ
  pub critical : ℕ

-- What the API server of a cluster lists; `none` where the call fails. Of an upcoming node, whether
-- its phase is `UpcomingNodeReady`.
pub record Listing : Type 0 where
  pub name : Text
  pub dashboard : Text
  pub nodes : Option (List Node)
  pub upcoming : Option (List Bool)
  pub pods : Option (List Pod)

unfoldable pub count_ready : List Node → ℕ
count_ready [] = 0
count_ready (n ∷ ns) = if node_ready n then 1 + count_ready ns else count_ready ns

-- `NodesByCloud`
unfoldable pub count_by_cloud : List Node → Dict Text ℕ → Dict Text ℕ
count_by_cloud [] m = m
count_by_cloud (n ∷ ns) m =
    count_by_cloud ns
      (if node_ready n then bump (cloud_of (label instance_type_key n.labels)) m else m)

unfoldable pub count_unready : List Bool → ℕ
count_unready [] = 0
count_unready (r ∷ rs) = if r then count_unready rs else 1 + count_unready rs

abbrev pub is_baseline : Pod → Bool
is_baseline p = text_eq p.tier (codes "baseline")

unfoldable pub count_pod : Pod → ClusterState → ClusterState
count_pod p cs =
    let placed : ClusterState = elim p.node_name [
      | [] ↦ record cs {
        pods_pending = cs.pods_pending + 1;
        batch_pending = cs.batch_pending + (if is_baseline p then 1 else 0);
      }
      | c ∷ s ↦ record cs { pods_running = cs.pods_running + 1 }
    ] in
    record placed { baseline = placed.baseline + (if is_baseline p then 1 else 0) }

unfoldable pub count_pods : List Pod → ClusterState → ClusterState
count_pods [] cs = cs
count_pods (p ∷ ps) cs = count_pods ps (count_pod p cs)

abbrev pub level_or_zero : Text → Text → Demand → ℕ
level_or_zero cl tier d = elim (lookup tier (levels_of cl d)) [ none ↦ 0 | some l ↦ l ]

unfoldable pub poll_cluster : Demand → Listing → ClusterState
poll_cluster d l =
    let listed : List Node = elim l.nodes [ none ↦ [] | some ns ↦ ns ] in
    let seen : List Pod = elim l.pods [ none ↦ [] | some ps ↦ ps ] in
    let counted = count_pods seen (record {
      name = l.name;
      dashboard = l.dashboard;
      nodes_by_cloud = count_by_cloud listed [];
      nodes = length listed;
      nodes_ready = count_ready listed;
      provisioning = elim l.upcoming [ none ↦ 0 | some us ↦ count_unready us ];
      pods_running = 0;
      pods_pending = 0;
      batch_pending = 0;
      baseline = 0;
      demand = 0;
      critical = 0;
    }) in
    record counted {
      demand = level_or_zero l.name (codes "demand") d;
      critical = level_or_zero l.name (codes "critical") d;
    }

unfoldable pub tally_clusters : List Listing → Tally → Tally
tally_clusters [] t = t
tally_clusters (l ∷ ls) t =
    tally_clusters ls (elim l.nodes [ none ↦ t | some ns ↦ count_nodes ns t ])

pub record CapConfig : Type 0 where
  pub onprem : ℕ
  pub cloud : ℕ
  pub node_hourly : ℕ
  pub spot_hourly : ℕ

-- The numbers of `capacity`; its maps are those of the tally.
pub record Capacity : Type 0 where
  pub onprem_total : ℕ
  pub onprem_in_use : ℕ
  pub onprem_idle : ℕ
  pub cloud_total : ℕ
  pub cloud_in_use : ℕ
  pub cloud_available : ℕ
  pub on_demand_in_use : ℕ
  pub spot_in_use : ℕ
  pub cost_per_hour : ℕ
  pub node_hourly : ℕ
  pub spot_hourly : ℕ

unfoldable pub capacity_of : CapConfig → Tally → Capacity
capacity_of cfg t =
    let onprem_in_use = clamp (pos t.committed_ready) 0 cfg.onprem in
    let cloud_in_use = clamp (pos t.cloud_ready) 0 cfg.cloud in
    record {
      onprem_total = cfg.onprem;
      onprem_in_use = onprem_in_use;
      onprem_idle = cfg.onprem - onprem_in_use;
      cloud_total = cfg.cloud;
      cloud_in_use = cloud_in_use;
      cloud_available = cfg.cloud - cloud_in_use;
      on_demand_in_use = t.on_demand_ready;
      spot_in_use = t.spot_ready;
      cost_per_hour = t.on_demand_ready * cfg.node_hourly + t.spot_ready * cfg.spot_hourly;
      node_hourly = cfg.node_hourly;
      spot_hourly = cfg.spot_hourly;
    }

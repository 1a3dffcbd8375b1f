-- ===== src/NodeCreator/Examples.antt =====
-- Runs of the controller on a few nodes.
mod Cluster
use bigfleet_demo.Common.{
  ℕ, ◌*◌, ◌≡◌, refl, Bool, true, false, none, some, List, [], ◌∷◌, arith, Text, codes, text_eq,
  text_has_eq,
}
use bigfleet_demo.Common.Dict.{lookup, insert, delete}
use bigfleet_demo.Common.Decimal.{decimal, padded, value_from}
use bigfleet_demo.Host.State.{second}
use bigfleet_demo.Host.Http.{cut_prefix, trim_prefix}
use bigfleet_demo.Backend.Nodes.{has_prefix, label, instance_type_key, node_tier}
use bigfleet_demo.Backend.Nodes
use bigfleet_demo.Backend.Fleet.Providers.{shown}
use bigfleet_demo.Fakecloud.Catalog.{machine_id}
use bigfleet_demo.NodeCreator.Names.{
  UpcomingNode, cloud_of, cloud_of_name, realistic_node_name, realistic_zone, trailing_num,
  leading_digits, atoi, name_for, onprem_name, gcp_name, padded2, b36,
}
use bigfleet_demo.NodeCreator.Names.Distinct.{upcoming, realistic_node_name-injective}
use bigfleet_demo.NodeCreator.Labels.{node_labels, managed_label, billing_key, zone_key, rack_key}
use bigfleet_demo.NodeCreator.Labels.Kept.{node_labels-shown}
use bigfleet_demo.NodeCreator.Tick.{
  Timing, Memory, KwokNode, Input, tick, mint, mint_one, note, is_set, finish_tick, no_minting,
  keep_live, tend_all, tend, reclaim, keep, correct, is_provisioning, first_seen, create,
}
use bigfleet_demo.NodeCreator.Tick.Watch.{IsDrained}
use bigfleet_demo.NodeCreator.Tick.Drain.{delete_after_drain}
use bigfleet_demo.NodeCreator.Tick.Asked.{wanted_in, seen_in}
use bigfleet_demo.NodeCreator.Tick.Wanted.{wanted_drains_again}
use bigfleet_demo.NodeCreator.Tick.Removed.{deletes_in, unwanted_removed}

abbrev timing : Timing
timing = record {
  dwell = record { min = 15 * second; max = 40 * second };
  drain_dwell = 20 * second;
  warmup_until = 0;
  node_pods = 110_000;
}

abbrev bare_metal : Text
bare_metal = codes "bare-metal-64"

abbrev host_name : Text
host_name = codes "bm-dc1-rack2-07"

abbrev no_memory : Memory
no_memory = record { first_ready = []; drain_at = [] }

abbrev host_node : KwokNode
host_node = record {
  name = host_name;
  labels = (managed_label, codes "true") ∷ [];
  is_unschedulable = false;
  allocatable = [];
}

-- Machine 7 is ready, and its node exists or not.
abbrev with_machine : ℕ → Bool → List KwokNode → Input
with_machine now is_there nodes = record {
  now = now;
  upcoming = some ((upcoming bare_metal 7, record { is_there = is_there; is_created = true }) ∷ []);
  nodes = some nodes;
}

abbrev without_machine : ℕ → Input
without_machine now = record { now = now; upcoming = some []; nodes = some (host_node ∷ []) }

abbrev unlisted : ℕ → Input
unlisted now = record { now = now; upcoming = none; nodes = some (host_node ∷ []) }

-- The node of machine 7 stands in rack 2 by its name and in rack 1 by its zone, where machine 1 does
-- too.
racks_differ :
    (realistic_node_name (upcoming bare_metal 1) ≡ codes "bm-dc1-rack2-01")
    × (realistic_zone (codes "onprem") 1 ≡ codes "dc1-rack-1")
unfolding realistic_node_name realistic_zone name_for onprem_name padded2 decimal padded machine_id
    cloud_of has_prefix cut_prefix trim_prefix label lookup trailing_num leading_digits atoi text_eq
    value_from
racks_differ = (refl, refl)

realistic_node_name-injective_example :
    let n : ℕ = 5 in (cloud_of (codes "n2-standard-4") ≡ cloud_of (codes "e2-small")) × (n ≡ n)
unfolding realistic_node_name name_for gcp_name b36 decimal padded machine_id cloud_of has_prefix
    cut_prefix trim_prefix label lookup trailing_num leading_digits atoi text_eq value_from
realistic_node_name-injective_example =
    realistic_node_name-injective (codes "n2-standard-4") (codes "e2-small") 5 5 (omega arith)
      (omega arith) refl

abbrev spot_machine : UpcomingNode
spot_machine = record {
  name = codes "un-aws-0031";
  is_ready = true;
  labels =
      (instance_type_key, codes "m6i.large")
      ∷ (rack_key, codes "r1")
      ∷ (billing_key, codes "spot")
      ∷ (zone_key, codes "us-east-1a")
      ∷ [];
  resources = [];
  taints = [];
}

node_labels-shown_example :
    (bigfleet_demo.Backend.Nodes.cloud_of (label instance_type_key (node_labels spot_machine))
      ≡ shown (cloud_of_name (realistic_node_name spot_machine)))
    × (node_tier (node_labels spot_machine) ≡ node_tier spot_machine.labels)
unfolding lookup text_eq
node_labels-shown_example = node_labels-shown spot_machine (refl, (refl, (refl, (refl, tt))))

delete_after_drain_example :
    IsDrained timing host_name
      (without_machine (100 * second)
        ∷ without_machine (110 * second)
        ∷ without_machine (125 * second)
        ∷ [])
      no_memory
      none
unfolding lookup
delete_after_drain_example =
    delete_after_drain timing host_name
      (without_machine (100 * second)
        ∷ without_machine (110 * second)
        ∷ without_machine (125 * second)
        ∷ [])
      no_memory refl

-- The list of nodes as the controller made it, with the drain of the host's node under way.
abbrev drained_memory : Memory
drained_memory = record { first_ready = []; drain_at = (host_name, 90 * second) ∷ [] }

abbrev wanted_tick : Input
wanted_tick = with_machine (100 * second) true (host_node ∷ [])

wanted_drains_again_example :
    IsDrained timing host_name
      (without_machine (110 * second) ∷ without_machine (140 * second) ∷ [])
      (tick timing wanted_tick drained_memory).memory
      none
unfolding wanted_in seen_in tick mint mint_one note is_set finish_tick no_minting keep_live tend_all
    tend reclaim keep correct is_provisioning first_seen create insert delete realistic_node_name
    name_for onprem_name padded2 decimal padded machine_id cloud_of has_prefix cut_prefix
    trim_prefix label lookup trailing_num leading_digits atoi text_eq value_from
wanted_drains_again_example =
    wanted_drains_again host_name timing wanted_tick drained_memory
      ((upcoming bare_metal 7, record { is_there = true; is_created = true }) ∷ []) (host_node ∷ [])
      (without_machine (110 * second) ∷ without_machine (140 * second) ∷ []) refl refl refl refl
      refl

-- The machine was first seen ready 50 seconds ago.
abbrev provisioning : Memory
provisioning = record { first_ready = (codes "un-onprem-0007", 50 * second) ∷ []; drain_at = [] }

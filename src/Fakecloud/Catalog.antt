-- ===== src/Fakecloud/Catalog.antt =====
-- providers/fakecloud/catalog.go: what a fake cloud advertises. Prices and probabilities, which the
-- source writes as decimal fractions, are in hundredths.
use bigfleet_demo.Common.{
  ℕ, zero, suc, ◌+◌, ◌%◌, ◌≢◌, Option, none, some, List, [], ◌∷◌, ◌++◌, Text, codes, if◌then◌else◌,
  length, get_elem?, Eq, text_has_eq,
}
use bigfleet_demo.Common.Decimal.{padded}
use bigfleet_demo.Common.Dict.{Dict, insert}

-- What the package takes from providerkit: its enumerations.
pub record Kit : Type 1 where
  pub State : Type 0
  pub CapacityType : Type 0
  pub state_eq : Eq State
  pub idle : State
  pub speculative : State
  pub idle-ne-speculative : idle ≢ speculative
  pub bare_metal : CapacityType
  pub reserved : CapacityType
  pub on_demand : CapacityType
  pub spot : CapacityType

abbrev pub node_resources : Dict Text Text
node_resources = (codes "cpu", codes "8") ∷ (codes "memory", codes "32Gi") ∷ []

abbrev pub node_allocatable : Dict Text Text
node_allocatable = (codes "cpu", codes "7500m") ∷ (codes "memory", codes "28Gi") ∷ []

unfoldable pub clone_map : Dict Text Text → Dict Text Text
clone_map [] = []
clone_map ((k, v) ∷ m) = insert k v (clone_map m)

abbrev pub price_reserved : ℕ
price_reserved = 0

abbrev pub price_bare_metal : ℕ
price_bare_metal = 0

abbrev pub price_on_demand : ℕ
price_on_demand = 38

abbrev pub price_spot_aws : ℕ
price_spot_aws = 12

abbrev pub price_spot_gcp : ℕ
price_spot_gcp = 10

abbrev pub prob_on_demand : ℕ
prob_on_demand = 5

abbrev pub prob_spot : ℕ
prob_spot = 30

pub record HostRef : Type 0 where
  pub provider : Text
  pub ref : Text

-- The fields of `providerkit.Instance` that the catalog sets. No host: the zero `HostRef`.
pub record Instance (k : Kit) : Type 0 where
  pub id : Text
  pub state : k.State
  pub instance_type : Text
  pub zone : Text
  pub capacity_type : k.CapacityType
  pub price_per_hour : ℕ
  pub interruption_probability : ℕ
  pub resources : Dict Text Text
  pub allocatable : Dict Text Text
  pub labels : Dict Text Text
  pub host : Option HostRef

pub record Tier (k : Kit) : Type 0 where
  pub count : ℕ
  pub instance_type : Text
  pub capacity : k.CapacityType
  pub price : ℕ
  pub interrupt : ℕ
  pub state : k.State
  pub billing : Text

pub record Catalog (k : Kit) : Type 0 where
  pub cloud : Text
  pub zones : List Text
  pub tiers : List (Tier k)

-- `c.Zones[n%len(c.Zones)]`, or the empty text where there is no zone.
unfoldable pub zone_of : List Text → ℕ → Text
zone_of zones n = elim (get_elem? zones (n % length zones)) [ none ↦ [] | some z ↦ z ]

-- `fmt.Sprintf("%s-%04d", cloud, n)`
unfoldable pub machine_id : Text → ℕ → Text
machine_id cloud n = cloud ++ (b'-' ∷ padded n)

module _ (k : Kit) where
  -- The body of the loop for machine `n`.
  unfoldable pub instance_of : Catalog k → Tier k → ℕ → Instance k
  unfolding zone_of clone_map
  instance_of c t n =
      let id = machine_id c.cloud n in
      let zone = zone_of c.zones n in
      record {
        id = id;
        state = t.state;
        instance_type = t.instance_type;
        zone = zone;
        capacity_type = t.capacity;
        price_per_hour = t.price;
        interruption_probability = t.interrupt;
        resources = clone_map node_resources;
        allocatable = clone_map node_allocatable;
        labels =
            (codes "node.kubernetes.io/instance-type", t.instance_type)
            ∷ (codes "topology.kubernetes.io/zone", zone)
            ∷ (codes "bigfleet.demo/simulated", codes "true")
            ∷ (codes "bigfleet.demo/billing", t.billing)
            ∷ [];
        host =
            if k.state_eq.same t.state k.idle
            then some (record { provider = c.cloud; ref = id })
            else none;
      }

  -- `for i := 0; i < t.count; i++`: `left` machines are to come, and `n` is the next number.
  unfoldable pub tier_instances : Catalog k → Tier k → ℕ → ℕ → List (Instance k)
  tier_instances c t zero n = []
  tier_instances c t (suc left) n = instance_of c t n ∷ tier_instances c t left (n + 1)

  unfoldable pub tiers_instances : Catalog k → List (Tier k) → ℕ → List (Instance k)
  tiers_instances c [] n = []
  tiers_instances c (t ∷ ts) n = tier_instances c t t.count n ++ tiers_instances c ts (n + t.count)

  unfoldable pub instances : Catalog k → List (Instance k)
  instances c = tiers_instances c c.tiers 0

  unfoldable pub onprem_catalog : ℕ → Catalog k
  onprem_catalog baremetal = record {
    cloud = codes "onprem";
    zones = codes "dc1-rack-1" ∷ codes "dc1-rack-2" ∷ codes "dc1-rack-3" ∷ [];
    tiers =
        record {
          count = baremetal;
          instance_type = codes "bare-metal-8vcpu";
          capacity = k.bare_metal;
          price = price_bare_metal;
          interrupt = 0;
          state = k.idle;
          billing = codes "owned";
        }
        ∷ [];
  }

  unfoldable pub aws_catalog : ℕ → ℕ → ℕ → Catalog k
  aws_catalog reserved ondemand spot = record {
    cloud = codes "aws";
    zones = codes "us-east-1a" ∷ codes "us-east-1b" ∷ codes "us-east-1c" ∷ [];
    tiers =
        record {
          count = reserved;
          instance_type = codes "m6i.2xlarge";
          capacity = k.reserved;
          price = price_reserved;
          interrupt = 0;
          state = k.idle;
          billing = codes "reserved";
        }
        ∷ record {
          count = ondemand;
          instance_type = codes "m5.2xlarge";
          capacity = k.on_demand;
          price = price_on_demand;
          interrupt = prob_on_demand;
          state = k.speculative;
          billing = codes "on-demand";
        }
        ∷ record {
          count = spot;
          instance_type = codes "m5.2xlarge";
          capacity = k.spot;
          price = price_spot_aws;
          interrupt = prob_spot;
          state = k.speculative;
          billing = codes "spot";
        }
        ∷ [];
  }

  unfoldable pub gcp_catalog : ℕ → ℕ → Catalog k
  gcp_catalog ondemand spot = record {
    cloud = codes "gcp";
    zones = codes "us-central1-a" ∷ codes "us-central1-b" ∷ codes "us-central1-c" ∷ [];
    tiers =
        record {
          count = ondemand;
          instance_type = codes "n2-standard-8";
          capacity = k.on_demand;
          price = price_on_demand;
          interrupt = prob_on_demand;
          state = k.speculative;
          billing = codes "on-demand";
        }
        ∷ record {
          count = spot;
          instance_type = codes "n2-standard-8";
          capacity = k.spot;
          price = price_spot_gcp;
          interrupt = prob_spot;
          state = k.speculative;
          billing = codes "spot";
        }
        ∷ [];
  }

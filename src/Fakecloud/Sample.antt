-- ===== src/Fakecloud/Sample.antt =====
-- A small fleet, with enumerations that stand for those of providerkit.
use bigfleet_demo.Common.{◌≡◌, ◌≢◌, ◌↔◌, Bool, true, false, arith}
use bigfleet_demo.Fakecloud.Catalog.{Kit}
use bigfleet_demo.Fakecloud.Multiplex.{Options}

pub data Phase : Type 0 where
  idle_phase : Phase
  speculative_phase : Phase

pub data Market : Type 0 where
  bare_metal_market : Market
  reserved_market : Market
  on_demand_market : Market
  spot_market : Market

abbrev pub same_phase : Phase → Phase → Bool
same_phase idle_phase idle_phase = true
same_phase idle_phase speculative_phase = false
same_phase speculative_phase idle_phase = false
same_phase speculative_phase speculative_phase = true

pub same_phase_iff : (a b : Phase) → (same_phase a b ≡ true) ↔ (a ≡ b)
same_phase_iff idle_phase idle_phase = ground arith
same_phase_iff idle_phase speculative_phase = ground arith
same_phase_iff speculative_phase idle_phase = ground arith
same_phase_iff speculative_phase speculative_phase = ground arith

pub idle-ne-speculative : idle_phase ≢ speculative_phase
idle-ne-speculative e = ground (arith, e)

abbrev pub kit : Kit
kit = record {
  State = Phase;
  CapacityType = Market;
  state_eq = record { same = same_phase; same_iff = same_phase_iff };
  idle = idle_phase;
  speculative = speculative_phase;
  idle-ne-speculative = idle-ne-speculative;
  bare_metal = bare_metal_market;
  reserved = reserved_market;
  on_demand = on_demand_market;
  spot = spot_market;
}

abbrev pub few : Options
few = record {
  onprem_bare_metal = 2;
  aws_reserved = 1;
  aws_on_demand = 2;
  aws_spot = 1;
  gcp_on_demand = 1;
  gcp_spot = 1;
}

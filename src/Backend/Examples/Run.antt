-- ===== src/Backend/Examples/Run.antt =====
-- A backend at work, at small inputs.
use bigfleet_demo.Common.{
  ◌≤◌, Text, true, false, List, [], ◌∷◌, none, some, map, ◌++◌, ◌≡◌, refl, text_has_eq, arith,
  codes, length, All,
}
use bigfleet_demo.Common.Int.{pos}
use bigfleet_demo.Backend.Fleet.{Listing}
use bigfleet_demo.Backend.Latest.{Round}
use bigfleet_demo.Backend.Scenario.{Observed}
use bigfleet_demo.Backend.Scenario.Current.{OneLive}
use bigfleet_demo.Backend.Handlers.{limited}
use bigfleet_demo.Backend.Limiter.{allow, refill, new_rate_limiter, write_limiter}
use bigfleet_demo.Backend.Startup.{default_flags, Connection, names_of, empty_feed}
use bigfleet_demo.Backend.World.{
  Site, first_running, demand_request, scenario_request, reset_request, BackendEvent, asks, goes_on,
  polls, backend_run, answer_write, respond, serve_write, zero_state, Running,
}
use bigfleet_demo.Backend.World.Range.{InRange}
use bigfleet_demo.Backend.World.Rest.{levels_shown, at_rest_levels, IsAtRest, reset_shows_rest}
use bigfleet_demo.Backend.World.Runs.{backend_run-InRange}
use bigfleet_demo.Backend.World.Shown.{IsShown}
use bigfleet_demo.Backend.Examples.{listings}

abbrev connection : Text → Connection
connection name = record {
  workspace = record { name = name; dashboard = []; bearer_token = []; token_file = none };
  has_config = true;
  has_client = true;
}

abbrev site : Site
site = record {
  flags = default_flags;
  file = record {
    shard_metrics = [];
    bigfleet_dashboard = [];
    workspaces = connection (codes "cluster-a") ∷ connection (codes "cluster-b") ∷ [];
  };
  words = λ line. [];
}

abbrev drained : Observed
drained = record {
  is_cancelled = false;
  cloud_in_use = 0;
  donor_demand = 16;
  has_drained = true;
  is_free = true;
}

-- A move that a reset cancels and that goes on, and a request beyond the range.
abbrev day : List BackendEvent
day =
    polls (record { listings = listings; shard = []; ts = [] })
    ∷ asks 10 (scenario_request (codes "move") drained)
    ∷ goes_on [] 0
    ∷ asks 20 reset_request
    ∷ goes_on [] 0
    ∷ asks 30 (demand_request (codes "cluster-b") (pos 99) (codes "critical"))
    ∷ polls (record { listings = listings; shard = []; ts = [] })
    ∷ []

backend_run-InRange_example :
    let w = backend_run site day (first_running site 0) in
    InRange 6 w.demand
    × All IsShown w.latest.clusters
    × (length w.feed.feed ≤ 40)
    × OneLive w.scenarios
backend_run-InRange_example = backend_run-InRange site (omega arith) day 0

abbrev bare : Text → Listing
bare name = record { name = name; dashboard = []; nodes = some []; upcoming = none; pods = some [] }

abbrev two_clusters : Round
two_clusters = record {
  listings = bare (codes "cluster-a") ∷ bare (codes "cluster-b") ∷ [];
  shard = [];
  ts = [];
}

-- A backend whose visitor has driven a cluster up and started a scenario.
abbrev driven : Running
driven = record {
  demand = record {
    ensure_done = [];
    demand_level = (codes "cluster-b", (codes "demand", 40) ∷ []) ∷ [];
    calls = [];
  };
  scenarios = record {
    scen_cancel = some 1;
    cur_scenario = codes "saturate";
    scen_gen = 1;
    cancelled = [];
  };
  limiter = write_limiter 0;
  latest = zero_state;
  feed = empty_feed;
  goroutines = [];
}

reset_shows_rest_example :
    let w' =
      backend_run site
        (map polls (two_clusters ∷ []) ++ (polls two_clusters ∷ []))
        (answer_write site 40 reset_request driven).1 in
    (w'.latest.scenario ≡ [])
    × (map levels_shown w'.latest.clusters ≡ at_rest_levels 16 (codes "cluster-b" ∷ []))
    × IsAtRest 6 16 (codes "cluster-a") (codes "cluster-b" ∷ []) w'.demand
unfolding names_of answer_write serve_write respond limited allow refill new_rate_limiter
reset_shows_rest_example =
    reset_shows_rest site (codes "cluster-a") (codes "cluster-b" ∷ []) 40 driven (two_clusters ∷ [])
      two_clusters refl (((λ e. ground (arith, e)), tt), (tt, tt)) refl refl

-- ===== src/Backend/Startup.antt =====
-- backend/cmd/demo-backend/main.go: `loadSession` and `main` up to the server: the flags, the clusters
-- of the session file, the mounts of the dashboards, the clock and the demand at rest. Prices are in
-- hundredths.
use bigfleet_demo.Common.{
  ℕ, ◌*◌, Bool, false, not, Option, none, some, List, [], ◌∷◌, map, Text, codes, if◌then◌else◌,
}
use bigfleet_demo.Host.State.{second}
use bigfleet_demo.Host.Http.{is_empty}
use bigfleet_demo.Backend.Clock.{SessionClock, new_session_clock}
use bigfleet_demo.Backend.Dashboards.{Workspace, DashMount, dash_mounts, dash_url, fleet_link}
use bigfleet_demo.Backend.Demand.{Demand, seed_busy_fleet}
use bigfleet_demo.Backend.Feed.{Feed}
use bigfleet_demo.Backend.Fleet.{CapConfig}
use bigfleet_demo.Backend.Hub.{Hub, new_hub}
use bigfleet_demo.Backend.Limiter.{RateLimiter, write_limiter}
use bigfleet_demo.Backend.Scenario.{Scenarios, at_rest}

pub record Flags : Type 0 where
  pub addr : Text
  pub baseline : ℕ
  pub donor_demand : ℕ
  pub fleet_size : ℕ
  pub onprem_size : ℕ
  pub cloud_size : ℕ
  pub cloud_node_hourly : ℕ
  pub spot_node_hourly : ℕ
  pub node_budget_cpu : ℕ
  pub session_id : Text
  pub session_ttl : ℕ
  pub idle_timeout : ℕ

-- The flags where none is given.
abbrev pub default_flags : Flags
default_flags = record {
  addr = codes ":8090";
  baseline = 6;
  donor_demand = 16;
  fleet_size = 120;
  onprem_size = 48;
  cloud_size = 72;
  cloud_node_hourly = 38;
  spot_node_hourly = 11;
  node_budget_cpu = 7000;
  session_id = [];
  session_ttl = 3600 * second;
  idle_timeout = 300 * second;
}

-- A workspace of the session file: whether its kubeconfig can be read, and a client be made of it.
pub record Connection : Type 0 where
  pub workspace : Workspace
  pub has_config : Bool
  pub has_client : Bool

pub record SessionFile : Type 0 where
  pub shard_metrics : Text
  pub bigfleet_dashboard : Text
  pub workspaces : List Connection

-- What `die` says.
pub data Fault : Type 0 where
  session : Fault
  kubeconfig client : Text → Fault

-- The first workspace that cannot be reached.
unfoldable pub first_fault : List Connection → Option Fault
first_fault [] = none
first_fault (c ∷ cs) =
    let rest = first_fault cs in
    if not c.has_config
    then some (kubeconfig c.workspace.name)
    else if not c.has_client
    then some (client c.workspace.name)
    else rest

-- The variables of the backend when its server begins to listen.
pub record Backend : Type 0 where
  pub clock : Option SessionClock
  pub clusters : List (Text × Text)
  pub mounts : List DashMount
  pub fleet_dashboard : Text
  pub demand : Demand
  pub scenarios : Scenarios
  pub feed : Feed
  pub hub : Hub
  pub limiter : RateLimiter
  pub cfg : CapConfig

pub data Startup : Type 0 where
  died : Fault → Startup
  serving : Backend → Startup

-- There is a clock where the backend is that of a hosted session.
unfoldable pub clock_of : Flags → ℕ → Option SessionClock
clock_of f now =
    if is_empty f.session_id
    then none
    else some (new_session_clock f.session_id f.session_ttl f.idle_timeout now)

abbrev pub no_demand : Demand
no_demand = record { ensure_done = []; demand_level = []; calls = [] }

abbrev pub empty_feed : Feed
empty_feed = record { feed = []; prev = []; prev_nodes = []; prev_batch = []; feed_primed = false }

unfoldable pub names_of : List Connection → List Text
names_of [] = []
names_of (c ∷ cs) = c.workspace.name ∷ names_of cs

unfoldable pub backend_of : Flags → SessionFile → ℕ → Backend
unfolding clock_of
backend_of f s now =
    let ws = map (λ (c : Connection). c.workspace) s.workspaces in
    record {
      clock = clock_of f now;
      clusters = map (λ (w : Workspace). (w.name, dash_url w)) ws;
      mounts = dash_mounts ws s.bigfleet_dashboard;
      fleet_dashboard = fleet_link s.bigfleet_dashboard;
      demand =
          seed_busy_fleet f.node_budget_cpu (names_of s.workspaces) f.baseline f.donor_demand
            no_demand;
      scenarios = at_rest;
      feed = empty_feed;
      hub = new_hub;
      limiter = write_limiter now;
      cfg = record {
        onprem = f.onprem_size;
        cloud = f.cloud_size;
        node_hourly = f.cloud_node_hourly;
        spot_hourly = f.spot_node_hourly;
      };
    }

-- `file`: the session file, `none` where it cannot be read or is no JSON.
unfoldable pub start : Flags → Option SessionFile → ℕ → Startup
start f none now = died session
start f (some s) now = elim (first_fault s.workspaces) [
  | none ↦ serving (backend_of f s now)
  | some fault ↦ died fault
]

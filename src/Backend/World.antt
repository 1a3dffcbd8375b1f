-- ===== src/Backend/World.antt =====
-- backend/cmd/demo-backend/main.go: a backend at work. The requests of its visitor, the goroutines of the
-- scenarios and the rounds of `pollLoop` come in any order; each is a step on the variables they share.
-- The goroutine of a scenario is the actions it has left, so that those of a cancelled one, and of one
-- that a reset ends, come between the steps of the others. A reset is one step.
pub mod Range
pub mod Actions
pub mod Shown
pub mod Sound
pub mod Runs
pub mod Rest
use bigfleet_demo.Common.{ℕ, zero, suc, Option, none, some, List, [], ◌∷◌, ◌++◌, Text}
use bigfleet_demo.Common.Int.{ℤ}
use bigfleet_demo.Backend.Demand.{Demand, set_tier_replicas, demand_handler}
use bigfleet_demo.Backend.Feed.{FleetState, Feed}
use bigfleet_demo.Backend.Fleet.{Capacity}
use bigfleet_demo.Backend.Feed
use bigfleet_demo.Backend.Handlers.{reset_handler, limited}
use bigfleet_demo.Backend.Latest.{Settings, Round, poll_round}
use bigfleet_demo.Backend.Limiter.{RateLimiter}
use bigfleet_demo.Backend.Scenario.{
  Scenarios, Line, Action, push_feed, set_level, Observed, launch, finish, run_scenario,
}
use bigfleet_demo.Backend.Startup.{Flags, SessionFile, Backend, backend_of, names_of}

-- What a backend is started with, and what the lines of the scenarios say.
pub record Site : Type 0 where
  pub flags : Flags
  pub file : SessionFile
  pub words : Line → Text

abbrev pub clusters_of : Site → List Text
clusters_of k = names_of k.file.workspaces

-- A goroutine of `scenarioHandler`: its generation, and what `runScenario` has left to do.
pub record Goroutine : Type 0 where
  pub gen : ℕ
  pub todo : List Action

pub record Running : Type 0 where
  pub demand : Demand
  pub scenarios : Scenarios
  pub limiter : RateLimiter
  pub latest : FleetState
  pub feed : Feed
  pub goroutines : List Goroutine

-- `latest` before the first round of `pollLoop`: the zero value.
abbrev pub zero_state : FleetState
zero_state = record {
  clusters = [];
  shard = [];
  fleet_by_cloud = [];
  clouds = [];
  fleet_size = 0;
  capacity = record {
    onprem_total = 0;
    onprem_in_use = 0;
    onprem_idle = 0;
    cloud_total = 0;
    cloud_in_use = 0;
    cloud_available = 0;
    on_demand_in_use = 0;
    spot_in_use = 0;
    cost_per_hour = 0;
    node_hourly = 0;
    spot_hourly = 0;
  };
  scenario = [];
  feed = [];
  ts = [];
  fleet_dashboard = [];
}

unfoldable pub first_running : Site → ℕ → Running
first_running k now =
    let b = backend_of k.flags k.file now in
    record {
      demand = b.demand;
      scenarios = b.scenarios;
      limiter = b.limiter;
      latest = zero_state;
      feed = b.feed;
      goroutines = [];
    }

pub data WriteRequest : Type 0 where
  demand_request : Text → ℤ → Text → WriteRequest
  scenario_request : Text → Observed → WriteRequest
  reset_request : WriteRequest

-- The goroutine that a scenario starts, by what it will see of the fleet. Without a cluster the critical
-- scenario ends the process; there is none here.
unfoldable pub goroutine_of : Site → Text → Observed → ℕ → List Goroutine
goroutine_of k name o g = elim (run_scenario (clusters_of k) name o) [
  | none ↦ []
  | some acts ↦ record { gen = g; todo = acts } ∷ []
]

-- The handlers behind `limited`; `none` is the answer 400.
unfoldable pub serve_write : Site → WriteRequest → Running → Option Running
serve_write k (demand_request workspace level tier) w =
    elim (demand_handler k.flags.node_budget_cpu (clusters_of k) workspace level tier w.demand) [
      | none ↦ none
      | some d ↦ some (record w { demand = d })
    ]
serve_write k (scenario_request name o) w = elim (launch name w.scenarios) [
  | none ↦ none
  | some s ↦
      some
        (record w { scenarios = s; goroutines = goroutine_of k name o s.scen_gen ++ w.goroutines })
]
serve_write k reset_request w =
    let (s, d) =
      reset_handler k.flags.node_budget_cpu (clusters_of k) k.flags.baseline k.flags.donor_demand
        w.scenarios w.demand in
    some (record w { scenarios = s; demand = d })

-- What `limited` and the handler behind it answer: the status, and the variables after it.
unfoldable pub respond : RateLimiter → Running → Option (Option Running) → ℕ × Running
respond rl w none = (429, record w { limiter = rl })
respond rl w (some none) = (400, record w { limiter = rl })
respond rl w (some (some w')) = (200, record w' { limiter = rl })

-- A request at the write endpoints.
unfoldable pub answer_write : Site → ℕ → WriteRequest → Running → ℕ × Running
answer_write k now req w =
    let (passed, rl) = limited now w.limiter (serve_write k req w) in respond rl w passed

-- One action of a scenario; `ts` is the time that `pushFeed` prints.
unfoldable pub act : Site → Text → Action → Running → Running
act k ts (push_feed line) w = record w { feed = Feed.push_feed ts (k.words line) w.feed }
act k ts (set_level cl tier level) w = record w {
  demand = set_tier_replicas k.flags.node_budget_cpu cl tier level w.demand;
}

-- The goroutine at an index, and the others.
unfoldable pub pick : ℕ → List Goroutine → Option (Goroutine × List Goroutine)
pick n [] = none
pick zero (g ∷ gs) = some (g, gs)
pick (suc n) (g ∷ gs) = elim (pick n gs) [ none ↦ none | some p ↦ some (p.0, g ∷ p.1) ]

-- A goroutine goes on: its next action, or what it does after the last.
unfoldable pub go_on : Site → Text → Goroutine → Running → Running
go_on k ts g w = elim g.todo [
  | [] ↦ record w { scenarios = finish g.gen w.scenarios }
  | a ∷ acts ↦
      let w' = act k ts a w in
      record w' { goroutines = record { gen = g.gen; todo = acts } ∷ w.goroutines }
]

pub data BackendEvent : Type 0 where
  asks : ℕ → WriteRequest → BackendEvent
  goes_on : Text → ℕ → BackendEvent
  polls : Round → BackendEvent

unfoldable pub settings_of : Site → Settings
settings_of k = record {
  cfg = (backend_of k.flags k.file 0).cfg;
  fleet_size = k.flags.fleet_size;
  bigfleet_dashboard = k.file.bigfleet_dashboard;
}

unfoldable pub backend_step : Site → BackendEvent → Running → Running
backend_step k (asks now req) w = (answer_write k now req w).1
backend_step k (goes_on ts n) w = elim (pick n w.goroutines) [
  | none ↦ w
  | some p ↦ go_on k ts p.0 (record w { goroutines = p.1 })
]
backend_step k (polls r) w =
    let (latest, feed) = poll_round (settings_of k) w.demand w.scenarios r w.latest w.feed in
    record w { latest = latest; feed = feed }

unfoldable pub backend_run : Site → List BackendEvent → Running → Running
backend_run k [] w = w
backend_run k (e ∷ es) w = backend_run k es (backend_step k e w)

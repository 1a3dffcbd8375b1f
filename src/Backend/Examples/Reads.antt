-- ===== src/Backend/Examples/Reads.antt =====
-- What is read of a backend and done through it, at small inputs.
use bigfleet_demo.Common.{
  ℕ, ◌+◌, ◌*◌, ◌≡◌, refl, ◌↔◌, ◌≢◌, Bool, true, false, none, some, List, [], ◌∷◌, ◌++◌, map, arith,
  codes, text_eq, text_has_eq,
}
use bigfleet_demo.Common.Dict.{lookup}
use bigfleet_demo.Host.State.{Config, Session, Host, running, second}
use bigfleet_demo.Host.Http.{bearer, forward, session_proxy}
use bigfleet_demo.Host.Settle.{settled_down, wait_for_settle}
use bigfleet_demo.Backend.Dashboards.{DashMount, Outgoing, direct}
use bigfleet_demo.Backend.Dashboards.Paths.{visitor_reaches_dashboard}
use bigfleet_demo.Backend.Demand.Replay.{new_demand}
use bigfleet_demo.Backend.Latest.{Settings, Round, fleet_state}
use bigfleet_demo.Backend.Latest.Settled.{Look, poll_of, up_twice, settles_on_lists}
use bigfleet_demo.Backend.Scenario.{at_rest}
use bigfleet_demo.Backend.Startup.{empty_feed}
use bigfleet_demo.Backend.Wait.{wait_for}
use bigfleet_demo.Backend.Wait
use bigfleet_demo.Backend.Wait.Ends.{any_holds, looked_at, wait_for_ends}
use bigfleet_demo.Backend.Examples.{id_a, listings, prices, warm}

abbrev up_session : Session
up_session = record warm { state = running }

abbrev no_config : Config
no_config = record {
  addr = [];
  repo = [];
  advertise = [];
  key = [];
  port_base = 21000;
  stride = 16;
  max_sessions = 1;
  demo_budget_mb = 4000;
  session_mb = 2000;
  ttl = 3600;
  idle = 300;
  dashboards = true;
  warm_pool = 0;
  warm_settle = 60;
  warm_max_age = 1800;
}

abbrev one_session : Host
one_session = record {
  cfg = no_config;
  sessions = (id_a, up_session) ∷ [];
  used_bases = (21000, true) ∷ [];
  completions = [];
  machine_mb = 16000;
  mem_actual_mb = 0;
  mem_sampled_at = none;
  pool_in_flight = 0;
}

abbrev mount_a : DashMount
mount_a = record {
  prefix = codes "/dash/a";
  target = codes "http://127.0.0.1:9";
  token = codes "t";
}

abbrev outgoing : Outgoing
outgoing = record { host = []; path = []; accept_encoding = []; authorization = [] }

visitor_reaches_dashboard_example :
    (session_proxy id_a (codes "/s/" ++ (id_a ++ (codes "/dash/a" ++ codes "/api"))) one_session
      ≡ forward up_session.port_base (codes "/dash/a" ++ codes "/api"))
    × ((direct mount_a [] (record outgoing { path = codes "/dash/a" ++ codes "/api" })).path
        ≡ codes "/api")
    × (codes "t" ≢ []
        → (direct mount_a []
            (record outgoing { path = codes "/dash/a" ++ codes "/api" })).authorization
          ≡ bearer ++ codes "t")
unfolding lookup text_eq
visitor_reaches_dashboard_example =
    visitor_reaches_dashboard one_session id_a up_session mount_a b'/' (codes "dash/a")
      (codes "api") [] outgoing refl refl refl

abbrev rounds : List Wait.Round
rounds =
    record { now = 100 * second; is_cancelled = false; holds = false }
    ∷ record { now = 102 * second; is_cancelled = false; holds = true }
    ∷ record { now = 104 * second; is_cancelled = true; holds = false }
    ∷ []

wait_for_ends_example :
    wait_for (100 * second) (4 * second) rounds
    ≡ some (any_holds (looked_at (100 * second + 4 * second) rounds))
wait_for_ends_example = wait_for_ends (100 * second) (4 * second) rounds (omega arith) (omega arith)

abbrev settings : Settings
settings = record { cfg = prices; fleet_size = 120; bigfleet_dashboard = [] }

abbrev round : Round
round = record { listings = listings; shard = []; ts = [] }

abbrev look : Bool → ℕ → Look
look is_answered now = record {
  now = now;
  is_answered = is_answered;
  demand = new_demand;
  round = round;
  scenarios = at_rest;
  latest = fleet_state settings new_demand [] round;
  feed = empty_feed;
}

settles_on_lists_example :
    (wait_for_settle 100 60
        (map (poll_of settings) (look false 98 ∷ look true 101 ∷ look true 104 ∷ []))
      ≡ settled_down)
    ↔ (up_twice settings (look false 98 ∷ look true 101 ∷ look true 104 ∷ []) ≡ true)
settles_on_lists_example =
    settles_on_lists settings 100 60 (look false 98 ∷ look true 101 ∷ look true 104 ∷ [])
      (refl, (refl, (refl, tt)))

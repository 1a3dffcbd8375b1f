-- ===== src/Host/Serve.antt =====
-- cmd/demohost/main.go: `main`, `serveMain` with its routes, `listSessions`; flags.go: the defaults of
-- `parseServeFlags`. Which route a request takes is the mux's to say.
pub mod Guard
use bigfleet_demo.Common.{
  ℕ, ◌*◌, Bool, true, false, not, ◌&&◌, ◌||◌, Option, none, some, List, [], ◌∷◌, ◌++◌, map, Text,
  codes, ltb, text_eq, if◌then◌else◌,
}
use bigfleet_demo.Host.State.{Config, Session, Completion, Host, new_host, second}
use bigfleet_demo.Host.Identity.{Draw}
use bigfleet_demo.Host.Create.{Started, begin_create}
use bigfleet_demo.Host.Reaper.{begin_delete}
use bigfleet_demo.Host.Capacity.{CapacityView, capacity_view}
use bigfleet_demo.Host.Http.{
  resolve_key, authorized, serve_starts, auth_mode, stats, Proxied, session_proxy, is_empty,
}
use bigfleet_demo.Host.Scripts.{Command, Script, demo_build, Entry, sweep_orphans}

-- What `main` does with the arguments behind the program's name; `usage` exits with 0, `bad_usage`
-- with 2.
pub data Invoked : Type 0 where
  serve : List Text → Invoked
  client : Text → List Text → Invoked
  usage : Invoked
  bad_usage : Invoked

abbrev is_client : Text → Bool
is_client sub =
    text_eq sub (codes "create")
    || (text_eq sub (codes "ls") || (text_eq sub (codes "capacity") || text_eq sub (codes "rm")))

abbrev is_help : Text → Bool
is_help sub =
    text_eq sub (codes "-h") || (text_eq sub (codes "--help") || text_eq sub (codes "help"))

unfoldable pub invoke : List Text → Invoked
invoke [] = bad_usage
invoke (sub ∷ args) =
    if text_eq sub (codes "serve")
    then serve args
    else if is_client sub
    then client sub args
    else if is_help sub
    then usage
    else bad_usage

abbrev pub minute : ℕ
minute = 60 * second

-- The configuration where no flag is given.
abbrev pub default_config : Config
default_config = record {
  addr = codes "127.0.0.1:8080";
  repo = codes ".";
  advertise = codes "localhost";
  key = [];
  port_base = 21000;
  stride = 16;
  max_sessions = 8;
  demo_budget_mb = 16384;
  session_mb = 2304;
  ttl = 60 * minute;
  idle = 5 * minute;
  dashboards = false;
  warm_pool = 0;
  warm_settle = minute;
  warm_max_age = 30 * minute;
}

-- What the start of the daemon finds: the variable `DEMOHOST_KEY`, the key file, the machine's
-- memory, whether the build succeeds, the clusters and directories of an earlier daemon.
pub record Found : Type 0 where
  pub env_key : Text
  pub key_file : Option Text
  pub machine_mb : ℕ
  pub is_built : Bool
  pub clusters : Option Text
  pub entries : Option (List Entry)

-- The state in which the daemon begins to listen. `warns`: the budget exceeds the machine's memory.
pub record Serving : Type 0 where
  pub host : Host
  pub warns : Bool
  pub swept : List Command
  pub fills_pool : Bool
  pub auth : Text

pub data Startup : Type 0 where
  no_key : Startup
  build_failed : Startup
  serving : Serving → Startup

unfoldable pub serve_main : Config → Bool → Found → Startup
serve_main flags dev_no_auth f =
    let key = resolve_key flags.key f.env_key f.key_file in
    let cfg : Config = record flags { key = key } in
    if not (serve_starts key dev_no_auth)
    then no_key
    else if not f.is_built
    then build_failed
    else serving (record {
      host = new_host cfg f.machine_mb;
      warns = ltb 0 f.machine_mb && ltb f.machine_mb cfg.demo_budget_mb;
      swept = sweep_orphans cfg f.clusters f.entries;
      fills_pool = ltb 0 cfg.warm_pool;
      auth = auth_mode key dev_no_auth;
    })

-- The patterns of the mux, with what they bind.
pub data Route : Type 0 where
  create_session list_sessions : Route
  delete_session : Text → Route
  capacity : Route
  list_stats : ℕ → Route
  healthz : Route
  proxy redirect : Text → Text → Route

pub record Request : Type 0 where
  pub route : Route
  pub demo_key : Text
  pub authorization : Text

pub data Answer : Type 0 where
  unauthorized : Answer
  created : Started → Answer
  listed : List Session → Answer
  deleting : Option Session → Answer
  viewed : Option CapacityView → Answer
  counted : List Completion → Answer
  healthy : Answer
  proxied : Proxied → Answer
  moved : Text → Answer

-- `listSessions`: the sessions in the order of a walk over the map.
unfoldable pub sessions_of : Host → List Session
sessions_of h = map (λ (e : Text × Session). e.1) h.sessions

-- Which ports can be bound, the random bytes and the clock, where a handler needs them.
pub record Surroundings : Type 0 where
  pub free : ℕ → Bool
  pub draws : List Draw
  pub now : ℕ

-- `h.auth(next)`
unfoldable pub auth : Request → Answer × Host → Host → Answer × Host
auth r next h = if authorized h.cfg.key r.demo_key r.authorization then next else (unauthorized, h)

-- The first critical section of the handler behind a route, and its answer.
unfoldable pub serve_route : Surroundings → Route → Request → Host → Answer × Host
unfolding auth
serve_route e create_session r h =
    let (started, h') = begin_create e.free e.draws e.now h in auth r (created started, h') h
serve_route e list_sessions r h = auth r (listed (sessions_of h), h) h
serve_route e (delete_session id) r h = let (s, h') = begin_delete id h in auth r (deleting s, h') h
serve_route e capacity r h = auth r (viewed (capacity_view e.now h), h) h
serve_route e (list_stats since) r h = auth r (counted (stats since h), h) h
serve_route e healthz r h = (healthy, h)
serve_route e (proxy id path) r h = (proxied (session_proxy id path h), h)
serve_route e (redirect id path) r h = (moved (path ++ codes "/"), h)

unfoldable pub serve_request : Surroundings → Request → Host → Answer × Host
serve_request e r h = serve_route e r.route r h

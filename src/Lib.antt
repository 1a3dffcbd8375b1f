-- ===== src/Lib.antt =====
-- A model of bigfleet-demo: the daemon that hosts demo sessions, the simulated clouds that the demo
-- provisions from, and the backend and the controller of nodes inside a session, with what makes them
-- correct.
--
-- The program's parts. `demohost` (cmd/demohost) runs on a machine and keeps one isolated stack per
-- visitor: a coordinator asks it for a session over HTTP, it admits the session if the machine has
-- room, gives it a block of ports and an id, runs a script that brings the stack up, keeps a pool of
-- warm sessions ready, and reaps sessions that are past their time. `fakecloud` (providers/fakecloud)
-- is a provisioning backend that stands for three clouds, behind a router that goes by the prefix of
-- a machine's id. `demo-backend` (backend/cmd/demo-backend) and `node-creator` (cmd/node-creator) run
-- inside a session's stack: the first keeps the session's clock, turns demand levels into workloads,
-- counts the fleet for the page and runs the staged scenarios; the second makes a fake node for each
-- machine that is provisioned, and drains and deletes the nodes that are not wanted any more.
--
-- Which file models which part:
--   Host/State      config, session, completion, host, appendCompletionLocked, activeCountLocked,
--                   removeLocked (cmd/demohost/main.go)
--   Host/Admission  admitLocked
--   Host/Ports      allocBaseLocked
--   Host/Identity   genID
--   Host/Create     takePooledLocked, createSession
--   Host/Pool       poolTick, createPooled
--   Host/Reaper     reapOnce, sampleMemory, deleteSession
--   Host/Http       auth, stats, sessionProxy, authMode, the key check of serveMain; resolveKey of
--                   cmd/demohost/flags.go
--   Host/Capacity   capacityView, pct
--   Host/Memory     cmd/demohost/mem.go
--   Host/Settle     waitForSettle, backendPending
--   Host/Scripts    spawn, reap, sweepOrphans, reapAll, boolEnv, lastLines
--   Host/Serve      main, serveMain with its routes, listSessions; parseServeFlags of
--                   cmd/demohost/flags.go
--   Host/Client     cmd/demohost/client.go
--   Host/Begin      beginBackend, pokeHeartbeat
--   Host/World      the daemon as a sequence of critical sections
--   Fakecloud/Catalog    providers/fakecloud/catalog.go
--   Fakecloud/Multiplex  providers/fakecloud/multiplex.go and backend.go
--   Fakecloud/Provider   cmd/fakecloud-provider/main.go, providers/fakecloud/dwell.go
--   Backend/Clock        sessionClock and its handlers (backend/cmd/demo-backend/main.go)
--   Backend/Limiter      rateLimiter
--   Backend/Services     the tables of services, makeDeployment
--   Backend/Demand       setTierReplicas, ensureDeployments, seedBusyFleet, demandHandler
--   Backend/Nodes        cloudOf, billingOf, nodeTier, nodeReady
--   Backend/Fleet        the counters of pollLoop
--   Backend/Feed         pushFeed, synthesizeFeed, the end of a round of pollLoop
--   Backend/Hub          hub
--   Backend/Scenario     scenarioHandler, cancelScenario, runScenario
--   Backend/Wait         waitFor
--   Backend/Handlers     resetHandler, limited
--   Backend/Latest       setLatest, capNow, clusterNodesNow, the handler of /api/state, a round of
--                        pollLoop
--   Backend/Shard        scrapeShard
--   Backend/Dashboards   dashHandler, the mounts and links of main
--   Backend/Startup      main up to its server, loadSession
--   Backend/World        the write requests, the goroutines of the scenarios and pollLoop at work
--   NodeCreator/Tick     tick (cmd/node-creator/main.go)
--   NodeCreator/Startup  main
--   NodeCreator/Cluster  ticks in a loop with the API server of the cluster
--   NodeCreator/Names    realisticNodeName, realisticZone, cloudOf, b36, trailingNum
--   NodeCreator/Hash     fnv32, randHex, uuidFrom, internalIP, dwellFor
--   NodeCreator/Labels   nodeLabels, nodeAnnotations
--   NodeCreator/Status   addReserve, allocMatches, nodeStatus, statusPatch
-- Common holds what they share: lists, texts, dictionaries, decimal numbers, integers.
--
-- State and operations. The `host` struct is the record Host, and each function that changes it under
-- its lock is a function on Host. A handler that releases the lock, runs a script and takes the lock
-- again is two functions (begin_create and finish_create, and so on). Host/World puts these critical
-- sections in a row: an Event is one of them with what the environment answers, and `run` applies a
-- list of events. Which session a late section names is left open, so the events cover every
-- interleaving of handlers, the reaper and the goroutines of the pool, and more. A pointer to a
-- session that a goroutine keeps is written as the session's key in the registry.
--
-- The two maps of node-creator are the record Memory, and a tick is a function of what the API server
-- answers to its calls, so a run is a list of such answers, of any kind. Whether a list or a create
-- succeeds is such an answer; the code ignores the errors of the other calls.
--
-- Conventions. A time is a natural number of nanoseconds since the Unix epoch and a duration a number
-- of nanoseconds; the zero time is `none`. Integers are not bounded, but for the uint32 of a hash,
-- which wraps, and the number of a machine, which is capped like an int; the settings of the flags are
-- not negative. A Go map is an association list, in the order of a walk; the theorems hold for
-- every such list. A text is the list of its bytes. A percentage is an exact fraction, a price is in
-- hundredths, an amount of a resource is in thousandths, a duration of a completion is exact, the
-- tokens of the rate limiter and the rounding of replicas are exact.
--
-- Fuel. The loop that launches pool sessions runs on `warm_pool` rounds, which are enough because
-- each round raises its counter; the search for a port block has the bound of the source; the loop
-- that draws an id runs on the draws it is given, and ends at the first free one.
--
-- How the parts meet. The reaper of the host polls a session's backend, so Backend/Clock/HandOut puts
-- the clock under the reaper's scan. The catalogs of the clouds put labels on machines that the
-- backend reads from nodes, so Backend/Fleet/Providers reads the one with the other, and
-- NodeCreator/Labels/Kept puts the controller that copies the labels between them. Host/Settle reads
-- the clusters that the backend of Backend/Fleet counts, and Backend/Latest/Settled puts the host's wait
-- on the lists that a round of the backend has read. Host/Begin puts the retries of the host over a
-- network that loses messages on the clock of the backend. Host/Client/SameKey puts the client against the
-- start of the daemon and its check of the key. Backend/World puts the limiter, the demand, the
-- scenarios, the feed and the poll of a backend together; a reset, a request and a round are one step
-- each, a scenario is a step for each of its actions, and what a scenario will see of the fleet is given
-- with the request that starts it. Backend/Dashboards/Paths sends a visitor's request through both
-- proxies, that of the host and that of the backend. NodeCreator/Cluster closes the loop between the
-- controller and an API server that answers by what exists: a hypothesis on the answers, since the
-- server is not part of the repository.
--
-- What is not modelled: what the scripts do once started, HTTP, the mux and JSON, the transport of the
-- reverse proxies, the probes of ports, the sentences of the feed and of the command line, the regular
-- expressions of scrapeShard; of the Kubernetes client, the gRPC server and the providerkit package,
-- only what the code reads of it, as parameters. Left out with them are the tables that only print
-- (usage), the literals that only fill in constants of the Kubernetes API, and the timers of the loops
-- that call a modelled function at intervals (reaperLoop, poolLoop).
pub mod Backend
pub mod Common
pub mod Fakecloud
pub mod Host
pub mod NodeCreator

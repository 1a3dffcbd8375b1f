-- ===== src/Backend/World/Rest.antt =====
-- What a visitor sees after a reset.
use bigfleet_demo.Common.{
  ℕ, ◌≡◌, refl, subst, ◌∙◌, Bool, true, false, Option, none, some, List, [], ◌∷◌, ◌++◌, map, arith,
  Text, codes, All, if◌then◌else◌,
}
use bigfleet_demo.Common.Listing.{Distinct}
use bigfleet_demo.Backend.Demand.{Demand}
use bigfleet_demo.Backend.Demand.Levels.{level_of}
use bigfleet_demo.Backend.Demand.Reset.{Seeded, reset_restores}
use bigfleet_demo.Backend.Feed.{publish}
use bigfleet_demo.Backend.Fleet.{ClusterState, Listing, poll_cluster}
use bigfleet_demo.Backend.Handlers.{reset_handler, limited}
use bigfleet_demo.Backend.Latest.{Round, fleet_state, set_latest, poll_round}
use bigfleet_demo.Backend.Limiter.{RateLimiter, allow}
use bigfleet_demo.Backend.Scenario.{cancel_scenario}
use bigfleet_demo.Backend.World.{
  Site, clusters_of, Running, reset_request, serve_write, respond, answer_write, polls,
  backend_step, backend_run,
}

-- The levels that the page shows for a cluster: production, and critical.
abbrev pub levels_shown : ClusterState → ℕ × ℕ
levels_shown c = (c.demand, c.critical)

abbrev pub name_of : Listing → Text
name_of l = l.name

-- The levels of a fleet at rest.
abbrev pub at_rest_levels : ℕ → List Text → List (ℕ × ℕ)
at_rest_levels donor cls = (donor, 0) ∷ map (λ c. (0, 0)) cls

or_zero : Option ℕ → ℕ
or_zero none = 0
or_zero (some n) = n

poll_cluster-levels :
    (d : Demand) (l : Listing)
    → levels_shown (poll_cluster d l) ≡ (
      or_zero (level_of l.name (codes "demand") d),
      or_zero (level_of l.name (codes "critical") d),
    )
unfolding poll_cluster or_zero
poll_cluster-levels d l = refl

poll_cluster-Seeded :
    (baseline demand : ℕ) (d : Demand) (l : Listing)
    → Seeded baseline demand d l.name
    → levels_shown (poll_cluster d l) ≡ (demand, 0)
unfolding or_zero
poll_cluster-Seeded baseline demand d l (batch, critical, driven) =
    poll_cluster-levels d l ∙ rw (critical, driven) refl

others-shown :
    (baseline : ℕ) (d : Demand) (ls : List Listing)
    → All (Seeded baseline 0 d) (map name_of ls)
    → map levels_shown (map (poll_cluster d) ls) ≡ map (λ c. (0, 0)) (map name_of ls)
others-shown baseline d [] s = refl
others-shown baseline d (l ∷ ls) s =
    rw (poll_cluster-Seeded baseline 0 d l s.0, others-shown baseline d ls s.1) refl

-- A fleet at rest, and what the page shows of it in a round that lists its clusters.
abbrev pub IsAtRest : ℕ → ℕ → Text → List Text → Demand → Type 0
IsAtRest baseline donor cl cls d = Seeded baseline donor d cl × All (Seeded baseline 0 d) cls

clusters-shown :
    (baseline donor : ℕ) (cl : Text) (cls : List Text) (d : Demand) (ls : List Listing)
    → IsAtRest baseline donor cl cls d
    → map name_of ls ≡ cl ∷ cls
    → map levels_shown (map (poll_cluster d) ls) ≡ at_rest_levels donor cls
clusters-shown baseline donor cl cls d [] rest e = absurd (ground (arith, e))
clusters-shown baseline donor cl cls d (l ∷ ls) (first, others) e =
    let here : cl ≡ l.name = ground (arith, e) in
    let behind : cls ≡ map name_of ls = ground (arith, e) in
    rw
      (
        poll_cluster-Seeded baseline donor d l (subst (λ n. Seeded baseline donor d n) here first),
        others-shown baseline d ls (subst (λ ns. All (Seeded baseline 0 d) ns) behind others),
        behind,
      )
      refl

module _ (k : Site) (cl : Text) (cls : List Text) where
  abbrev Rests : Running → Type 0
  Rests w =
      (w.scenarios.cur_scenario ≡ [])
      × IsAtRest k.flags.baseline k.flags.donor_demand cl cls w.demand

  polled-Rests :
      (rs : List Round) (r : Round) (w : Running)
      → Rests w
      → map name_of r.listings ≡ cl ∷ cls
      → let w' = backend_run k (map polls rs ++ (polls r ∷ [])) w in
        (w'.latest.scenario ≡ [])
        × (map levels_shown w'.latest.clusters ≡ at_rest_levels k.flags.donor_demand cls)
        × IsAtRest k.flags.baseline k.flags.donor_demand cl cls w'.demand
  unfolding backend_run backend_step poll_round set_latest publish fleet_state
  polled-Rests [] r w (none_runs, rest) e = (
    none_runs,
    clusters-shown k.flags.baseline k.flags.donor_demand cl cls w.demand r.listings rest e,
    rest,
  )
  polled-Rests (q ∷ rs) r w rests e = polled-Rests rs r (backend_step k (polls q) w) rests e

  reset-Rests :
      (now : ℕ) (w : Running)
      → clusters_of k ≡ cl ∷ cls
      → Distinct (cl ∷ cls)
      → (answer_write k now reset_request w).0 ≡ 200
      → Rests (answer_write k now reset_request w).1
  unfolding answer_write limited respond serve_write reset_handler cancel_scenario
  reset-Rests now w named distinct ok = of (allow now w.limiter).0 (allow now w.limiter).1 ok
    where
      of :
          (b : Bool) (rl : RateLimiter)
          → let passed : Option (Option Running) =
              if b then some (serve_write k reset_request w) else none in
            (respond rl w passed).0 ≡ 200 → Rests (respond rl w passed).1
      of false rl e = absurd (ground (arith, e))
      of true rl e =
          let seeded =
            reset_restores k.flags.node_budget_cpu k.flags.baseline k.flags.donor_demand cl cls
              w.demand distinct in
          (refl, rw named seeded)

  -- After a reset that is not refused, of clusters `cl` and `cls` that have different names, and any
  -- rounds of the poll, of which the last lists these clusters: the page shows no scenario as running,
  -- the demand of `cl` at the donor's level, that of the others at 0, and no critical demand; and those
  -- are the levels that are recorded, with the batch tier of each cluster at `baseline`.
  pub reset_shows_rest :
      (now : ℕ) (w : Running) (rs : List Round) (r : Round)
      → clusters_of k ≡ cl ∷ cls
      → Distinct (cl ∷ cls)
      → (answer_write k now reset_request w).0 ≡ 200
      → map name_of r.listings ≡ cl ∷ cls
      → let w' =
          backend_run k (map polls rs ++ (polls r ∷ [])) (answer_write k now reset_request w).1 in
        (w'.latest.scenario ≡ [])
        × (map levels_shown w'.latest.clusters ≡ at_rest_levels k.flags.donor_demand cls)
        × IsAtRest k.flags.baseline k.flags.donor_demand cl cls w'.demand
  reset_shows_rest now w rs r named distinct ok e =
      polled-Rests rs r (answer_write k now reset_request w).1 (reset-Rests now w named distinct ok)
        e

-- ===== src/Backend/World/Sound.antt =====
-- What every step of a backend keeps.
use bigfleet_demo.Common.{
  ℕ, ◌≤◌, ◌≡◌, refl, subst, Bool, true, false, Option, none, some, List, [], ◌∷◌, Text,
  if◌then◌else◌, length, All, All-append, Option-cases, inl, inr,
}
use bigfleet_demo.Backend.Demand.{demand_handler}
use bigfleet_demo.Backend.Handlers.{reset_handler, limited}
use bigfleet_demo.Backend.Limiter.{RateLimiter, allow}
use bigfleet_demo.Backend.Scenario.{
  Scenarios, Action, Observed, launch, launches, scenario_step, run_scenario,
}
use bigfleet_demo.Backend.Scenario.Current.{OneLive, launch-OneLive, cancel_scenario-OneLive}
use bigfleet_demo.Backend.World.{
  Site, clusters_of, Goroutine, Running, WriteRequest, demand_request, scenario_request,
  reset_request, goroutine_of, serve_write, respond, answer_write,
}
use bigfleet_demo.Backend.World.Range.{InRange, seed_busy_fleet-InRange, demand_handler-InRange}
use bigfleet_demo.Backend.World.Actions.{IsModest, AreModest, run_scenario-modest}
use bigfleet_demo.Backend.World.Shown.{IsShown}

-- The levels, what is shown of them, the feed, and what is left for the scenarios to do.
pub record IsSound (baseline : ℕ) (w : Running) : Type 0 where
  pub levels : InRange baseline w.demand
  pub shown : All IsShown w.latest.clusters
  pub lines : length w.feed.feed ≤ 40
  pub one_live : OneLive w.scenarios
  pub modest : All (λ (g : Goroutine). All (IsModest baseline) g.todo) w.goroutines

limited-Sound :
    (baseline : ℕ) (w : Running) (rl : RateLimiter)
    → IsSound baseline w
    → IsSound baseline (record w { limiter = rl })
limited-Sound baseline w rl s = record {
  levels = s.levels;
  shown = s.shown;
  lines = s.lines;
  one_live = s.one_live;
  modest = s.modest;
}

goroutine_of-modest :
    (baseline : ℕ) (k : Site) (name : Text) (o : Observed) (g : ℕ)
    → All (λ (g : Goroutine). All (IsModest baseline) g.todo) (goroutine_of k name o g)
unfolding goroutine_of
goroutine_of-modest baseline k name o g =
    of (run_scenario (clusters_of k) name o) (run_scenario-modest baseline (clusters_of k) name o)
  where
    of :
        (acts : Option (List Action))
        → AreModest baseline acts
        → All
            (λ (g : Goroutine). All (IsModest baseline) g.todo)
            (elim acts [ none ↦ [] | some acts ↦ record { gen = g; todo = acts } ∷ [] ])
    of none m = tt
    of (some acts) m = (m, tt)

launched-OneLive :
    (name : Text) (s s' : Scenarios) → launch name s ≡ some s' → OneLive s → OneLive s'
unfolding scenario_step
launched-OneLive name s s' e one =
    let next : scenario_step (launches name) s ≡ s' = rw (scenario_step, e) refl in
    subst OneLive next (launch-OneLive name s one)

-- Where a handler gives an answer, what it leaves is sound.
abbrev Served : ℕ → Option Running → Type 0
Served baseline none = Unit
Served baseline (some w) = IsSound baseline w

module _ (k : Site) (small : k.flags.donor_demand ≤ 40) where
  serve_write-Sound :
      (req : WriteRequest) (w : Running)
      → IsSound k.flags.baseline w
      → Served k.flags.baseline (serve_write k req w)
  unfolding serve_write reset_handler
  serve_write-Sound (demand_request workspace level tier) w s =
      elim (Option-cases
        (demand_handler k.flags.node_budget_cpu (clusters_of k) workspace level tier w.demand)) [
          | inl e ↦ rw (e, serve_write) tt
          | inr (d, e) ↦
              rw (e, serve_write)
                (record {
                  shown = s.shown;
                  lines = s.lines;
                  one_live = s.one_live;
                  modest = s.modest;
                  levels =
                      demand_handler-InRange k.flags.node_budget_cpu k.flags.baseline
                        (clusters_of k) workspace level tier w.demand d e s.levels;
                })
        ]
  serve_write-Sound (scenario_request name o) w s = elim (Option-cases (launch name w.scenarios)) [
    | inl e ↦ rw (e, serve_write) tt
    | inr (sc, e) ↦
        rw (e, serve_write)
          (record {
            levels = s.levels;
            shown = s.shown;
            lines = s.lines;
            one_live = launched-OneLive name w.scenarios sc e s.one_live;
            modest =
                All-append (λ (g : Goroutine). All (IsModest k.flags.baseline) g.todo) _ _
                  (goroutine_of-modest k.flags.baseline k name o sc.scen_gen) s.modest;
          })
  ]
  serve_write-Sound reset_request w s = record {
    levels =
        seed_busy_fleet-InRange k.flags.node_budget_cpu k.flags.baseline k.flags.donor_demand
          (clusters_of k) w.demand small s.levels;
    shown = s.shown;
    lines = s.lines;
    one_live = cancel_scenario-OneLive w.scenarios s.one_live;
    modest = s.modest;
  }

  pub answer_write-Sound :
      (now : ℕ) (req : WriteRequest) (w : Running)
      → IsSound k.flags.baseline w
      → IsSound k.flags.baseline (answer_write k now req w).1
  unfolding answer_write limited respond
  answer_write-Sound now req w s =
      of (allow now w.limiter).0 (allow now w.limiter).1 (serve_write k req w)
        (serve_write-Sound req w s)
    where
      of :
          (ok : Bool) (rl : RateLimiter) (served : Option Running)
          → Served k.flags.baseline served
          → IsSound k.flags.baseline (respond rl w (if ok then some served else none)).1
      of false rl served _ = limited-Sound k.flags.baseline w rl s
      of true rl none _ = limited-Sound k.flags.baseline w rl s
      of true rl (some w') s' = limited-Sound k.flags.baseline w' rl s'

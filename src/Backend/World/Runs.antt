-- ===== src/Backend/World/Runs.antt =====
-- What holds of a backend in every run.
use bigfleet_demo.Common.{
  ℕ, zero, suc, ◌≤◌, refl, Option, none, some, List, [], ◌∷◌, arith, Text, length, All, inl,
}
use bigfleet_demo.Backend.Feed.{FleetState, Feed}
use bigfleet_demo.Backend.Feed
use bigfleet_demo.Backend.Feed.Length.{add_line-short}
use bigfleet_demo.Backend.Scenario.{Action, push_feed, set_level}
use bigfleet_demo.Backend.Scenario.Current.{OneLive, finish-OneLive}
use bigfleet_demo.Backend.Startup.{backend_of, no_demand}
use bigfleet_demo.Backend.World.{
  Site, clusters_of, Goroutine, Running, first_running, act, pick, go_on, BackendEvent, asks,
  goes_on, polls, settings_of, backend_step, backend_run,
}
use bigfleet_demo.Backend.World.Range.{
  InRange, set-InRange, seed_busy_fleet-InRange, no_demand-InRange,
}
use bigfleet_demo.Backend.World.Actions.{IsModest}
use bigfleet_demo.Backend.World.Shown.{IsShown, poll_round-shown, poll_round-short}
use bigfleet_demo.Backend.World.Sound.{IsSound, answer_write-Sound}

abbrev AllModest : ℕ → List Goroutine → Type 0
AllModest baseline gs = All (λ (g : Goroutine). All (IsModest baseline) g.todo) gs

abbrev Picked : ℕ → Option (Goroutine × List Goroutine) → Type 0
Picked baseline none = Unit
Picked baseline (some (g, gs)) = All (IsModest baseline) g.todo × AllModest baseline gs

pick-modest :
    (baseline n : ℕ) (gs : List Goroutine) → AllModest baseline gs → Picked baseline (pick n gs)
unfolding pick
pick-modest baseline n [] m = tt
pick-modest baseline zero (g ∷ gs) m = m
pick-modest baseline (suc n) (g ∷ gs) m = more (pick n gs) (pick-modest baseline n gs m.1)
  where
    more :
        (p : Option (Goroutine × List Goroutine))
        → Picked baseline p
        → Picked baseline (elim p [ none ↦ none | some p ↦ some (p.0, g ∷ p.1) ])
    more none _ = tt
    more (some (g', gs')) (first, others) = (first, (m.0, others))

module _ (k : Site) (small : k.flags.donor_demand ≤ 40) where
  act-Sound :
      (ts : Text) (a : Action) (w : Running)
      → IsModest k.flags.baseline a
      → IsSound k.flags.baseline w
      → IsSound k.flags.baseline (act k ts a w)
  unfolding act Feed.push_feed
  act-Sound ts (push_feed line) w m s = record {
    levels = s.levels;
    shown = s.shown;
    lines = add_line-short ts _ w.feed.feed;
    one_live = s.one_live;
    modest = s.modest;
  }
  act-Sound ts (set_level cl tier level) w m s = record {
    levels = set-InRange k.flags.node_budget_cpu k.flags.baseline level cl tier w.demand m s.levels;
    shown = s.shown;
    lines = s.lines;
    one_live = s.one_live;
    modest = s.modest;
  }

  go_on-Sound :
      (ts : Text) (g : Goroutine) (w : Running)
      → All (IsModest k.flags.baseline) g.todo
      → IsSound k.flags.baseline w
      → IsSound k.flags.baseline (go_on k ts g w)
  unfolding go_on
  go_on-Sound ts g w m s = by g.todo m
    where
      by :
          (todo : List Action)
          → All (IsModest k.flags.baseline) todo
          → IsSound k.flags.baseline (go_on k ts (record { gen = g.gen; todo = todo }) w)
      by [] m = record {
        levels = s.levels;
        shown = s.shown;
        lines = s.lines;
        one_live = finish-OneLive g.gen w.scenarios s.one_live;
        modest = s.modest;
      }
      by (a ∷ acts) m =
          let after = act-Sound ts a w m.0 s in
          record {
            levels = after.levels;
            shown = after.shown;
            lines = after.lines;
            one_live = after.one_live;
            modest = (m.1, s.modest);
          }

  backend_step-Sound :
      (e : BackendEvent) (w : Running)
      → IsSound k.flags.baseline w
      → IsSound k.flags.baseline (backend_step k e w)
  unfolding backend_step
  backend_step-Sound (asks now req) w s = answer_write-Sound k small now req w s
  backend_step-Sound (goes_on ts n) w s =
      by (pick n w.goroutines) (pick-modest k.flags.baseline n w.goroutines s.modest)
    where
      by :
          (p : Option (Goroutine × List Goroutine))
          → Picked k.flags.baseline p
          → IsSound k.flags.baseline
              (elim p [ none ↦ w | some p ↦ go_on k ts p.0 (record w { goroutines = p.1 }) ])
      by none _ = s
      by (some (g, gs)) (first, others) =
          go_on-Sound ts g (record w { goroutines = gs }) first
            (record {
              levels = s.levels;
              shown = s.shown;
              lines = s.lines;
              one_live = s.one_live;
              modest = others;
            })
  backend_step-Sound (polls r) w s = record {
    levels = s.levels;
    shown =
        poll_round-shown k.flags.baseline w.demand s.levels (settings_of k) w.scenarios r w.latest
          w.feed;
    lines = poll_round-short (settings_of k) w.demand w.scenarios r w.latest w.feed s.lines;
    one_live = s.one_live;
    modest = s.modest;
  }

  backend_run-Sound :
      (es : List BackendEvent) (w : Running)
      → IsSound k.flags.baseline w
      → IsSound k.flags.baseline (backend_run k es w)
  unfolding backend_run
  backend_run-Sound [] w s = s
  backend_run-Sound (e ∷ es) w s =
      backend_run-Sound es (backend_step k e w) (backend_step-Sound e w s)

  first_running-Sound : (now : ℕ) → IsSound k.flags.baseline (first_running k now)
  unfolding first_running backend_of
  first_running-Sound now = record {
    levels =
        seed_busy_fleet-InRange k.flags.node_budget_cpu k.flags.baseline k.flags.donor_demand
          (clusters_of k) no_demand small (no_demand-InRange k.flags.baseline);
    shown = tt;
    lines = omega arith;
    one_live = inl (refl, tt, refl);
    modest = tt;
  }

  -- However the requests of a visitor, the actions of scenarios, cancelled ones as well, and the rounds
  -- of the poll come after the start of a backend whose `donor_demand` is 40 or below: every level that
  -- is recorded is that of the start for the batch tier, and 40 or below for the others; no cluster is
  -- shown at more than 40; the feed has 40 lines at most; and every scenario but the latest is
  -- cancelled.
  pub backend_run-InRange :
      (es : List BackendEvent) (now : ℕ)
      → let w = backend_run k es (first_running k now) in
        InRange k.flags.baseline w.demand
        × All IsShown w.latest.clusters
        × (length w.feed.feed ≤ 40)
        × OneLive w.scenarios
  backend_run-InRange es now =
      let s = backend_run-Sound es (first_running k now) (first_running-Sound now) in
      (s.levels, s.shown, s.lines, s.one_live)

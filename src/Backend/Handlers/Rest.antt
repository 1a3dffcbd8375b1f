-- ===== src/Backend/Handlers/Rest.antt =====
-- What a reset leaves.
use bigfleet_demo.Common.{ℕ, ◌≡◌, refl, List, [], ◌∷◌, Text, All}
use bigfleet_demo.Common.Listing.{Distinct}
use bigfleet_demo.Backend.Demand.{Demand}
use bigfleet_demo.Backend.Demand.Reset.{Seeded, reset_restores}
use bigfleet_demo.Backend.Scenario.{at_rest, ScenarioStep, scenario_run, cancel_scenario}
use bigfleet_demo.Backend.Scenario.Current.{CancelledTo, cancel_current-all, scenario_run-OneLive}
use bigfleet_demo.Backend.Handlers.{reset_handler}

-- A reset of clusters that have different names, whatever scenarios ran before it and whatever levels
-- were driven: every scenario is
-- cancelled and none is shown as running, and each tier of each cluster is back at its level, which is
-- `baseline` for the first tier, none for the critical one, and for the demand tier `donor` on the
-- first cluster and none on the others.
reset_handler_rests :
    (budget baseline donor : ℕ) (cl : Text) (cls : List Text) (es : List ScenarioStep) (d : Demand)
    → Distinct (cl ∷ cls)
    → let s = scenario_run es at_rest in
      let (s', d') = reset_handler budget (cl ∷ cls) baseline donor s d in
      (s'.cur_scenario ≡ [])
      × CancelledTo s'.cancelled s'.scen_gen
      × Seeded baseline donor d' cl
      × All (Seeded baseline 0 d') cls
unfolding reset_handler cancel_scenario
reset_handler_rests budget baseline donor cl cls es d distinct =
    let (first, others) = reset_restores budget baseline donor cl cls d distinct in
    (refl, cancel_current-all (scenario_run es at_rest) (scenario_run-OneLive es), first, others)

-- ===== src/Backend/Scenario.antt =====
-- backend/cmd/demo-backend/main.go: the staged scenarios. A context is named by the generation of the
-- scenario it was made for; what a scenario sees of the fleet while it runs is an argument.
pub mod Current
use bigfleet_demo.Common.{
  ℕ, ◌+◌, Bool, true, false, ◌||◌, Option, none, some, List, [], ◌∷◌, ◌++◌, map, Text, codes, ltb,
  eqb, text_eq, if◌then◌else◌,
}

-- `cur_scenario` is empty where no scenario is shown as running; `cancelled` lists the contexts that
-- were cancelled, the latest first.
pub record Scenarios : Type 0 where
  pub scen_cancel : Option ℕ
  pub cur_scenario : Text
  pub scen_gen : ℕ
  pub cancelled : List ℕ

abbrev pub at_rest : Scenarios
at_rest = record { scen_cancel = none; cur_scenario = []; scen_gen = 0; cancelled = [] }

-- `scenCancel()`, where there is one.
unfoldable pub cancel_current : Scenarios → List ℕ
cancel_current s = elim s.scen_cancel [ none ↦ s.cancelled | some g ↦ g ∷ s.cancelled ]

unfoldable pub cancel_scenario : Scenarios → Scenarios
cancel_scenario s = record s { scen_cancel = none; cur_scenario = []; cancelled = cancel_current s }

unfoldable pub is_scenario : Text → Bool
is_scenario name =
    text_eq name (codes "saturate")
    || (text_eq name (codes "critical") || text_eq name (codes "move"))

-- The critical section of `scenarioHandler`; `none` is the answer 400.
unfoldable pub launch : Text → Scenarios → Option Scenarios
launch name s =
    if is_scenario name
    then some (record {
      scen_cancel = some (s.scen_gen + 1);
      cur_scenario = name;
      scen_gen = s.scen_gen + 1;
      cancelled = cancel_current s;
    })
    else none

-- The goroutine of generation `g` after its scenario has run.
unfoldable pub finish : ℕ → Scenarios → Scenarios
finish g s = if eqb s.scen_gen g then record s { cur_scenario = [] } else s

pub data ScenarioStep : Type 0 where
  launches : Text → ScenarioStep
  finishes : ℕ → ScenarioStep
  resets : ScenarioStep

unfoldable pub scenario_step : ScenarioStep → Scenarios → Scenarios
scenario_step (launches name) s = elim (launch name s) [ none ↦ s | some s' ↦ s' ]
scenario_step (finishes g) s = finish g s
scenario_step resets s = cancel_scenario s

unfoldable pub scenario_run : List ScenarioStep → Scenarios → Scenarios
scenario_run [] s = s
scenario_run (e ∷ es) s = scenario_run es (scenario_step e s)

-- The lines of `runScenario`.
pub data Line : Type 0 where
  saturating filling injecting not_at_rest dropping : Line
  growing : Bool → Line

pub data Action : Type 0 where
  push_feed : Line → Action
  set_level : Text → Text → ℕ → Action

-- What a scenario sees: whether its context is cancelled after the first wait, the committed and cloud
-- numbers, whether the donor drained in time, and whether the cost is then zero.
pub record Observed : Type 0 where
  pub is_cancelled : Bool
  pub cloud_in_use : ℕ
  pub donor_demand : ℕ
  pub has_drained : Bool
  pub is_free : Bool

unfoldable pub fill_all : List Text → List Action
fill_all clusters = map (λ cl. set_level cl (codes "demand") 40) clusters

-- `none`: there is no cluster, and the index is out of range.
unfoldable pub run_critical : List Text → Observed → Option (List Action)
run_critical [] o = if o.is_cancelled then some (push_feed filling ∷ []) else none
run_critical (cl ∷ cls) o =
    let beat : List Action =
      if o.is_cancelled
      then []
      else push_feed injecting ∷ set_level cl (codes "critical") 28 ∷ [] in
    some (push_feed filling ∷ (fill_all (cl ∷ cls) ++ beat))

unfoldable pub run_move : List Text → Observed → List Action
run_move [] o = []
run_move (a ∷ []) o = []
run_move (a ∷ b ∷ cls) o =
    if ltb 1 o.cloud_in_use || ltb o.donor_demand 8
    then push_feed not_at_rest ∷ []
    else push_feed dropping
      ∷ set_level a (codes "demand") 0
      ∷ (if o.has_drained
          then push_feed (growing o.is_free) ∷ set_level b (codes "demand") 14 ∷ []
          else [])

unfoldable pub run_scenario : List Text → Text → Observed → Option (List Action)
run_scenario clusters name o =
    if text_eq name (codes "saturate")
    then some (push_feed saturating ∷ fill_all clusters)
    else if text_eq name (codes "critical")
    then run_critical clusters o
    else if text_eq name (codes "move")
    then some (run_move clusters o)
    else some []

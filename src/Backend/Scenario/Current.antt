-- ===== src/Backend/Scenario/Current.antt =====
-- One scenario runs at a time.
use bigfleet_demo.Common.{
  ℕ, zero, suc, ◌≡◌, refl, ap, ◌⊎◌, inl, inr, none, some, List, [], ◌∷◌, arith, Text, eqb,
  Bool-cases,
}
use mathlib.Core.List.{Memᴰ}
use bigfleet_demo.Backend.Scenario.{
  Scenarios, at_rest, cancel_current, cancel_scenario, is_scenario, launch, finish, ScenarioStep,
  launches, finishes, resets, scenario_step, scenario_run,
}

-- The contexts of the generations up to `n` are cancelled.
abbrev pub CancelledTo : List ℕ → ℕ → Type 0
CancelledTo cs zero = Unit
CancelledTo cs (suc n) = Memᴰ (suc n) cs × CancelledTo cs n

-- All contexts are cancelled, or all but that of the current generation, which `scen_cancel` names.
-- A scenario is shown as running only in the second case.
abbrev pub OneLive : Scenarios → Type 0
OneLive s =
    ((s.scen_cancel ≡ none) × CancelledTo s.cancelled s.scen_gen × (s.cur_scenario ≡ []))
    ⊎ ((n : ℕ) × (s.scen_gen ≡ suc n) × (s.scen_cancel ≡ some (suc n)) × CancelledTo s.cancelled n)

CancelledTo-more : (c : ℕ) (cs : List ℕ) (n : ℕ) → CancelledTo cs n → CancelledTo (c ∷ cs) n
CancelledTo-more c cs zero h = tt
CancelledTo-more c cs (suc n) h = (Memᴰ.tail h.0, CancelledTo-more c cs n h.1)

pub cancel_current-all : (s : Scenarios) → OneLive s → CancelledTo (cancel_current s) s.scen_gen
unfolding cancel_current
cancel_current-all s (inl (e, all, _)) = rw (e, cancel_current) all
cancel_current-all s (inr (n, g, e, rest)) =
    rw (e, g, cancel_current) (Memᴰ.head refl, CancelledTo-more (suc n) s.cancelled n rest)

pub launch-OneLive :
    (name : Text) (s : Scenarios) → OneLive s → OneLive (scenario_step (launches name) s)
unfolding scenario_step launch
launch-OneLive name s one = elim (Bool-cases (is_scenario name)) [
  | inl e ↦
      rw (e, scenario_step, launch)
        (inr (s.scen_gen, omega arith, ap some (omega arith), cancel_current-all s one))
  | inr e ↦ rw (e, scenario_step, launch) one
]

hidden : {s : Scenarios} → OneLive s → OneLive (record s { cur_scenario = [] })
hidden (inl (e, all, _)) = inl (e, all, refl)
hidden (inr latest) = inr latest

pub finish-OneLive : (g : ℕ) (s : Scenarios) → OneLive s → OneLive (finish g s)
unfolding finish
finish-OneLive g s one = elim (Bool-cases (eqb s.scen_gen g)) [
  | inl e ↦ rw (e, finish) (hidden one)
  | inr e ↦ rw (e, finish) one
]

pub cancel_scenario-OneLive : (s : Scenarios) → OneLive s → OneLive (cancel_scenario s)
unfolding cancel_scenario
cancel_scenario-OneLive s one = inl (refl, cancel_current-all s one, refl)

steps-OneLive : (es : List ScenarioStep) (s : Scenarios) → OneLive s → OneLive (scenario_run es s)
unfolding scenario_run scenario_step
steps-OneLive [] s one = one
steps-OneLive (launches name ∷ es) s one =
    steps-OneLive es (scenario_step (launches name) s) (launch-OneLive name s one)
steps-OneLive (finishes g ∷ es) s one = steps-OneLive es (finish g s) (finish-OneLive g s one)
steps-OneLive (resets ∷ es) s one =
    steps-OneLive es (cancel_scenario s) (cancel_scenario-OneLive s one)

-- Whatever scenarios are started, end and are reset, in any order: the contexts of all scenarios but
-- the latest are cancelled, after a reset that of the latest as well, and then none is shown as running.
pub scenario_run-OneLive : (es : List ScenarioStep) → OneLive (scenario_run es at_rest)
scenario_run-OneLive es = steps-OneLive es at_rest (inl (refl, tt, refl))

-- ===== src/Backend/World/Actions.antt =====
-- The levels that a scenario sets.
use bigfleet_demo.Common.{
  ℕ, ◌≡◌, refl, Bool, true, false, ◌||◌, Option, none, some, List, [], ◌∷◌, Text, codes, text_eq,
  text_has_eq, ltb, if◌then◌else◌, All, All-append,
}
use bigfleet_demo.Backend.Scenario.{
  Action, push_feed, set_level, Observed, fill_all, run_critical, run_move, run_scenario,
}
use bigfleet_demo.Backend.World.Range.{is_allowed}

abbrev pub IsModest : ℕ → Action → Type 0
IsModest baseline (push_feed line) = Unit
IsModest baseline (set_level cl tier level) = is_allowed baseline tier (some level) ≡ true

abbrev pub AreModest : ℕ → Option (List Action) → Type 0
AreModest baseline none = Unit
AreModest baseline (some acts) = All (IsModest baseline) acts

module _ (baseline : ℕ) where
  fill_all-modest : (cls : List Text) → All (IsModest baseline) (fill_all cls)
  unfolding fill_all text_eq
  fill_all-modest [] = tt
  fill_all-modest (cl ∷ cls) = (refl, fill_all-modest cls)

  either :
      (b : Bool) (x y : Option (List Action))
      → AreModest baseline x
      → AreModest baseline y
      → AreModest baseline (if b then x else y)
  either true x y p q = p
  either false x y p q = q

  listed :
      (b : Bool) (x y : List Action)
      → All (IsModest baseline) x
      → All (IsModest baseline) y
      → All (IsModest baseline) (if b then x else y)
  listed true x y p q = p
  listed false x y p q = q

  run_critical-modest : (cls : List Text) (o : Observed) → AreModest baseline (run_critical cls o)
  unfolding run_critical text_eq
  run_critical-modest [] o = either o.is_cancelled _ _ (tt, tt) tt
  run_critical-modest (cl ∷ cls) o = (
    tt,
    All-append (IsModest baseline) _ _ (fill_all-modest (cl ∷ cls))
        (listed o.is_cancelled _ _ tt (tt, (refl, tt))),
  )

  run_move-modest : (cls : List Text) (o : Observed) → All (IsModest baseline) (run_move cls o)
  unfolding run_move text_eq
  run_move-modest [] o = tt
  run_move-modest (a ∷ []) o = tt
  run_move-modest (a ∷ b ∷ cls) o =
      listed (ltb 1 o.cloud_in_use || ltb o.donor_demand 8) _ _ (tt, tt)
        (tt, (refl, listed o.has_drained _ _ (tt, (refl, tt)) tt))

  -- No scenario touches the batch tier or drives another beyond 40.
  pub run_scenario-modest :
      (cls : List Text) (name : Text) (o : Observed) → AreModest baseline (run_scenario cls name o)
  unfolding run_scenario
  run_scenario-modest cls name o =
      either (text_eq name (codes "saturate")) _ _ (tt, fill_all-modest cls)
        (either (text_eq name (codes "critical")) _ _ (run_critical-modest cls o)
          (either (text_eq name (codes "move")) _ _ (run_move-modest cls o) tt))

-- ===== src/Backend/World/Range.antt =====
-- What holds of a backend however its requests, scenarios and polls come.
use bigfleet_demo.Common.{
  ℕ, ◌≤◌, ◌≡◌, refl, ap, ◌∙◌, ◌⊎◌, subst, Bool, true, false, ◌&&◌, Option, none, some, List, [],
  ◌∷◌, arith, Text, codes, text_eq, text_eq_iff, text_has_eq, if◌then◌else◌, leb, eqb, Bool-cases,
  Option-cases, inl, inr,
}
use bigfleet_demo.Common.Int.{ℤ}
use bigfleet_demo.Common.Dict.{lookup}
use bigfleet_demo.Backend.Startup.{no_demand}
use bigfleet_demo.Backend.Demand.{
  Demand, levels_of, set_tier_replicas, seed_cluster, seed_others, seed_busy_fleet, find_cluster,
  clamp, driven_tier, demand_handler,
}
use bigfleet_demo.Backend.Demand.Levels.{level_of, level_of-set, driven_tier-ne, clamp-le}

-- The batch tier at its level of the start, every other at 40 or below.
abbrev pub is_allowed : ℕ → Text → Option ℕ → Bool
is_allowed baseline tier none = true
is_allowed baseline tier (some level) =
    if text_eq tier (codes "baseline") then eqb level baseline else leb level 40

-- Every level that is recorded, of whatever tier of whatever cluster, is allowed.
abbrev pub InRange : ℕ → Demand → Type 0
InRange baseline d = (cl tier : Text) → is_allowed baseline tier (level_of cl tier d) ≡ true

pub set-InRange :
    (budget baseline level : ℕ) (cl tier : Text) (d : Demand)
    → is_allowed baseline tier (some level) ≡ true
    → InRange baseline d
    → InRange baseline (set_tier_replicas budget cl tier level d)
set-InRange budget baseline level cl tier d ok all j u =
    let e = level_of-set budget level cl tier d j u in
    ap (is_allowed baseline u) e ∙ either (text_eq cl j) (Bool-cases (text_eq tier u))
  where
    either :
        (here : Bool)
        → (text_eq tier u ≡ true) ⊎ (text_eq tier u ≡ false)
        → is_allowed baseline u (if here && text_eq tier u then some level else level_of j u d)
          ≡ true
    either false _ = all j u
    either true (inl same) =
        rw same
          (subst (λ t. is_allowed baseline t (some level) ≡ true) ((text_eq_iff tier u).0 same) ok)
    either true (inr other) = rw other (all j u)

driven-allowed :
    (baseline level : ℕ) (tier : Text)
    → level ≤ 40
    → is_allowed baseline (driven_tier tier) (some level) ≡ true
driven-allowed baseline level tier h =
    ground (arith, h, driven_tier-ne tier, text_eq_iff (driven_tier tier) (codes "baseline"))

seed_cluster-InRange :
    (budget baseline demand : ℕ) (cl : Text) (d : Demand)
    → demand ≤ 40
    → InRange baseline d
    → InRange baseline (seed_cluster budget baseline demand cl d)
unfolding seed_cluster text_eq
seed_cluster-InRange budget baseline demand cl d h all =
    let first = set_tier_replicas budget cl (codes "baseline") baseline d in
    let second = set_tier_replicas budget cl (codes "critical") 0 first in
    set-InRange budget baseline demand cl (codes "demand") second (ground (arith, h)) (
      set-InRange budget baseline 0 cl (codes "critical") first refl
        (set-InRange budget baseline baseline cl (codes "baseline") d (ground arith) all))

seed_others-InRange :
    (budget baseline : ℕ) (cls : List Text) (d : Demand)
    → InRange baseline d
    → InRange baseline (seed_others budget baseline cls d)
unfolding seed_others
seed_others-InRange budget baseline [] d all = all
seed_others-InRange budget baseline (cl ∷ cls) d all =
    seed_others-InRange budget baseline cls (seed_cluster budget baseline 0 cl d)
      (seed_cluster-InRange budget baseline 0 cl d (omega arith) all)

pub seed_busy_fleet-InRange :
    (budget baseline donor : ℕ) (cls : List Text) (d : Demand)
    → donor ≤ 40
    → InRange baseline d
    → InRange baseline (seed_busy_fleet budget cls baseline donor d)
unfolding seed_busy_fleet
seed_busy_fleet-InRange budget baseline donor [] d h all = all
seed_busy_fleet-InRange budget baseline donor (cl ∷ cls) d h all =
    seed_others-InRange budget baseline cls (seed_cluster budget baseline donor cl d)
      (seed_cluster-InRange budget baseline donor cl d h all)

pub demand_handler-InRange :
    (budget baseline : ℕ) (cls : List Text) (workspace : Text) (level : ℤ) (tier : Text)
    (d d' : Demand)
    → demand_handler budget cls workspace level tier d ≡ some d'
    → InRange baseline d
    → InRange baseline d'
unfolding demand_handler
demand_handler-InRange budget baseline cls workspace level tier d d' e all =
    elim (Option-cases (find_cluster cls workspace)) [
      | inl unknown ↦ absurd (ground (arith, e, unknown))
      | inr (cl, found) ↦
          let set : set_tier_replicas budget cl (driven_tier tier) (clamp level 0 40) d ≡ d' =
            ground (arith, e, found) in
          subst (InRange baseline) set (
            set-InRange budget baseline (clamp level 0 40) cl (driven_tier tier) d
              (driven-allowed baseline (clamp level 0 40) tier (clamp-le level)) all)
    ]

pub no_demand-InRange : (baseline : ℕ) → InRange baseline no_demand
unfolding lookup levels_of
no_demand-InRange baseline cl tier = refl

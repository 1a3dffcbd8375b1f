-- ===== src/Backend/Demand/Reset.antt =====
-- What `resetHandler` and the start of a backend put back.
use bigfleet_demo.Common.{
  ℕ, ◌≡◌, refl, sym, ◌∙◌, ◌≢◌, true, false, ◌&&◌, some, List, [], ◌∷◌, arith, Text, codes, text_eq,
  text_eq_iff, if◌then◌else◌, All,
}
use bigfleet_demo.Common.Listing.{Distinct}
use bigfleet_demo.Backend.Demand.{
  Demand, set_tier_replicas, seed_cluster, seed_others, seed_busy_fleet,
}
use bigfleet_demo.Backend.Demand.Levels.{level_of, level_of-set}

-- The levels of a cluster at rest.
abbrev pub Seeded : ℕ → ℕ → Demand → Text → Type 0
Seeded baseline demand d cl =
    (level_of cl (codes "baseline") d ≡ some baseline)
    × (level_of cl (codes "critical") d ≡ some 0)
    × (level_of cl (codes "demand") d ≡ some demand)

seed_cluster-level :
    (budget baseline demand : ℕ) (cl : Text) (d : Demand) (j u : Text)
    → level_of j u (seed_cluster budget baseline demand cl d) ≡ (
        if text_eq cl j && text_eq (codes "demand") u
        then some demand
        else if text_eq cl j && text_eq (codes "critical") u
        then some 0
        else if text_eq cl j && text_eq (codes "baseline") u
        then some baseline
        else level_of j u d)
unfolding seed_cluster
seed_cluster-level budget baseline demand cl d j u =
    let first = set_tier_replicas budget cl (codes "baseline") baseline d in
    let second = set_tier_replicas budget cl (codes "critical") 0 first in
    rw (
      level_of-set budget demand cl (codes "demand") second j u,
      level_of-set budget 0 cl (codes "critical") first j u,
      level_of-set budget baseline cl (codes "baseline") d j u,
    )

seed_cluster-Seeded :
    (budget baseline demand : ℕ) (cl : Text) (d : Demand)
    → Seeded baseline demand (seed_cluster budget baseline demand cl d) cl
unfolding text_eq
seed_cluster-Seeded budget baseline demand cl d =
    let here : text_eq cl cl ≡ true = (text_eq_iff cl cl).1 refl in
    let level = seed_cluster-level budget baseline demand cl d cl in
    (
      level (codes "baseline") ∙ rw here,
      level (codes "critical") ∙ rw here,
      level (codes "demand") ∙ rw here,
    )

seed_cluster-elsewhere :
    (budget baseline demand : ℕ) (cl j u : Text) (d : Demand)
    → j ≢ cl
    → level_of j u (seed_cluster budget baseline demand cl d) ≡ level_of j u d
seed_cluster-elsewhere budget baseline demand cl j u d ne =
    let there : text_eq cl j ≡ false =
      ground (arith, text_eq_iff cl j, λ (e : cl ≡ j). ne (sym e)) in
    seed_cluster-level budget baseline demand cl d j u ∙ rw there

-- A later cluster leaves what was seeded.
seed_others-keeps :
    (budget baseline demand : ℕ) (cl : Text) (cls : List Text) (d : Demand)
    → All (λ j. cl ≢ j) cls
    → Seeded baseline demand d cl
    → Seeded baseline demand (seed_others budget baseline cls d) cl
unfolding seed_others
seed_others-keeps budget baseline demand cl [] d ne s = s
seed_others-keeps budget baseline demand cl (c ∷ cls) d ne (batch, critical, driven) =
    let same = λ (u : Text). seed_cluster-elsewhere budget baseline 0 c cl u d ne.0 in
    seed_others-keeps budget baseline demand cl cls (seed_cluster budget baseline 0 c d) ne.1 (
      same (codes "baseline") ∙ batch,
      same (codes "critical") ∙ critical,
      same (codes "demand") ∙ driven,
    )

seed_others-Seeded :
    (budget baseline : ℕ) (cls : List Text) (d : Demand)
    → Distinct cls
    → All (Seeded baseline 0 (seed_others budget baseline cls d)) cls
unfolding seed_others
seed_others-Seeded budget baseline [] d distinct = tt
seed_others-Seeded budget baseline (c ∷ cls) d distinct =
    let next = seed_cluster budget baseline 0 c d in
    (
      seed_others-keeps budget baseline 0 c cls next distinct.0
          (seed_cluster-Seeded budget baseline 0 c d),
      seed_others-Seeded budget baseline cls next distinct.1,
    )

-- A reset puts back the level of each tier of each cluster, whatever the levels were: `baseline` for
-- the first tier, none for the critical one, and for the demand tier `donor` on the first cluster and none
-- on the others.
pub reset_restores :
    (budget baseline donor : ℕ) (cl : Text) (cls : List Text) (d : Demand)
    → Distinct (cl ∷ cls)
    → let d' = seed_busy_fleet budget (cl ∷ cls) baseline donor d in
      Seeded baseline donor d' cl × All (Seeded baseline 0 d') cls
unfolding seed_busy_fleet
reset_restores budget baseline donor cl cls d distinct =
    let start = seed_cluster budget baseline donor cl d in
    (
      seed_others-keeps budget baseline donor cl cls start distinct.0
          (seed_cluster-Seeded budget baseline donor cl d),
      seed_others-Seeded budget baseline cls start distinct.1,
    )

-- ===== src/Backend/Demand/Levels.antt =====
-- The levels that the demand model remembers for the visitor's page.
use bigfleet_demo.Common.{
  ℕ, ◌≤◌, ◌≡◌, subst, ap, ◌∙◌, ◌≢◌, inl, inr, true, ◌&&◌, Option, none, some, List, [], ◌∷◌, arith,
  Text, codes, text_eq, text_eq_iff, text_has_eq, if◌then◌else◌, Bool-cases, Option-cases,
}
use bigfleet_demo.Common.Int.{ℤ, pos, negsuc}
use bigfleet_demo.Common.Dict.{Dict, lookup, insert, lookup-insert}
use bigfleet_demo.Backend.Demand.{
  Demand, is_ensured, call, ensure_deployments, levels_of, set_tier_replicas, find_cluster, clamp,
  driven_tier, demand_handler,
}

-- The level last set for a tier of a cluster.
abbrev pub level_of : Text → Text → Demand → Option ℕ
level_of cl tier d = lookup tier (levels_of cl d)

inner : Text → Dict Text (Dict Text ℕ) → Dict Text ℕ
inner cl m = elim (lookup cl m) [ none ↦ [] | some l ↦ l ]

inner-insert :
    (cl tier : Text) (level : ℕ) (m : Dict Text (Dict Text ℕ)) (j u : Text)
    → lookup u (inner j (insert cl (insert tier level (inner cl m)) m))
      ≡ (if text_eq cl j && text_eq tier u then some level else lookup u (inner j m))
unfolding inner
inner-insert cl tier level m j u =
    let outer = lookup-insert cl j (insert tier level (inner cl m)) m in
    elim (Bool-cases (text_eq cl j)) [
      | inl e ↦
          let same : cl ≡ j = (text_eq_iff cl j).0 e in
          ground
            (arith, e, outer, ap (λ k. inner k m) same, lookup-insert tier u level (inner cl m))
      | inr e ↦ ground (arith, e, outer)
    ]

ensure_deployments-levels :
    (cl : Text) (d : Demand) → (ensure_deployments cl d).demand_level ≡ d.demand_level
unfolding ensure_deployments call
ensure_deployments-levels cl d = ground arith

-- A set changes the level of one tier of one cluster, and no other.
pub level_of-set :
    (budget level : ℕ) (cl tier : Text) (d : Demand) (j u : Text)
    → level_of j u (set_tier_replicas budget cl tier level d)
      ≡ (if text_eq cl j && text_eq tier u then some level else level_of j u d)
unfolding set_tier_replicas levels_of call inner
level_of-set budget level cl tier d j u =
    let ready = (ensure_deployments cl d).demand_level in
    let kept : ready ≡ d.demand_level = ensure_deployments-levels cl d in
    inner-insert cl tier level ready j u
    ∙ ap
        (λ (m : Dict Text (Dict Text ℕ)).
          if text_eq cl j && text_eq tier u then some level else lookup u (inner j m))
        kept

is_ensured-ensure : (cl : Text) (d : Demand) → is_ensured cl (ensure_deployments cl d) ≡ true
unfolding is_ensured ensure_deployments call
is_ensured-ensure cl d = ground (arith, lookup-insert cl cl true d.ensure_done, text_eq_iff cl cl)

ensure_again :
    (cl : Text) (d : Demand) → is_ensured cl d ≡ true → (ensure_deployments cl d).calls ≡ d.calls
unfolding ensure_deployments
ensure_again cl d e = ground (arith, e)

-- Workloads are made once: after a tier of a cluster is set, setting one again makes none.
ensured_once :
    (budget level : ℕ) (cl tier : Text) (d : Demand)
    → let d' = set_tier_replicas budget cl tier level d in
      (ensure_deployments cl d').calls ≡ d'.calls
unfolding set_tier_replicas call is_ensured
ensured_once budget level cl tier d =
    ensure_again cl (set_tier_replicas budget cl tier level d) (is_ensured-ensure cl d)

find_cluster-found :
    (cls : List Text) (name cl : Text) → find_cluster cls name ≡ some cl → cl ≡ name
unfolding find_cluster
find_cluster-found [] name cl e = ground arith
find_cluster-found (c ∷ cls) name cl e =
    ground (arith, text_eq_iff c name, find_cluster-found cls name cl)

pub driven_tier-ne : (tier : Text) → driven_tier tier ≢ codes "baseline"
unfolding driven_tier
driven_tier-ne tier e = ground (arith, e, text_eq_iff tier (codes "critical"))

pub clamp-le : (level : ℤ) → clamp level 0 40 ≤ 40
unfolding clamp
clamp-le (pos n) = ground arith
clamp-le (negsuc n) = omega arith

-- A request of a visitor that is not refused sets one level, that of the demand or the critical tier of the
-- cluster it names, to the requested level, cut off at 0 and 40, and leaves every other as it was.
demand_in_range :
    (budget : ℕ) (clusters : List Text) (workspace : Text) (level : ℤ) (tier : Text) (d d' : Demand)
    → demand_handler budget clusters workspace level tier d ≡ some d'
    → (driven_tier tier ≢ codes "baseline")
      × (clamp level 0 40 ≤ 40)
      × ((j u : Text)
          → level_of j u d' ≡ (
              if text_eq workspace j && text_eq (driven_tier tier) u
              then some (clamp level 0 40)
              else level_of j u d))
unfolding demand_handler driven_tier clamp
demand_in_range budget clusters workspace level tier d d' e =
    elim (Option-cases (find_cluster clusters workspace)) [
      | inl unknown ↦ absurd (ground (arith, e, unknown))
      | inr (cl, found) ↦
          let same : cl ≡ workspace = find_cluster-found clusters workspace cl found in
          let set : set_tier_replicas budget cl (driven_tier tier) (clamp level 0 40) d ≡ d' =
            ground (arith, e, found) in
          (
            driven_tier-ne tier,
            clamp-le level,
            λ j u.
                subst
                  (λ (k : Demand). level_of j u k ≡ (
                    if text_eq workspace j && text_eq (driven_tier tier) u
                    then some (clamp level 0 40)
                    else level_of j u d))
                  set
                  (subst
                    (λ c.
                      level_of j u
                        (set_tier_replicas budget cl (driven_tier tier) (clamp level 0 40) d)
                      ≡ (if text_eq c j && text_eq (driven_tier tier) u
                          then some (clamp level 0 40)
                          else level_of j u d))
                    same (level_of-set budget (clamp level 0 40) cl (driven_tier tier) d j u)),
          )
    ]

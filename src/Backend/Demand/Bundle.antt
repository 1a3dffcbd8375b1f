-- ===== src/Backend/Demand/Bundle.antt =====
-- How near the pods of a tier come to its level.
use bigfleet_demo.Common.{
  ℕ, ◌+◌, ◌*◌, ◌/◌, ◌%◌, ◌≤◌, ◌<◌, ◌≡◌, refl, inl, inr, List, [], ◌∷◌, ◌++◌, map, arith, Text,
  codes, text_eq, ltb, Bool-cases, All,
}
use native.Mathlib.Nat.{div-add-mod, mod-lt}
use bigfleet_demo.Common.Dict.{lookup}
use bigfleet_demo.Backend.Services.{
  tier_services, namespace_of, size_of, weight_of, batch_services, prod_services,
}
use bigfleet_demo.Backend.Demand.{
  Demand, patch_replicas, call, ensure_deployments, set_tier_replicas, total_weight, replicas,
  replicas_of,
}

-- The CPU that the pods of the services request together.
abbrev pub requested : ℕ → ℕ → List Text → ℕ
requested target total [] = 0
requested target total (svc ∷ svcs) =
    replicas_of target total svc * (size_of svc).milli_cpu + requested target total svcs

abbrev pub sizes : List Text → ℕ
sizes [] = 0
sizes (svc ∷ svcs) = (size_of svc).milli_cpu + sizes svcs

rounded :
    (a b : ℕ)
    → 0 < b
    → let q = (2 * a + b) / (2 * b) in (2 * (b * q) ≤ 2 * a + b) × (2 * a ≤ 2 * (b * q) + b)
rounded a b h =
    let parts = div-add-mod (2 * a + b) (2 * b) in
    let below : (2 * a + b) % (2 * b) < 2 * b = mod-lt (2 * a + b) (omega arith) in
    (omega arith, omega arith)

-- Rounding is off by half a pod at most.
replicas_near :
    (target total weight milli : ℕ)
    → 0 < total
    → 0 < total * milli
    → let r = replicas target total weight milli in
      (2 * (total * milli * r) ≤ 2 * (target * weight) + total * milli)
      × (2 * (target * weight) ≤ 2 * (total * milli * r) + total * milli)
unfolding replicas
replicas_near target total weight milli ht hm =
    let near = rounded (target * weight) (total * milli) hm in
    elim (Bool-cases (ltb 0 total)) [
      | inl e ↦ rw (e, replicas) near
      | inr e ↦ absurd (ground (arith, e))
    ]

requested_near :
    (target total : ℕ) (svcs : List Text)
    → 0 < total
    → All (λ svc. 0 < total * (size_of svc).milli_cpu) svcs
    → let sum = requested target total svcs in
      (2 * (total * sum) ≤ 2 * (target * total_weight svcs) + total * sizes svcs)
      × (2 * (target * total_weight svcs) ≤ 2 * (total * sum) + total * sizes svcs)
unfolding total_weight replicas_of
requested_near target total [] ht hs = (omega arith, omega arith)
requested_near target total (svc ∷ svcs) ht hs =
    let near = replicas_near target total (weight_of svc) (size_of svc).milli_cpu ht hs.0 in
    let rest = requested_near target total svcs ht hs.1 in (omega arith, omega arith)

batch_near :
    (target : ℕ)
    → let sum = requested target (total_weight batch_services) batch_services in
      (sum ≤ target + 6000) × (target ≤ sum + 6000)
unfolding total_weight weight_of size_of lookup text_eq
batch_near target =
    let near = requested_near target 22 batch_services (omega arith) (omega arith) in
    (omega arith, omega arith)

prod_near :
    (target : ℕ)
    → let sum = requested target (total_weight prod_services) prod_services in
      (sum ≤ target + 6500) × (target ≤ sum + 6500)
unfolding total_weight weight_of size_of lookup text_eq
prod_near target =
    let near = requested_near target 29 prod_services (omega arith) (omega arith) in
    (omega arith, omega arith)

-- What the replicas that a tier is patched to request together.
abbrev pub bundle : ℕ → Text → ℕ
bundle target tier = let svcs = tier_services tier in requested target (total_weight svcs) svcs

tier_near :
    (target : ℕ) (tier : Text)
    → (bundle target tier ≤ target + 6500) × (target ≤ bundle target tier + 6500)
unfolding tier_services
tier_near target tier = elim (Bool-cases (text_eq tier (codes "baseline"))) [
  | inl e ↦ rw (e, tier_services) (let near = batch_near target in (omega arith, omega arith))
  | inr e ↦ rw (e, tier_services) (prod_near target)
]

-- Setting a tier to a level patches every service of the tier once, after its workloads are made, to
-- replicas whose CPU requests differ together from `level` node budgets by 6.5 cores at most.
pub bundle_near_level :
    (budget level : ℕ) (cl tier : Text) (d : Demand)
    → let target = level * budget in
      let svcs = tier_services tier in
      let patch = λ (svc : Text).
        patch_replicas (namespace_of tier) svc (replicas_of target (total_weight svcs) svc) in
      ((set_tier_replicas budget cl tier level d).calls
        ≡ (ensure_deployments cl d).calls ++ map (λ c. (cl, c)) (map patch svcs))
      × (bundle target tier ≤ target + 6500)
      × (target ≤ bundle target tier + 6500)
unfolding set_tier_replicas call
bundle_near_level budget level cl tier d =
    let (below, above) = tier_near (level * budget) tier in (refl, below, above)

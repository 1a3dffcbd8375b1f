-- ===== src/Backend/Demand.antt =====
-- backend/cmd/demo-backend/main.go: the demand model, `setTierReplicas`, `seedBusyFleet` and their
-- handlers. What a cluster is told is the list of calls to its API server; a call is repeated while
-- it fails, and its outcome only reaches the log.
pub mod Bundle
pub mod Levels
pub mod Reset
pub mod Patches
pub mod Replay
use bigfleet_demo.Common.{
  ℕ, zero, suc, ◌+◌, ◌*◌, ◌/◌, Bool, true, false, Option, none, some, List, [], ◌∷◌, ◌++◌, map,
  Text, codes, text_eq, text_has_eq, ltb, if◌then◌else◌,
}
use bigfleet_demo.Common.Int.{ℤ, pos, negsuc, ltb_ℤ}
use bigfleet_demo.Common.Dict.{Dict, lookup, insert}
use bigfleet_demo.Backend.Services.{
  namespace_of, tier_services, size_of, weight_of, Deployment, make_deployment, DaemonSet,
  system_daemon_sets,
}

pub data Call : Type 0 where
  create_namespace : Text → Call
  create_deployment : Deployment → Call
  create_daemon_set : DaemonSet → Call
  patch_replicas : Text → Text → ℕ → Call

-- The package's variables `ensureDone` and `demandLevel`, and the calls made so far, each with its
-- cluster.
pub record Demand : Type 0 where
  pub ensure_done : Dict Text Bool
  pub demand_level : Dict Text (Dict Text ℕ)
  pub calls : List (Text × Call)

unfoldable pub is_ensured : Text → Demand → Bool
is_ensured cl d = elim (lookup cl d.ensure_done) [ none ↦ false | some b ↦ b ]

unfoldable pub call : Text → List Call → Demand → Demand
call cl cs d = record d { calls = d.calls ++ map (λ c. (cl, c)) cs }

unfoldable pub ensure_tier : Text → List Call
ensure_tier tier =
    let ns = namespace_of tier in
    create_namespace ns
    ∷ map (λ svc. create_deployment (make_deployment svc ns tier 0)) (tier_services tier)

unfoldable pub ensure_daemon_sets : List Call
ensure_daemon_sets =
    create_namespace (codes "kube-system") ∷ map create_daemon_set system_daemon_sets

unfoldable pub ensure_deployments : Text → Demand → Demand
ensure_deployments cl d =
    let marked = record d { ensure_done = insert cl true d.ensure_done } in
    if is_ensured cl d
    then marked
    else call cl
        (ensure_daemon_sets
          ++ (ensure_tier (codes "baseline")
              ++ (ensure_tier (codes "demand") ++ ensure_tier (codes "critical"))))
        marked

unfoldable pub total_weight : List Text → ℕ
total_weight [] = 0
total_weight (svc ∷ svcs) = weight_of svc + total_weight svcs

-- `math.Round(share / milliCPU)` for the share `target * weight / total`, as an exact fraction.
unfoldable pub replicas : ℕ → ℕ → ℕ → ℕ → ℕ
replicas target total weight milli =
    if ltb 0 total then (2 * (target * weight) + total * milli) / (2 * (total * milli)) else 0

unfoldable pub replicas_of : ℕ → ℕ → Text → ℕ
replicas_of target total svc = replicas target total (weight_of svc) (size_of svc).milli_cpu

-- `demandLevel[cl]`, made where it is missing.
unfoldable pub levels_of : Text → Demand → Dict Text ℕ
levels_of cl d = elim (lookup cl d.demand_level) [ none ↦ [] | some m ↦ m ]

unfoldable pub set_tier_replicas : ℕ → Text → Text → ℕ → Demand → Demand
set_tier_replicas budget cl tier level d =
    let ready = ensure_deployments cl d in
    let svcs = tier_services tier in
    let ns = namespace_of tier in
    let noted = record ready {
      demand_level = insert cl (insert tier level (levels_of cl ready)) ready.demand_level;
    } in
    call cl
      (map (λ svc. patch_replicas ns svc (replicas_of (level * budget) (total_weight svcs) svc))
        svcs)
      noted

unfoldable pub seed_cluster : ℕ → ℕ → ℕ → Text → Demand → Demand
seed_cluster budget baseline demand cl d = set_tier_replicas budget cl (codes "demand") demand (
    set_tier_replicas budget cl (codes "critical") 0
      (set_tier_replicas budget cl (codes "baseline") baseline d))

unfoldable pub seed_others : ℕ → ℕ → List Text → Demand → Demand
seed_others budget baseline [] d = d
seed_others budget baseline (cl ∷ cls) d =
    seed_others budget baseline cls (seed_cluster budget baseline 0 cl d)

unfoldable pub seed_busy_fleet : ℕ → List Text → ℕ → ℕ → Demand → Demand
seed_busy_fleet budget [] baseline donor d = d
seed_busy_fleet budget (cl ∷ cls) baseline donor d =
    seed_others budget baseline cls (seed_cluster budget baseline donor cl d)

unfoldable pub find_cluster : List Text → Text → Option Text
find_cluster [] name = none
find_cluster (cl ∷ cls) name = if text_eq cl name then some cl else find_cluster cls name

unfoldable pub clamp : ℤ → ℕ → ℕ → ℕ
clamp (negsuc n) lo hi = lo
clamp (pos n) lo hi = if ltb n lo then lo else if ltb hi n then hi else n

-- The tier that a request drives.
unfoldable pub driven_tier : Text → Text
driven_tier tier = if text_eq tier (codes "critical") then tier else codes "demand"

-- `none` is the answer 400.
unfoldable pub demand_handler : ℕ → List Text → Text → ℤ → Text → Demand → Option Demand
demand_handler budget clusters workspace level tier d = elim (find_cluster clusters workspace) [
  | none ↦ none
  | some cl ↦ some (set_tier_replicas budget cl (driven_tier tier) (clamp level 0 40) d)
]

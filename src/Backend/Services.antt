-- ===== src/Backend/Services.antt =====
-- backend/cmd/demo-backend/main.go: the services of a tier, their sizes and weights, and the
-- workloads made of them.
use bigfleet_demo.Common.{
  ℕ, ◌*◌, none, some, List, [], ◌∷◌, map, Text, codes, text_eq, text_has_eq, if◌then◌else◌,
}
use bigfleet_demo.Common.Dict.{Dict, lookup}

abbrev pub tier_ns : Dict Text Text
tier_ns =
    (codes "baseline", codes "batch")
    ∷ (codes "demand", codes "production")
    ∷ (codes "critical", codes "production-critical")
    ∷ []

-- `tierNS[tier]`: empty where the key is missing.
unfoldable pub namespace_of : Text → Text
namespace_of tier = elim (lookup tier tier_ns) [ none ↦ [] | some ns ↦ ns ]

abbrev pub batch_services : List Text
batch_services = map codes (
    "etl-pipeline" ∷ "ml-training" ∷ "analytics-rollup" ∷ "data-export" ∷ "log-archival"
    ∷ "nightly-report" ∷ "backup-runner" ∷ "clickstream-agg" ∷ [])

abbrev pub prod_services : List Text
prod_services = map codes (
    "web-frontend" ∷ "checkout" ∷ "payments-api" ∷ "api-gateway" ∷ "search" ∷ "inventory"
    ∷ "user-auth" ∷ "recommendations" ∷ "cart-service" ∷ "order-processor" ∷ [])

unfoldable pub tier_services : Text → List Text
tier_services tier = if text_eq tier (codes "baseline") then batch_services else prod_services

unfoldable pub tier_priority_class : Text → Text
tier_priority_class tier =
    if text_eq tier (codes "demand")
    then codes "production"
    else if text_eq tier (codes "critical")
    then codes "critical"
    else codes "batch"

pub record PodSize : Type 0 where
  pub milli_cpu : ℕ
  pub mem : Text

abbrev pub size_small : PodSize
size_small = record { milli_cpu = 500; mem = codes "2Gi" }

abbrev pub size_medium : PodSize
size_medium = record { milli_cpu = 1500; mem = codes "6Gi" }

abbrev pub size_large : PodSize
size_large = record { milli_cpu = 3000; mem = codes "12Gi" }

abbrev pub svc_size : Dict Text PodSize
svc_size =
    (codes "web-frontend", size_medium)
    ∷ (codes "checkout", size_small)
    ∷ (codes "payments-api", size_small)
    ∷ (codes "api-gateway", size_medium)
    ∷ (codes "search", size_large)
    ∷ (codes "inventory", size_small)
    ∷ (codes "user-auth", size_small)
    ∷ (codes "recommendations", size_medium)
    ∷ (codes "cart-service", size_small)
    ∷ (codes "order-processor", size_large)
    ∷ (codes "etl-pipeline", size_large)
    ∷ (codes "ml-training", size_large)
    ∷ (codes "analytics-rollup", size_medium)
    ∷ (codes "data-export", size_small)
    ∷ (codes "log-archival", size_small)
    ∷ (codes "nightly-report", size_medium)
    ∷ (codes "backup-runner", size_small)
    ∷ (codes "clickstream-agg", size_medium)
    ∷ []

abbrev pub svc_weight : Dict Text ℕ
svc_weight =
    (codes "web-frontend", 6)
    ∷ (codes "checkout", 4)
    ∷ (codes "payments-api", 1)
    ∷ (codes "api-gateway", 4)
    ∷ (codes "search", 2)
    ∷ (codes "inventory", 3)
    ∷ (codes "user-auth", 2)
    ∷ (codes "recommendations", 3)
    ∷ (codes "cart-service", 3)
    ∷ (codes "order-processor", 1)
    ∷ (codes "etl-pipeline", 3)
    ∷ (codes "ml-training", 2)
    ∷ (codes "analytics-rollup", 3)
    ∷ (codes "data-export", 4)
    ∷ (codes "log-archival", 2)
    ∷ (codes "nightly-report", 2)
    ∷ (codes "backup-runner", 3)
    ∷ (codes "clickstream-agg", 3)
    ∷ []

unfoldable pub size_of : Text → PodSize
size_of svc = elim (lookup svc svc_size) [ none ↦ size_medium | some s ↦ s ]

unfoldable pub weight_of : Text → ℕ
weight_of svc = elim (lookup svc svc_weight) [ none ↦ 1 | some w ↦ w ]

-- What `makeDeployment` computes; the labels, the probes and the image are constants.
pub record Deployment : Type 0 where
  pub name : Text
  pub ns : Text
  pub tier : Text
  pub replicas : ℕ
  pub priority_class : Text
  pub request_milli_cpu : ℕ
  pub limit_milli_cpu : ℕ
  pub mem : Text

unfoldable pub make_deployment : Text → Text → Text → ℕ → Deployment
make_deployment svc ns tier replicas =
    let size = size_of svc in
    record {
      name = svc;
      ns = ns;
      tier = tier;
      replicas = replicas;
      priority_class = tier_priority_class tier;
      request_milli_cpu = size.milli_cpu;
      limit_milli_cpu = size.milli_cpu * 2;
      mem = size.mem;
    }

pub record DaemonSet : Type 0 where
  pub name : Text
  pub milli_cpu : ℕ
  pub mem : Text

abbrev pub system_daemon_sets : List DaemonSet
system_daemon_sets =
    record { name = codes "kube-proxy"; milli_cpu = 100; mem = codes "128Mi" }
    ∷ record { name = codes "cni-node-agent"; milli_cpu = 100; mem = codes "128Mi" }
    ∷ record { name = codes "node-exporter"; milli_cpu = 50; mem = codes "64Mi" }
    ∷ []

-- ===== src/Backend/Fleet/Tallies.antt =====
-- The counts of a poll agree with each other.
use bigfleet_demo.Common.{
  ℕ, zero, suc, ◌+◌, ◌*◌, ◌<◌, ◌≡◌, refl, ap, subst, ◌∙◌, ◌↔◌, inl, inr, none, some, List, [], ◌∷◌,
  arith, Text, text_has_eq, Bool-cases, Option-cases,
}
use bigfleet_demo.Common.Dict.{Dict, lookup, insert}
use bigfleet_demo.Backend.Demand.{clamp}
use bigfleet_demo.Backend.Fleet.{
  bump, Tier, committed, spot, on_demand, Tally, no_tally, count_tier, count_node, count_nodes,
  Listing, count_ready, tally_clusters, CapConfig, capacity_of,
}
use bigfleet_demo.Backend.Nodes.{Node, node_ready}

-- The counts of a map together.
abbrev pub total : Dict Text ℕ → ℕ
total [] = 0
total ((k, n) ∷ m) = n + total m

total-bump : (k : Text) (m : Dict Text ℕ) → total (bump k m) ≡ total m + 1
unfolding bump lookup insert
total-bump k [] = refl
total-bump k ((j, n) ∷ m) = ground (arith, total-bump k m)

-- Every ready node is counted once on each side.
pub record Balanced (ready : ℕ) (t : Tally) : Type 0 where
  pub by_billing : t.committed_ready + t.cloud_ready ≡ ready
  pub by_cloud_billing : t.on_demand_ready + t.spot_ready ≡ t.cloud_ready
  pub by_provider : total t.fleet_by_cloud ≡ ready
  pub committed_providers : total t.committed_by_prov ≡ t.committed_ready
  pub cloud_providers : total t.cloud_by_prov ≡ t.cloud_ready
  pub committed_types : total t.committed_by_type ≡ t.committed_ready
  pub on_demand_types : total t.cloud_by_type ≡ t.on_demand_ready
  pub spot_types : total t.spot_by_type ≡ t.spot_ready

count_tier-Balanced :
    (tier : Tier) (it prov : Text) (n : ℕ) (t : Tally)
    → Balanced n t
    → Balanced
        (n + 1)
        (count_tier tier it prov (record t { fleet_by_cloud = bump prov t.fleet_by_cloud }))
unfolding count_tier
count_tier-Balanced committed it prov n t b = record {
  by_billing = omega arith;
  by_cloud_billing = omega arith;
  by_provider = total-bump prov t.fleet_by_cloud ∙ ap (λ i. i + 1) b.by_provider;
  committed_providers = total-bump prov t.committed_by_prov ∙ ap (λ i. i + 1) b.committed_providers;
  cloud_providers = b.cloud_providers;
  committed_types = total-bump it t.committed_by_type ∙ ap (λ i. i + 1) b.committed_types;
  on_demand_types = b.on_demand_types;
  spot_types = b.spot_types;
}
count_tier-Balanced spot it prov n t b = record {
  by_billing = omega arith;
  by_cloud_billing = omega arith;
  by_provider = total-bump prov t.fleet_by_cloud ∙ ap (λ i. i + 1) b.by_provider;
  committed_providers = b.committed_providers;
  cloud_providers = total-bump prov t.cloud_by_prov ∙ ap (λ i. i + 1) b.cloud_providers;
  committed_types = b.committed_types;
  on_demand_types = b.on_demand_types;
  spot_types = total-bump it t.spot_by_type ∙ ap (λ i. i + 1) b.spot_types;
}
count_tier-Balanced on_demand it prov n t b = record {
  by_billing = omega arith;
  by_cloud_billing = omega arith;
  by_provider = total-bump prov t.fleet_by_cloud ∙ ap (λ i. i + 1) b.by_provider;
  committed_providers = b.committed_providers;
  cloud_providers = total-bump prov t.cloud_by_prov ∙ ap (λ i. i + 1) b.cloud_providers;
  committed_types = b.committed_types;
  on_demand_types = total-bump it t.cloud_by_type ∙ ap (λ i. i + 1) b.on_demand_types;
  spot_types = b.spot_types;
}

count_nodes-Balanced :
    (ns : List Node) (n : ℕ) (t : Tally)
    → Balanced n t
    → Balanced (n + count_ready ns) (count_nodes ns t)
unfolding count_nodes count_ready count_node
count_nodes-Balanced [] n t b = subst (λ k. Balanced k t) (omega arith) b
count_nodes-Balanced (x ∷ ns) n t b = elim (Bool-cases (node_ready x)) [
  | inl e ↦
      rw (e, count_nodes, count_ready)
        (subst (λ k. Balanced k (count_nodes ns (count_node x.labels t))) (omega arith)
          (count_nodes-Balanced ns (n + 1) (count_node x.labels t)
            (count_tier-Balanced _ _ _ n t b)))
  | inr e ↦ rw (e, count_nodes, count_ready) (count_nodes-Balanced ns n t b)
]

-- The ready nodes of the clusters that could be listed.
abbrev pub ready_in : List Listing → ℕ
ready_in [] = 0
ready_in (l ∷ ls) = elim l.nodes [ none ↦ 0 | some ns ↦ count_ready ns ] + ready_in ls

tally_clusters-Balanced :
    (ls : List Listing) (n : ℕ) (t : Tally)
    → Balanced n t
    → Balanced (n + ready_in ls) (tally_clusters ls t)
unfolding tally_clusters
tally_clusters-Balanced [] n t b = subst (λ k. Balanced k t) (omega arith) b
tally_clusters-Balanced (l ∷ ls) n t b = elim (Option-cases l.nodes) [
  | inl e ↦
      rw (e, tally_clusters)
        (subst (λ k. Balanced k (tally_clusters ls t)) (omega arith)
          (tally_clusters-Balanced ls n t b))
  | inr (ns, e) ↦
      rw (e, tally_clusters)
        (subst (λ k. Balanced k (tally_clusters ls (count_nodes ns t))) (omega arith)
          (tally_clusters-Balanced ls (n + count_ready ns) (count_nodes ns t)
            (count_nodes-Balanced ns n t b)))
]

-- A poll counts every ready node of the clusters that could be listed exactly once: by its billing, as
-- committed, spot or on-demand; by its provider; and by its instance type among those of its billing.
pub poll-Balanced : (ls : List Listing) → Balanced (ready_in ls) (tally_clusters ls no_tally)
poll-Balanced ls =
    subst (λ k. Balanced k (tally_clusters ls no_tally)) (omega arith)
      (tally_clusters-Balanced ls 0 no_tally (record {
        by_billing = refl;
        by_cloud_billing = refl;
        by_provider = refl;
        committed_providers = refl;
        cloud_providers = refl;
        committed_types = refl;
        on_demand_types = refl;
        spot_types = refl;
      }))

free_iff : (a b p q c : ℕ) → 0 < p → 0 < q → a + b ≡ c → (a * p + b * q ≡ 0) ↔ (c ≡ 0)
free_iff a b zero q c dear cheap sum = absurd (omega arith)
free_iff a b (suc p) zero c dear cheap sum = absurd (omega arith)
free_iff a b (suc p) (suc q) c dear cheap sum = (
  λ e. omega arith,
  λ e.
      let none_a : a ≡ 0 = omega arith in
      let none_b : b ≡ 0 = omega arith in rw (none_a, none_b) (omega arith),
)

-- The capacity that a poll shows adds up: used and idle are together the committed pool, provisioned
-- and available together the quota, and, where both prices are positive, the cost is zero exactly
-- when no cloud node is ready.
pub capacity_adds_up :
    (cfg : CapConfig) (ls : List Listing)
    → 0 < cfg.node_hourly
    → 0 < cfg.spot_hourly
    → let t = tally_clusters ls no_tally in
      let c = capacity_of cfg t in
      (c.onprem_in_use + c.onprem_idle ≡ c.onprem_total)
      × (c.cloud_in_use + c.cloud_available ≡ c.cloud_total)
      × ((c.cost_per_hour ≡ 0) ↔ (t.cloud_ready ≡ 0))
unfolding capacity_of clamp
capacity_adds_up cfg ls dear cheap =
    let t = tally_clusters ls no_tally in
    let sum = (poll-Balanced ls).by_cloud_billing in
    (
      ground arith,
      ground arith,
      free_iff t.on_demand_ready t.spot_ready cfg.node_hourly cfg.spot_hourly t.cloud_ready dear
          cheap sum,
    )

-- ===== src/Backend/Fleet/Counted.antt =====
-- Which nodes each counter of a poll counts.
use bigfleet_demo.Common.{
  ℕ, ◌+◌, ◌≡◌, refl, ◌∙◌, ◌||◌, ◌&&◌, not, Bool, true, false, bit, none, some, List, [], ◌∷◌, arith,
  Text, codes, text_eq, text_eq_iff, text_has_eq, Bool-cases, Option-cases, inl, inr,
}
use bigfleet_demo.Common.Dict.{Dict, lookup, lookup-insert}
use bigfleet_demo.Backend.Fleet.{
  bump, Tier, committed, spot, on_demand, tier_of, Tally, no_tally, count_tier, count_node,
  count_nodes, Listing, tally_clusters,
}
use bigfleet_demo.Backend.Feed.{count_at}
use bigfleet_demo.Backend.Nodes.{Node, node_ready, node_tier, cloud_of, label, instance_type_key}

abbrev pub Labels : Type 0
Labels = Dict Text Text

-- How a node is billed, by the text that `nodeTier` gives.
abbrev pub is_committed : Labels → Bool
is_committed l = text_eq (node_tier l) (codes "owned") || text_eq (node_tier l) (codes "reserved")

abbrev pub is_spot : Labels → Bool
is_spot l = text_eq (node_tier l) (codes "spot")

-- Any other text, the empty one included.
abbrev pub is_on_demand : Labels → Bool
is_on_demand l = not (is_committed l || is_spot l)

abbrev pub has_provider : Text → Labels → Bool
has_provider p l = text_eq (cloud_of (label instance_type_key l)) p

abbrev pub has_type : Text → Labels → Bool
has_type t l = text_eq (label instance_type_key l) t

-- The ready nodes, of the clusters that could be listed, whose labels pass the test.
unfoldable pub ready_nodes : (Labels → Bool) → List Node → ℕ
ready_nodes p [] = 0
ready_nodes p (n ∷ ns) = bit (node_ready n && p n.labels) + ready_nodes p ns

unfoldable pub ready_where : (Labels → Bool) → List Listing → ℕ
ready_where p [] = 0
ready_where p (l ∷ ls) = elim l.nodes [ none ↦ 0 | some ns ↦ ready_nodes p ns ] + ready_where p ls

-- Each counter holds the nodes that it is named for; `k` is a provider or an instance type.
pub record Counted (k : Text) (ls : List Listing) (t : Tally) : Type 0 where
  pub committed_nodes : t.committed_ready ≡ ready_where is_committed ls
  pub spot_nodes : t.spot_ready ≡ ready_where is_spot ls
  pub on_demand_nodes : t.on_demand_ready ≡ ready_where is_on_demand ls
  pub cloud_nodes : t.cloud_ready ≡ ready_where (λ l. not (is_committed l)) ls
  pub provider : count_at k t.fleet_by_cloud ≡ ready_where (has_provider k) ls
  pub committed_provider :
      count_at k t.committed_by_prov ≡ ready_where (λ l. is_committed l && has_provider k l) ls
  pub cloud_provider :
      count_at k t.cloud_by_prov ≡ ready_where (λ l. not (is_committed l) && has_provider k l) ls
  pub committed_type :
      count_at k t.committed_by_type ≡ ready_where (λ l. is_committed l && has_type k l) ls
  pub on_demand_type :
      count_at k t.cloud_by_type ≡ ready_where (λ l. is_on_demand l && has_type k l) ls
  pub spot_type : count_at k t.spot_by_type ≡ ready_where (λ l. is_spot l && has_type k l) ls

count_at-bump :
    (j k : Text) (m : Dict Text ℕ) → count_at k (bump j m) ≡ count_at k m + bit (text_eq j k)
unfolding bump count_at
count_at-bump j k m = elim (Option-cases (lookup j m)) [
  | inl e ↦ ground (arith, e, text_eq_iff j k, lookup-insert j k 1 m)
  | inr (n, e) ↦ ground (arith, e, text_eq_iff j k, lookup-insert j k (n + 1) m)
]

-- A counter that each ready node raises where its labels pass a test counts those that do.
module _ (f : Tally → ℕ) (p : Labels → Bool)
    (adds : (l : Labels) (t : Tally) → f (count_node l t) ≡ f t + bit (p l)) where
  counts-nodes : (ns : List Node) (t : Tally) → f (count_nodes ns t) ≡ f t + ready_nodes p ns
  unfolding count_nodes ready_nodes
  counts-nodes [] t = omega arith
  counts-nodes (n ∷ ns) t = elim (Bool-cases (node_ready n)) [
    | inl e ↦
        rw (e, count_nodes, ready_nodes)
          (omega (arith, counts-nodes ns (count_node n.labels t), adds n.labels t))
    | inr e ↦ rw (e, count_nodes, ready_nodes) (omega (arith, counts-nodes ns t))
  ]

  counts-clusters :
      (ls : List Listing) (t : Tally) → f (tally_clusters ls t) ≡ f t + ready_where p ls
  unfolding tally_clusters ready_where
  counts-clusters [] t = omega arith
  counts-clusters (l ∷ ls) t = elim (Option-cases l.nodes) [
    | inl e ↦ rw (e, tally_clusters, ready_where) (omega (arith, counts-clusters ls t))
    | inr (ns, e) ↦
        rw (e, tally_clusters, ready_where)
          (omega (arith, counts-clusters ls (count_nodes ns t), counts-nodes ns t))
  ]

one_tier :
    (x : Text)
    → (text_eq x (codes "owned") || text_eq x (codes "reserved")) ≡ true
    → text_eq x (codes "spot") ≡ false
unfolding text_eq
one_tier x e = elim (Bool-cases (text_eq x (codes "owned"))) [
  | inl q ↦ rw ((text_eq_iff x (codes "owned")).0 q) refl
  | inr q ↦ rw ((text_eq_iff x (codes "reserved")).0 (ground (arith, e, q))) refl
]

-- The labels of a node, the counters before it, and the counters with its provider counted.
module _ (f : Tally → ℕ) (p : Labels → Bool) (l : Labels) (t : Tally) where
  abbrev noted : Tally
  noted = record t { fleet_by_cloud = bump (cloud_of (label instance_type_key l)) t.fleet_by_cloud }

  abbrev Adds : Tier → Type 0
  Adds tier =
      f (count_tier tier (label instance_type_key l) (cloud_of (label instance_type_key l)) noted)
      ≡ f t + bit (p l)

  by_tier :
      (is_committed l ≡ true → is_spot l ≡ false → Adds committed)
      → (is_committed l ≡ false → is_spot l ≡ true → Adds spot)
      → (is_committed l ≡ false → is_spot l ≡ false → Adds on_demand)
      → f (count_node l t) ≡ f t + bit (p l)
  unfolding count_node tier_of
  by_tier c s o = elim (Bool-cases (is_committed l)) [
    | inl e ↦ rw (e, tier_of, count_node) (c e (one_tier (node_tier l) e))
    | inr e ↦ elim (Bool-cases (is_spot l)) [
      | inl q ↦ rw (e, q, tier_of, count_node) (s e q)
      | inr q ↦ rw (e, q, tier_of, count_node) (o e q)
    ]
  ]

-- A counter that begins at 0, by what a node of each billing adds to it.
module _ (f : Tally → ℕ) (p : Labels → Bool) (zero : f no_tally ≡ 0) where
  counted_by :
      ((l : Labels) (t : Tally)
        → is_committed l ≡ true
        → is_spot l ≡ false
        → Adds f p l t committed)
      → ((l : Labels) (t : Tally) → is_committed l ≡ false → is_spot l ≡ true → Adds f p l t spot)
      → ((l : Labels) (t : Tally)
          → is_committed l ≡ false
          → is_spot l ≡ false
          → Adds f p l t on_demand)
      → (ls : List Listing) → f (tally_clusters ls no_tally) ≡ ready_where p ls
  counted_by c s o ls =
      counts-clusters f p (λ l t. by_tier f p l t (c l t) (s l t) (o l t)) ls no_tally
      ∙ omega (arith, zero)

-- Whatever the provider or the type: a poll of the clusters counts every ready node of those that could
-- be listed where its labels say and nowhere else. `committed_ready` counts the nodes whose tier is
-- `owned` or `reserved`, `spot_ready` those of tier `spot`, `on_demand_ready` all others and
-- `cloud_ready` all that are not committed; each map holds under a provider or an instance type the
-- nodes of this provider or type, of all billings, or of the one that it stands for.
pub poll-Counted : (k : Text) (ls : List Listing) → Counted k ls (tally_clusters ls no_tally)
unfolding count_tier count_at lookup
poll-Counted k ls = record {
  committed_nodes =
      counted_by (λ t. t.committed_ready) is_committed refl (λ l t e q. ground (arith, e, q))
        (λ l t e q. ground (arith, e, q)) (λ l t e q. ground (arith, e, q)) ls;
  spot_nodes =
      counted_by (λ t. t.spot_ready) is_spot refl (λ l t e q. ground (arith, e, q))
        (λ l t e q. ground (arith, e, q)) (λ l t e q. ground (arith, e, q)) ls;
  on_demand_nodes =
      counted_by (λ t. t.on_demand_ready) is_on_demand refl (λ l t e q. ground (arith, e, q))
        (λ l t e q. ground (arith, e, q)) (λ l t e q. ground (arith, e, q)) ls;
  cloud_nodes =
      counted_by (λ t. t.cloud_ready) (λ l. not (is_committed l)) refl
        (λ l t e q. ground (arith, e, q)) (λ l t e q. ground (arith, e, q))
        (λ l t e q. ground (arith, e, q)) ls;
  provider =
      counted_by (λ t. count_at k t.fleet_by_cloud) (has_provider k) refl
        (λ l t e q.
          ground
            (arith, e, q, count_at-bump (cloud_of (label instance_type_key l)) k t.fleet_by_cloud))
        (λ l t e q.
          ground
            (arith, e, q, count_at-bump (cloud_of (label instance_type_key l)) k t.fleet_by_cloud))
        (λ l t e q.
          ground
            (arith, e, q, count_at-bump (cloud_of (label instance_type_key l)) k t.fleet_by_cloud))
        ls;
  committed_provider =
      counted_by (λ t. count_at k t.committed_by_prov) (λ l. is_committed l && has_provider k l)
        refl
        (λ l t e q.
          ground (
            arith,
            e,
            q,
            count_at-bump (cloud_of (label instance_type_key l)) k t.committed_by_prov,
          ))
        (λ l t e q. ground (arith, e, q)) (λ l t e q. ground (arith, e, q)) ls;
  cloud_provider =
      counted_by (λ t. count_at k t.cloud_by_prov) (λ l. not (is_committed l) && has_provider k l)
        refl (λ l t e q. ground (arith, e, q))
        (λ l t e q.
          ground
            (arith, e, q, count_at-bump (cloud_of (label instance_type_key l)) k t.cloud_by_prov))
        (λ l t e q.
          ground
            (arith, e, q, count_at-bump (cloud_of (label instance_type_key l)) k t.cloud_by_prov))
        ls;
  committed_type =
      counted_by (λ t. count_at k t.committed_by_type) (λ l. is_committed l && has_type k l) refl
        (λ l t e q.
          ground (arith, e, q, count_at-bump (label instance_type_key l) k t.committed_by_type))
        (λ l t e q. ground (arith, e, q)) (λ l t e q. ground (arith, e, q)) ls;
  on_demand_type =
      counted_by (λ t. count_at k t.cloud_by_type) (λ l. is_on_demand l && has_type k l) refl
        (λ l t e q. ground (arith, e, q)) (λ l t e q. ground (arith, e, q))
        (λ l t e q.
          ground (arith, e, q, count_at-bump (label instance_type_key l) k t.cloud_by_type))
        ls;
  spot_type =
      counted_by (λ t. count_at k t.spot_by_type) (λ l. is_spot l && has_type k l) refl
        (λ l t e q. ground (arith, e, q))
        (λ l t e q.
          ground (arith, e, q, count_at-bump (label instance_type_key l) k t.spot_by_type))
        (λ l t e q. ground (arith, e, q)) ls;
}

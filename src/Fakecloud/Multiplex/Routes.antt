-- ===== src/Fakecloud/Multiplex/Routes.antt =====
-- Every machine that a cloud describes is routed back to that cloud.
use bigfleet_demo.Common.{
  ℕ, zero, suc, ◌+◌, ◌≡◌, refl, ◌≢◌, List, [], ◌∷◌, ◌++◌, arith, Text, All, All-append, text_has_eq,
}
use mathlib.Core.List.{Memᴰ}
use bigfleet_demo.Fakecloud.Catalog.{
  Kit, Instance, Tier, Catalog, machine_id, instance_of, tier_instances, tiers_instances, instances,
}
use bigfleet_demo.Fakecloud.Multiplex.{
  FakeBackend, MultiplexBackend, prefix_of, ok, describe_sub, route,
}

-- A text without a dash.
abbrev pub NoDash : Text → Type 0
NoDash = All (λ c. c ≢ b'-')

pub prefix_of-dash : (s r : Text) → NoDash s → prefix_of (s ++ b'-' ∷ r) ≡ s
unfolding prefix_of
prefix_of-dash [] r h = refl
prefix_of-dash (c ∷ s) r h = ground (arith, h.0, prefix_of-dash s r h.1)

module _ (k : Kit) where
  -- What holds of machine `n` for every tier and number holds of the whole catalog.
  tier_instances-All {ℓ} :
      (P : Instance k → Type ℓ) (c : Catalog k) (t : Tier k) (left n : ℕ)
      → ((m : ℕ) → P (instance_of k c t m))
      → All P (tier_instances k c t left n)
  unfolding tier_instances
  tier_instances-All P c t zero n h = tt
  tier_instances-All P c t (suc left) n h = (h n, tier_instances-All P c t left (n + 1) h)

  tiers_instances-All {ℓ} :
      (P : Instance k → Type ℓ) (c : Catalog k) (ts : List (Tier k)) (n : ℕ)
      → All (λ t. (m : ℕ) → P (instance_of k c t m)) ts
      → All P (tiers_instances k c ts n)
  unfolding tiers_instances
  tiers_instances-All P c [] n h = tt
  tiers_instances-All P c (t ∷ ts) n h =
      All-append P _ _ (tier_instances-All P c t t.count n h.0)
        (tiers_instances-All P c ts (n + t.count) h.1)

  pub instances-All_tiers {ℓ} :
      (P : Instance k → Type ℓ) (c : Catalog k)
      → All (λ t. (m : ℕ) → P (instance_of k c t m)) c.tiers
      → All P (instances k c)
  unfolding instances
  instances-All_tiers P c h = tiers_instances-All P c c.tiers 0 h

  pub instances-All {ℓ} :
      (P : Instance k → Type ℓ) (c : Catalog k)
      → ((t : Tier k) (m : ℕ) → P (instance_of k c t m))
      → All P (instances k c)
  instances-All P c h = instances-All_tiers P c (each c.tiers)
    where
      each : (ts : List (Tier k)) → All (λ t. (m : ℕ) → P (instance_of k c t m)) ts
      each [] = tt
      each (t ∷ ts) = (h t, each ts)

  pub instances-prefix :
      (c : Catalog k) → NoDash c.cloud → All (λ x. prefix_of x.id ≡ c.cloud) (instances k c)
  unfolding instance_of machine_id
  instances-prefix c h =
      instances-All (λ x. prefix_of x.id ≡ c.cloud) c (λ t m. prefix_of-dash c.cloud _ h)

  -- The backend that a machine's id leads to describes the machine.
  abbrev pub Routed : MultiplexBackend k → Instance k → Type 0
  Routed m x = (b : FakeBackend k) × (route k m x.id ≡ ok b) × Memᴰ x (describe_sub k b)

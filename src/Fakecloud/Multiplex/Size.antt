-- ===== src/Fakecloud/Multiplex/Size.antt =====
-- The fleet as the three clouds describe it: its size, and the machines that have a host.
use bigfleet_demo.Common.{
  ℕ, zero, suc, ◌+◌, ◌≡◌, refl, sym, ap, ◌≢◌, ◌⊎◌, false, none, some, List, [], ◌∷◌, arith, Text,
  codes, text_eq_iff, All, All-append, length, length-append, text_eq,
}
use bigfleet_demo.Common.Decimal.{padded}
use bigfleet_demo.Common.Dict.{lookup}
use bigfleet_demo.Fakecloud.Catalog.{
  Kit, Instance, Tier, Catalog, machine_id, instance_of, tier_instances, tiers_instances, instances,
  onprem_catalog, aws_catalog, gcp_catalog,
}
use bigfleet_demo.Fakecloud.Multiplex.{
  Options, prefix_of, with_defaults, new, describe_sub, describe_order, describe, create_instance,
  configure_instance, drain_instance, delete_instance, route, err, invalid_machine,
}
use bigfleet_demo.Fakecloud.Multiplex.Routes.{instances-All, NoDash, prefix_of-dash}
use bigfleet_demo.Fakecloud.Multiplex.Fleet.{total}

abbrev pub size : Options → ℕ
size o =
    o.onprem_bare_metal
    + (o.aws_reserved + o.aws_on_demand + o.aws_spot)
    + (o.gcp_on_demand + o.gcp_spot)

differs : (s t : Text) → s ≢ t → text_eq t s ≡ false
differs s t ne = ground (arith, ne, text_eq_iff t s, λ (e : t ≡ s). ne (sym e))

module _ (k : Kit) where
  tier-length :
      (c : Catalog k) (t : Tier k) (left n : ℕ) → length (tier_instances k c t left n) ≡ left
  unfolding tier_instances
  tier-length c t zero n = refl
  tier-length c t (suc left) n = ap suc (tier-length c t left (n + 1))

  tiers-length :
      (c : Catalog k) (ts : List (Tier k)) (n : ℕ) → length (tiers_instances k c ts n) ≡ total k ts
  unfolding tiers_instances
  tiers-length c [] n = refl
  tiers-length c (t ∷ ts) n = rw (
    length-append (tier_instances k c t t.count n) (tiers_instances k c ts (n + t.count)),
    tier-length c t t.count n,
    tiers-length c ts (n + t.count),
  )

  instances-length : (c : Catalog k) → length (instances k c) ≡ total k c.tiers
  unfolding instances
  instances-length c = tiers-length c c.tiers 0

  -- `Describe` lists as many machines as the sizes with their defaults add up to.
  pub describe-size :
      (o : Options)
      → (xs : List (Instance k)) × (describe k (new k o) ≡ some xs)
        × (length xs ≡ size (with_defaults o))
  unfolding describe describe_order new lookup onprem_catalog aws_catalog gcp_catalog text_eq
      describe_sub
  describe-size o = (
    _,
    refl,
    rw
        (
          length-append (instances k onprem) _,
          length-append (instances k aws) _,
          length-append (instances k gcp) [],
        )
        (ground (arith, instances-length onprem, instances-length aws, instances-length gcp)),
  )
    where
      onprem : Catalog k
      onprem = onprem_catalog k (with_defaults o).onprem_bare_metal

      aws : Catalog k
      aws =
          aws_catalog k (with_defaults o).aws_reserved (with_defaults o).aws_on_demand
            (with_defaults o).aws_spot

      gcp : Catalog k
      gcp = gcp_catalog k (with_defaults o).gcp_on_demand (with_defaults o).gcp_spot

  -- The host of a machine is itself, under the name of its cloud, and it has one just when it is idle.
  abbrev pub HostOk : Instance k → Type 0
  HostOk x =
      ((x.state ≡ k.idle) × (x.host ≡ some (record { provider = prefix_of x.id; ref = x.id })))
      ⊎ ((x.state ≢ k.idle) × (x.host ≡ none))

  instance_of-HostOk :
      (c : Catalog k) → NoDash c.cloud → (t : Tier k) (n : ℕ) → HostOk (instance_of k c t n)
  unfolding instance_of machine_id
  instance_of-HostOk c h t n =
      rw (prefix_of-dash c.cloud (padded n) h) (ground (arith, k.state_eq.same_iff t.state k.idle))

  -- A machine that `Describe` lists has a host, itself, just when its state is idle.
  pub describe_hosts :
      (o : Options) → (xs : List (Instance k)) × (describe k (new k o) ≡ some xs) × All HostOk xs
  unfolding describe describe_order new lookup onprem_catalog aws_catalog gcp_catalog text_eq
      describe_sub
  describe_hosts o =
      let cloud =
        λ (c : Catalog k) (h : NoDash c.cloud). instances-All k HostOk c (instance_of-HostOk c h) in
      (
        _,
        refl,
        All-append HostOk _ _ (cloud _ (omega arith)) (
            All-append HostOk _ _ (cloud _ (omega arith))
              (All-append HostOk _ _ (cloud _ (omega arith)) tt)),
      )

  route-foreign :
      (o : Options) (id : Text)
      → prefix_of id ≢ codes "onprem"
      → prefix_of id ≢ codes "aws"
      → prefix_of id ≢ codes "gcp"
      → route k (new k o) id ≡ err (invalid_machine id)
  unfolding route new lookup
  route-foreign o id a b c = ground (
    arith,
    differs (prefix_of id) (codes "onprem") a,
    differs (prefix_of id) (codes "aws") b,
    differs (prefix_of id) (codes "gcp") c,
  )

  -- A call for an id with the prefix of none of the three clouds is refused as an invalid machine,
  -- the same way by all four operations.
  pub foreign_refused :
      (o : Options) (id : Text)
      → prefix_of id ≢ codes "onprem"
      → prefix_of id ≢ codes "aws"
      → prefix_of id ≢ codes "gcp"
      → (create_instance k (new k o) id ≡ err (invalid_machine id))
        × (configure_instance k (new k o) id ≡ err (invalid_machine id))
        × (drain_instance k (new k o) id ≡ err (invalid_machine id))
        × (delete_instance k (new k o) id ≡ err (invalid_machine id))
  unfolding create_instance configure_instance drain_instance delete_instance
  foreign_refused o id a b c =
      let r : route k (new k o) id ≡ err (invalid_machine id) = route-foreign o id a b c in
      (rw r, rw r, rw r, rw r)

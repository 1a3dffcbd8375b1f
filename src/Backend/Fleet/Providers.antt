-- ===== src/Backend/Fleet/Providers.antt =====
-- Providers and billing as the catalogs of the clouds declare them.
use bigfleet_demo.Common.{
  ◌≡◌, refl, ◌⊎◌, inl, inr, some, List, if◌then◌else◌, Text, codes, text_eq, text_has_eq, All,
  All-append,
}
use bigfleet_demo.Common.Dict.{lookup}
use bigfleet_demo.Fakecloud.Catalog.{
  Kit, Instance, machine_id, instance_of, onprem_catalog, aws_catalog, gcp_catalog,
}
use bigfleet_demo.Fakecloud.Multiplex.{
  Options, new, describe, describe_order, describe_sub, prefix_of,
}
use bigfleet_demo.Fakecloud.Multiplex.Routes.{instances-All_tiers}
use bigfleet_demo.Host.Http.{cut_prefix}
use bigfleet_demo.Backend.Nodes.{
  cloud_of, billing_of, label, instance_type_key, node_tier, has_prefix,
}

-- The name under which the backend shows a cloud.
abbrev pub shown : Text → Text
shown cloud =
    if text_eq cloud (codes "onprem")
    then codes "On-prem"
    else if text_eq cloud (codes "gcp")
    then codes "GCP"
    else codes "AWS"

module _ (k : Kit) where
  -- A node with the labels of machine `x` is attributed to the cloud that its id names, and the rule
  -- for nodes without a billing label agrees with the label, where that is not spot.
  abbrev pub Attributed : Instance k → Type 0
  Attributed x =
      let it = label instance_type_key x.labels in
      (it ≡ x.instance_type)
      × (cloud_of it ≡ shown (prefix_of x.id))
      × ((node_tier x.labels ≡ billing_of it) ⊎ (node_tier x.labels ≡ codes "spot"))

  -- Whatever the sizes, the backend attributes a node that carries the labels of a machine that
  -- `Describe` lists to the cloud whose prefix the machine's id has; its instance type alone gives
  -- the billing that its label declares, unless that is spot.
  pub describe-Attributed :
      (o : Options)
      → (xs : List (Instance k)) × (describe k (new k o) ≡ some xs) × All Attributed xs
  unfolding describe describe_order new lookup onprem_catalog aws_catalog gcp_catalog text_eq
      describe_sub instance_of machine_id prefix_of cloud_of has_prefix billing_of label node_tier
      cut_prefix
  describe-Attributed o = (
    _,
    refl,
    All-append Attributed _ _
        (instances-All_tiers k Attributed _ ((λ m. (refl, refl, inl refl)), tt))
        (All-append Attributed _ _
          (instances-All_tiers k Attributed _ (
            (λ m. (refl, refl, inl refl)),
            ((λ m. (refl, refl, inl refl)), ((λ m. (refl, refl, inr refl)), tt)),
          ))
          (All-append Attributed _ _
            (instances-All_tiers k Attributed _
              ((λ m. (refl, refl, inl refl)), ((λ m. (refl, refl, inr refl)), tt)))
            tt)),
  )

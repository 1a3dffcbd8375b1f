-- ===== src/NodeCreator/Labels/Kept.antt =====
-- The page reads from a node what the provider declared on the machine.
use bigfleet_demo.Common.{
  ◌≡◌, refl, sym, ap, ◌∙◌, inl, inr, false, none, some, [], ◌∷◌, Text, codes, text_eq, text_has_eq,
  Option, Option-cases,
}
use bigfleet_demo.Common.Dict.{Dict, lookup, insert, Unique}
use bigfleet_demo.Backend.Nodes
use bigfleet_demo.Backend.Fleet.Providers.{shown}
use bigfleet_demo.Backend.Nodes.{label, instance_type_key, node_tier}
use bigfleet_demo.NodeCreator.Names.{
  UpcomingNode, cloud_of, billing_of, instance_type_of, cloud_of_name, realistic_node_name,
}
use bigfleet_demo.NodeCreator.Names.Agreement.{cloud_of_agree, cloud_of_name-realistic_node_name}
use bigfleet_demo.NodeCreator.Labels.{
  kwok_node, managed_label, rack_key, billing_key, zone_key, copy_labels, ensure_billing,
  node_labels,
}
use bigfleet_demo.NodeCreator.Labels.Reads.{
  or_else, or_else-none, lookup-copy_labels, skip-insert, lookup-zone_labels,
  lookup-nodepool_labels, label-cong, lookup-ensure_billing, billing-ensure_billing,
}

-- A key that is neither a zone nor a label of a nodepool.
abbrev IsFree : Text → Type 0
IsFree j =
    (text_eq zone_key j ≡ false)
    × (text_eq (codes "topology.kubernetes.io/region") j ≡ false)
    × (text_eq (codes "cloud.google.com/gke-nodepool") j ≡ false)
    × (text_eq (codes "eks.amazonaws.com/capacityType") j ≡ false)
    × (text_eq (codes "eks.amazonaws.com/nodegroup") j ≡ false)
    × (text_eq (codes "node-role.kubernetes.io/worker") j ≡ false)

-- The labels that no later line of `nodeLabels` writes.
module _ (u : UpcomingNode) (distinct : Unique u.labels) where
  abbrev base : Dict Text Text
  base = (kwok_node, codes "fake") ∷ (managed_label, codes "true") ∷ []

  abbrev copied : Dict Text Text
  copied = copy_labels u.labels base

  lookup-copied :
      (j : Text)
      → text_eq j rack_key ≡ false
      → lookup j base ≡ none
      → lookup j copied ≡ lookup j u.labels
  lookup-copied j r b =
      lookup-copy_labels j u.labels base r distinct
      ∙ ap (or_else (lookup j u.labels)) b
      ∙ or_else-none (lookup j u.labels)

  abbrev type : Text
  type = label instance_type_key copied

  -- The labels before the billing is looked at.
  abbrev marked : Dict Text Text
  marked = insert (codes "bigfleet.demo/simulated") (codes "true") (
      insert (codes "kubernetes.io/arch") (codes "amd64")
        (insert (codes "kubernetes.io/os") (codes "linux") copied))

  lookup-marked :
      (j : Text)
      → text_eq (codes "bigfleet.demo/simulated") j ≡ false
      → text_eq (codes "kubernetes.io/arch") j ≡ false
      → text_eq (codes "kubernetes.io/os") j ≡ false
      → lookup j marked ≡ lookup j copied
  lookup-marked j a b c = skip-insert _ j _ _ a ∙ skip-insert _ j _ _ b ∙ skip-insert _ j _ _ c

  lookup-node_labels :
      (j : Text)
      → text_eq (codes "bigfleet.demo/simulated") j ≡ false
      → text_eq (codes "kubernetes.io/arch") j ≡ false
      → text_eq (codes "kubernetes.io/os") j ≡ false
      → IsFree j
      → lookup j (node_labels u) ≡ lookup j (ensure_billing type marked)
  unfolding node_labels
  lookup-node_labels j a b c (f, g, h, i, k, l) =
      lookup-zone_labels j (cloud_of type) _ _ f g
      ∙ lookup-nodepool_labels j (cloud_of type) _ h i k l

  type_kept : label instance_type_key (node_labels u) ≡ label instance_type_key u.labels
  unfolding lookup text_eq ensure_billing
  type_kept =
      let k = instance_type_key in
      label-cong k (node_labels u) u.labels (
        lookup-node_labels k refl refl refl (refl, refl, refl, refl, refl, refl)
        ∙ lookup-ensure_billing k type marked refl
        ∙ lookup-marked k refl refl refl
        ∙ lookup-copied k refl refl)

  type_copied : type ≡ label instance_type_key u.labels
  unfolding lookup text_eq
  type_copied = label-cong instance_type_key copied u.labels (lookup-copied _ refl refl)

  billing_kept :
      lookup billing_key (node_labels u)
      ≡ or_else (lookup billing_key u.labels) (some (billing_of type))
  unfolding lookup text_eq
  billing_kept =
      lookup-node_labels billing_key refl refl refl (refl, refl, refl, refl, refl, refl)
      ∙ billing-ensure_billing type marked
      ∙ ap (λ o. or_else o (some (billing_of type)))
          (lookup-marked billing_key refl refl refl ∙ lookup-copied billing_key refl refl)

-- The text, or `it` where it is empty.
abbrev nonempty : Text → Text → Text
nonempty [] it = it
nonempty (c ∷ s) it = c ∷ s

-- The tier of a node with this billing label and this type.
abbrev tier_by : Option Text → Text → Text
tier_by none it = billing_of it
tier_by (some b) it = nonempty b (billing_of it)

node_tier-tier_by :
    (l : Dict Text Text) → node_tier l ≡ tier_by (lookup billing_key l) (label instance_type_key l)
unfolding node_tier billing_of bigfleet_demo.Backend.Nodes.billing_of
node_tier-tier_by l = elim (Option-cases (lookup billing_key l)) [
  | inl e ↦ rw (e, node_tier, label) refl
  | inr ([], e) ↦ rw (e, node_tier, label) refl
  | inr (c ∷ b, e) ↦ rw (e, node_tier, label) refl
]

nonempty-same : (s : Text) → nonempty s s ≡ s
nonempty-same [] = refl
nonempty-same (c ∷ s) = refl

tier_by-or_else :
    (o : Option Text) (it : Text) → tier_by (or_else o (some (billing_of it))) it ≡ tier_by o it
tier_by-or_else none it = nonempty-same (billing_of it)
tier_by-or_else (some b) it = refl

node_tier-or_else :
    (l m : Dict Text Text)
    → label instance_type_key l ≡ label instance_type_key m
    → lookup billing_key l
      ≡ or_else (lookup billing_key m) (some (billing_of (label instance_type_key m)))
    → node_tier l ≡ node_tier m
node_tier-or_else l m t b =
    node_tier-tier_by l
    ∙ ap (tier_by (lookup billing_key l)) t
    ∙ ap (λ o. tier_by o (label instance_type_key m)) b
    ∙ tier_by-or_else (lookup billing_key m) (label instance_type_key m)
    ∙ sym (node_tier-tier_by m)

-- Where each label of the machine stands once: the page shows the node under the cloud of the
-- machine's type, by which the controller names it, and with the tier that it would read from the
-- machine's own labels, whether the provider labelled it or not.
pub node_labels-shown :
    (u : UpcomingNode)
    → Unique u.labels
    → (bigfleet_demo.Backend.Nodes.cloud_of (label instance_type_key (node_labels u))
        ≡ shown (cloud_of_name (realistic_node_name u)))
      × (node_tier (node_labels u) ≡ node_tier u.labels)
node_labels-shown u d = (
  ap bigfleet_demo.Backend.Nodes.cloud_of (type_kept u d)
      ∙ (cloud_of_agree (instance_type_of u)).0
      ∙ ap shown (sym (cloud_of_name-realistic_node_name u)),
  node_tier-or_else (node_labels u) u.labels (type_kept u d) (
      billing_kept u d
      ∙ ap (λ t. or_else (lookup billing_key u.labels) (some (billing_of t))) (type_copied u d)),
)

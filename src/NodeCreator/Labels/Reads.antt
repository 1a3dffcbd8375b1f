-- ===== src/NodeCreator/Labels/Reads.antt =====
-- What a label is after each step of `nodeLabels`.
use bigfleet_demo.Common.{
  ℕ, ◌≡◌, refl, ◌∙◌, inl, inr, false, none, some, [], ◌∷◌, arith, Text, codes, text_eq, text_eq_iff,
  text_has_eq, Option, Option-cases, Bool-cases,
}
use bigfleet_demo.Common.Dict.{Dict, lookup, insert, Unique, lookup-insert}
use bigfleet_demo.Backend.Nodes.{label}
use bigfleet_demo.NodeCreator.Names.{billing_of}
use bigfleet_demo.NodeCreator.Labels.{
  rack_key, billing_key, zone_key, copy_labels, ensure_billing, nodepool_labels, zone_labels,
}

-- What `o` holds, or else `p`.
abbrev pub or_else : Option Text → Option Text → Option Text
or_else none p = p
or_else (some v) p = some v

pub or_else-none : (o : Option Text) → or_else o none ≡ o
or_else-none none = refl
or_else-none (some v) = refl

-- Every label of the machine but the rack is copied over what stands there.
pub lookup-copy_labels :
    (j : Text) (d l : Dict Text Text)
    → text_eq j rack_key ≡ false
    → Unique d
    → lookup j (copy_labels d l) ≡ or_else (lookup j d) (lookup j l)
unfolding copy_labels lookup
lookup-copy_labels j [] l ne u = refl
lookup-copy_labels j ((k, v) ∷ d) l ne u = elim (Bool-cases (text_eq k rack_key)) [
  | inl e ↦ rw e (
      lookup-copy_labels j d l ne u.1
      ∙ ground (arith, text_eq_iff k j, text_eq_iff j rack_key, ne, e))
  | inr e ↦ rw e (
      lookup-copy_labels j d (insert k v l) ne u.1
      ∙ ground (arith, text_eq_iff k j, u.0, lookup-insert k j v l))
]

pub skip-insert :
    (k j v : Text) (l : Dict Text Text) → text_eq k j ≡ false → lookup j (insert k v l) ≡ lookup j l
skip-insert k j v l e = lookup-insert k j v l ∙ rw e refl

pub lookup-zone_labels :
    (j cloud : Text) (idx : ℕ) (l : Dict Text Text)
    → text_eq zone_key j ≡ false
    → text_eq (codes "topology.kubernetes.io/region") j ≡ false
    → lookup j (zone_labels cloud idx l) ≡ lookup j l
unfolding zone_labels
lookup-zone_labels j cloud idx l z r = elim (Option-cases (lookup zone_key l)) [
  | inl e ↦ rw (e, zone_labels) refl
  | inr (a, e) ↦ rw (e, zone_labels) (skip-insert _ j _ _ r ∙ skip-insert _ j _ l z)
]

pub lookup-nodepool_labels :
    (j cloud : Text) (l : Dict Text Text)
    → text_eq (codes "cloud.google.com/gke-nodepool") j ≡ false
    → text_eq (codes "eks.amazonaws.com/capacityType") j ≡ false
    → text_eq (codes "eks.amazonaws.com/nodegroup") j ≡ false
    → text_eq (codes "node-role.kubernetes.io/worker") j ≡ false
    → lookup j (nodepool_labels cloud l) ≡ lookup j l
unfolding nodepool_labels
lookup-nodepool_labels j cloud l a b c d = elim (Bool-cases (text_eq cloud (codes "gcp"))) [
  | inl p ↦ rw p (skip-insert _ j _ l a)
  | inr p ↦ elim (Bool-cases (text_eq cloud (codes "aws"))) [
    | inl q ↦ rw (p, q) (skip-insert _ j _ _ b ∙ skip-insert _ j _ l c)
    | inr q ↦ elim (Bool-cases (text_eq cloud (codes "onprem"))) [
      | inl r ↦ rw (p, q, r) (skip-insert _ j _ l d)
      | inr r ↦ rw (p, q, r) refl
    ]
  ]
]

pub label-cong : (k : Text) (l m : Dict Text Text) → lookup k l ≡ lookup k m → label k l ≡ label k m
unfolding label
label-cong k l m e = rw (e, label) refl

pub lookup-ensure_billing :
    (j it : Text) (l : Dict Text Text)
    → text_eq billing_key j ≡ false
    → lookup j (ensure_billing it l) ≡ lookup j l
unfolding ensure_billing
lookup-ensure_billing j it l b = elim (Option-cases (lookup billing_key l)) [
  | inl e ↦ rw (e, ensure_billing) (skip-insert _ j _ l b)
  | inr (a, e) ↦ rw (e, ensure_billing) refl
]

pub billing-ensure_billing :
    (it : Text) (l : Dict Text Text)
    → lookup billing_key (ensure_billing it l)
      ≡ or_else (lookup billing_key l) (some (billing_of it))
unfolding ensure_billing text_eq
billing-ensure_billing it l = elim (Option-cases (lookup billing_key l)) [
  | inl e ↦ rw (e, ensure_billing) (lookup-insert billing_key billing_key _ l)
  | inr (a, e) ↦ rw (e, ensure_billing) e
]

-- ===== src/NodeCreator/Labels.antt =====
-- cmd/node-creator/main.go: `nodeLabels` and `nodeAnnotations`.
pub mod Reads
pub mod Kept
use bigfleet_demo.Common.{
  ℕ, ◌≡◌, refl, none, some, List, [], ◌∷◌, ◌++◌, Text, codes, text_eq, text_has_eq, if◌then◌else◌,
}
use bigfleet_demo.Common.Dict.{Dict, lookup, insert}
use bigfleet_demo.Host.Http.{trim_prefix}
use bigfleet_demo.Backend.Nodes.{label, instance_type_key}
use bigfleet_demo.NodeCreator.Names.{
  UpcomingNode, cloud_of, billing_of, realistic_zone, region_of, trailing_num, machine_of,
}

abbrev pub managed_label : Text
managed_label = codes "bigfleet.demo/managed"

abbrev pub kwok_node : Text
kwok_node = codes "kwok.x-k8s.io/node"

abbrev pub rack_key : Text
rack_key = codes "topology.bigfleet/rack"

abbrev pub billing_key : Text
billing_key = codes "bigfleet.demo/billing"

abbrev pub zone_key : Text
zone_key = codes "topology.kubernetes.io/zone"

-- The loop over the labels of the machine, which leaves out the rack.
unfoldable pub copy_labels : Dict Text Text → Dict Text Text → Dict Text Text
copy_labels [] l = l
copy_labels ((k, v) ∷ d) l = copy_labels d (if text_eq k rack_key then l else insert k v l)

-- The billing of a machine that its provider did not label.
unfoldable pub ensure_billing : Text → Dict Text Text → Dict Text Text
ensure_billing it l = elim (lookup billing_key l) [
  | none ↦ insert billing_key (billing_of it) l
  | some b ↦ l
]

unfoldable pub nodepool_labels : Text → Dict Text Text → Dict Text Text
nodepool_labels cloud l =
    if text_eq cloud (codes "gcp")
    then insert (codes "cloud.google.com/gke-nodepool") (codes "default-pool") l
    else if text_eq cloud (codes "aws")
    then insert (codes "eks.amazonaws.com/capacityType") (codes "ON_DEMAND")
        (insert (codes "eks.amazonaws.com/nodegroup") (codes "default-ng") l)
    else if text_eq cloud (codes "onprem")
    then insert (codes "node-role.kubernetes.io/worker") [] l
    else l

unfoldable pub zone_labels : Text → ℕ → Dict Text Text → Dict Text Text
zone_labels cloud idx l = elim (lookup zone_key l) [
  | none ↦ l
  | some z ↦
      insert (codes "topology.kubernetes.io/region") (region_of cloud)
        (insert zone_key (realistic_zone cloud idx) l)
]

unfoldable pub node_labels : UpcomingNode → Dict Text Text
unfolding copy_labels ensure_billing nodepool_labels zone_labels
node_labels u =
    let base = (kwok_node, codes "fake") ∷ (managed_label, codes "true") ∷ [] in
    let l = copy_labels u.labels base in
    let it = label instance_type_key l in
    let cloud = cloud_of it in
    let marked = insert (codes "bigfleet.demo/simulated") (codes "true") (
      insert (codes "kubernetes.io/arch") (codes "amd64")
        (insert (codes "kubernetes.io/os") (codes "linux") l)) in
    zone_labels cloud (trailing_num (machine_of u))
      (nodepool_labels cloud (ensure_billing it marked))

-- The dash of the note is three bytes of UTF-8.
unfoldable pub node_annotations : Dict Text Text
node_annotations =
    (codes "bigfleet.demo/simulated", codes "true")
    ∷ (
      codes "bigfleet.demo/note",
      codes "kwok-simulated node "
          ++ (226 ∷ 128 ∷ 148 ∷ codes " the cloud is not real (see the demo's what's-real panel)"),
    )
    ∷ []

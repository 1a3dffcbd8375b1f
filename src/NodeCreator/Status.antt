-- ===== src/NodeCreator/Status.antt =====
-- cmd/node-creator/main.go: the resources and the status of a node, and the patch that restores
-- them. An amount of a resource is in thousandths.
use bigfleet_demo.Common.{
  ℕ, ◌+◌, ◌*◌, eqb, Bool, true, false, none, some, List, [], ◌∷◌, ◌++◌, Text, codes, text_has_eq,
  if◌then◌else◌,
}
use bigfleet_demo.Common.Dict.{Dict, lookup, insert}
use bigfleet_demo.NodeCreator.Hash.{rand_hex, uuid_from, internal_ip}
use bigfleet_demo.NodeCreator.Names.{UpcomingNode, cloud_of_name, os_of}

abbrev pub Resources : Type 0
Resources = Dict Text ℕ

-- `resource.MustParse("<n>Gi")`
abbrev pub gib : ℕ → ℕ
gib n = n * 1_073_741_824_000

-- The map entry, or zero, the value of an empty quantity.
unfoldable pub amount : Text → Resources → ℕ
amount k r = elim (lookup k r) [ none ↦ 0 | some v ↦ v ]

-- `allocRes` of `tick`: the machine's resources with the storage, and the pods where it has none.
unfoldable pub alloc_res : ℕ → UpcomingNode → Resources
alloc_res node_pods u =
    let r = insert (codes "ephemeral-storage") (gib 95) u.resources in
    elim (lookup (codes "pods") r) [ none ↦ insert (codes "pods") node_pods r | some p ↦ r ]

unfoldable pub add : Text → ℕ → Resources → Resources
unfolding amount
add k v r = insert k (amount k r + v) r

unfoldable pub add_reserve : Resources → Resources
unfolding add
add_reserve alloc =
    insert (codes "ephemeral-storage") (gib 100)
      (add (codes "memory") (gib 4) (add (codes "cpu") 500 alloc))

unfoldable pub alloc_matches : Resources → Resources → Bool
alloc_matches have [] = true
alloc_matches have ((k, v) ∷ want) =
    let rest = alloc_matches have want in
    elim (lookup k have) [ none ↦ false | some h ↦ if eqb h v then rest else false ]

pub record NodeInfo : Type 0 where
  pub machine_id : Text
  pub system_uuid : Text
  pub boot_id : Text
  pub kernel_version : Text
  pub os_image : Text
  pub container_runtime_version : Text
  pub kubelet_version : Text
  pub kube_proxy_version : Text
  pub operating_system : Text
  pub architecture : Text

-- An address is its type with its text.
pub record NodeStatus : Type 0 where
  pub capacity : Resources
  pub allocatable : Resources
  pub addresses : List (Text × Text)
  pub kubelet_port : ℕ
  pub node_info : NodeInfo

unfoldable pub node_status : Text → Resources → Resources → NodeStatus
unfolding cloud_of_name os_of
node_status name cap alloc =
    let (os, kernel) = os_of (cloud_of_name name) in
    record {
      capacity = cap;
      allocatable = alloc;
      addresses = (codes "Hostname", name) ∷ (codes "InternalIP", internal_ip name) ∷ [];
      kubelet_port = 10250;
      node_info = record {
        machine_id = rand_hex (name ++ codes "m") 32;
        system_uuid = uuid_from (name ++ codes "s");
        boot_id = uuid_from (name ++ codes "b");
        kernel_version = kernel;
        os_image = os;
        container_runtime_version = codes "containerd://1.7.20";
        kubelet_version = codes "v1.33.0";
        kube_proxy_version = codes "v1.33.0";
        operating_system = codes "linux";
        architecture = codes "amd64";
      };
    }

-- The fields of the merge patch that `statusPatch` prints as JSON.
unfoldable pub status_patch : Text → Resources → Resources → NodeStatus
unfolding cloud_of_name os_of
status_patch name cap alloc =
    let (os, kernel) = os_of (cloud_of_name name) in
    record {
      capacity = cap;
      allocatable = alloc;
      addresses = (codes "Hostname", name) ∷ (codes "InternalIP", internal_ip name) ∷ [];
      kubelet_port = 10250;
      node_info = record {
        machine_id = rand_hex (name ++ codes "m") 32;
        system_uuid = uuid_from (name ++ codes "s");
        boot_id = uuid_from (name ++ codes "b");
        kernel_version = kernel;
        os_image = os;
        container_runtime_version = codes "containerd://1.7.20";
        kubelet_version = codes "v1.33.0";
        kube_proxy_version = codes "v1.33.0";
        operating_system = codes "linux";
        architecture = codes "amd64";
      };
    }

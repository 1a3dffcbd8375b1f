-- ===== src/NodeCreator/Names/Agreement.antt =====
-- What the parts of the program read of a node's type and name agrees.
use bigfleet_demo.Common.{ℕ, ◌≡◌, refl, inl, inr, ◌||◌, Text, codes, text_eq, Bool-cases}
use bigfleet_demo.Host.Http.{cut_prefix}
use bigfleet_demo.Backend.Nodes.{has_prefix}
use bigfleet_demo.Backend.Fleet.Providers.{shown}
use bigfleet_demo.Backend.Nodes
use bigfleet_demo.NodeCreator.Hash.{fnv32}
use bigfleet_demo.NodeCreator.Names.{
  UpcomingNode, cloud_of, billing_of, cloud_of_name, onprem_name, gcp_name, aws_name, name_for,
  realistic_node_name, machine_of, trailing_num, instance_type_of,
}
use bigfleet_demo.NodeCreator.Names.Distinct.{IsCloud, cloud_of-IsCloud}

cloud_of_name-name_for : (c : Text) (h n : ℕ) → IsCloud c → cloud_of_name (name_for c h n) ≡ c
unfolding cloud_of_name name_for onprem_name gcp_name aws_name has_prefix cut_prefix text_eq
cloud_of_name-name_for c h n (inl p) = rw p refl
cloud_of_name-name_for c h n (inr (inl p)) = rw p refl
cloud_of_name-name_for c h n (inr (inr p)) = rw p refl

-- The cloud that the controller reads from a node's name, to choose its OS, is that of its instance
-- type.
pub cloud_of_name-realistic_node_name :
    (u : UpcomingNode) → cloud_of_name (realistic_node_name u) ≡ cloud_of (instance_type_of u)
unfolding realistic_node_name
cloud_of_name-realistic_node_name u =
    cloud_of_name-name_for (cloud_of (instance_type_of u)) (fnv32 (machine_of u))
      (trailing_num (machine_of u)) (cloud_of-IsCloud (instance_type_of u))

-- The controller and the backend of the page attribute an instance type to the same cloud and the
-- same billing.
pub cloud_of_agree :
    (it : Text)
    → (bigfleet_demo.Backend.Nodes.cloud_of it ≡ shown (cloud_of it))
      × (bigfleet_demo.Backend.Nodes.billing_of it ≡ billing_of it)
unfolding cloud_of billing_of bigfleet_demo.Backend.Nodes.cloud_of
    bigfleet_demo.Backend.Nodes.billing_of text_eq
cloud_of_agree it = (
  elim (Bool-cases (has_prefix it (codes "bare-metal") || has_prefix it (codes "onprem"))) [
    | inl e ↦ rw e refl
    | inr e ↦
        elim (Bool-cases (
          has_prefix it (codes "n2-")
          || (has_prefix it (codes "e2-") || has_prefix it (codes "n1-")))) [
            | inl q ↦ rw (e, q) refl
            | inr q ↦ rw (e, q) refl
          ]
  ],
  refl,
)

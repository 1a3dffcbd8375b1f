-- ===== src/Backend/Nodes.antt =====
-- backend/cmd/demo-backend/main.go: `cloudOf`, `billingOf`, `nodeTier` and `nodeReady`. Of a node
-- stands what they read.
use bigfleet_demo.Common.{
  Bool, true, false, ◌&&◌, ◌||◌, none, some, List, [], ◌∷◌, Text, codes, text_has_eq, if◌then◌else◌,
}
use bigfleet_demo.Common.Dict.{Dict, lookup}
use bigfleet_demo.Host.Http.{cut_prefix}

-- `strings.HasPrefix`
unfoldable pub has_prefix : Text → Text → Bool
has_prefix s p = elim (cut_prefix p s) [ none ↦ false | some r ↦ true ]

unfoldable pub cloud_of : Text → Text
unfolding has_prefix
cloud_of it =
    if has_prefix it (codes "bare-metal") || has_prefix it (codes "onprem")
    then codes "On-prem"
    else if has_prefix it (codes "n2-")
        || (has_prefix it (codes "e2-") || has_prefix it (codes "n1-"))
    then codes "GCP"
    else codes "AWS"

unfoldable pub billing_of : Text → Text
unfolding has_prefix
billing_of it =
    if has_prefix it (codes "bare-metal") || has_prefix it (codes "onprem")
    then codes "owned"
    else if has_prefix it (codes "m6i")
    then codes "reserved"
    else codes "on-demand"

-- `m[k]`: empty where the key is missing.
unfoldable pub label : Text → Dict Text Text → Text
label k m = elim (lookup k m) [ none ↦ [] | some v ↦ v ]

abbrev pub instance_type_key : Text
instance_type_key = codes "node.kubernetes.io/instance-type"

unfoldable pub node_tier : Dict Text Text → Text
unfolding label
node_tier labels = elim (label (codes "bigfleet.demo/billing") labels) [
  | [] ↦ billing_of (label instance_type_key labels)
  | c ∷ b ↦ c ∷ b
]

-- A condition of a node: whether it is of the type `NodeReady`, and whether it is true.
pub record Condition : Type 0 where
  pub is_ready_type : Bool
  pub is_true : Bool

pub record Node : Type 0 where
  pub conditions : List Condition
  pub labels : Dict Text Text

unfoldable pub any_ready : List Condition → Bool
any_ready [] = false
any_ready (c ∷ cs) = (c.is_ready_type && c.is_true) || any_ready cs

unfoldable pub node_ready : Node → Bool
node_ready n = any_ready n.conditions

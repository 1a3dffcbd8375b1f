-- ===== src/NodeCreator/Names.antt =====
-- cmd/node-creator/main.go: the names, zones and labels that a node gets.
pub mod RoundTrip
pub mod Distinct
pub mod Agreement
use bigfleet_demo.Common.{
  ℕ, zero, suc, ◌+◌, ◌-◌, ◌*◌, ◌/◌, ◌%◌, ◌^◌, Bool, true, false, ◌&&◌, ◌||◌, Option, none, some,
  List, [], ◌∷◌, ◌++◌, Text, codes, leb, ltb, eqb, text_eq, text_has_eq, if◌then◌else◌, length,
  replicate,
}
use mathlib.Core.List.{reverse}
use bigfleet_demo.Common.Decimal.{decimal, value_from}
use bigfleet_demo.Common.Dict.{Dict, lookup, insert}
use bigfleet_demo.Host.Http.{cut_prefix, trim_prefix}
use bigfleet_demo.Backend.Nodes.{has_prefix, label, instance_type_key}
use bigfleet_demo.NodeCreator.Hash.{u32, fnv32}

pub record Taint : Type 0 where
  pub key : Text
  pub value : Text
  pub effect : Text

-- What the controller reads of an `UpcomingNode`. An amount of a resource is in thousandths.
pub record UpcomingNode : Type 0 where
  pub name : Text
  pub is_ready : Bool
  pub labels : Dict Text Text
  pub resources : Dict Text ℕ
  pub taints : List Taint

unfoldable pub cloud_of : Text → Text
unfolding has_prefix
cloud_of it =
    if has_prefix it (codes "bare-metal") || has_prefix it (codes "onprem")
    then codes "onprem"
    else if has_prefix it (codes "n2-")
        || (has_prefix it (codes "e2-") || has_prefix it (codes "n1-"))
    then codes "gcp"
    else codes "aws"

unfoldable pub billing_of : Text → Text
unfolding has_prefix
billing_of it =
    if has_prefix it (codes "bare-metal") || has_prefix it (codes "onprem")
    then codes "owned"
    else if has_prefix it (codes "m6i")
    then codes "reserved"
    else codes "on-demand"

unfoldable pub cloud_of_name : Text → Text
unfolding has_prefix
cloud_of_name name =
    if has_prefix name (codes "bm-")
    then codes "onprem"
    else if has_prefix name (codes "gke-")
    then codes "gcp"
    else codes "aws"

-- The OS image and the kernel.
unfoldable pub os_of : Text → Text × Text
os_of cloud =
    if text_eq cloud (codes "gcp")
    then (codes "Container-Optimized OS from Google", codes "6.1.85+")
    else if text_eq cloud (codes "onprem")
    then (codes "Ubuntu 22.04.4 LTS", codes "5.15.0-107-generic")
    else (codes "Amazon Linux 2", codes "5.10.218-208.862.amzn2.x86_64")

abbrev pub is_digit : ℕ → Bool
is_digit c = leb b'0' c && leb c b'9'

unfoldable pub leading_digits : Text → Text
leading_digits [] = []
leading_digits (c ∷ s) = if is_digit c then c ∷ leading_digits s else []

-- `strconv.Atoi` on digits, with the error ignored: 0 for the empty text, and the largest int for a
-- number that does not fit.
unfoldable pub atoi : Text → ℕ
atoi s =
    let n = value_from 0 s in
    if ltb n 9_223_372_036_854_775_808 then n else 9_223_372_036_854_775_807

-- The loop moves from the end of the text to the left.
unfoldable pub trailing_num : Text → ℕ
unfolding leading_digits atoi
trailing_num id = atoi (reverse (leading_digits (reverse id)))

abbrev pub digit36 : ℕ → ℕ
digit36 d = if ltb d 10 then b'0' + d else b'a' + (d - 10)

-- The digits of `v` before `out`; a number below its fuel is printed whole.
unfoldable pub print36 : ℕ → ℕ → Text → Text
print36 zero v out = out
print36 (suc f) v out =
    let rest = print36 f (v / 36) (digit36 (v % 36) ∷ out) in if eqb v 0 then out else rest

unfoldable pub b36 : ℕ → ℕ → Text
unfolding print36
b36 v min =
    let out = print36 (v + 1) v [] in
    if eqb v 0 then replicate min b'0' else replicate (min - length out) b'0' ++ out

-- `%02d`
unfoldable pub padded2 : ℕ → Text
padded2 n = let s = decimal n in replicate (2 - length s) b'0' ++ s

abbrev pub machine_of : UpcomingNode → Text
machine_of u = trim_prefix (codes "un-") u.name

abbrev pub instance_type_of : UpcomingNode → Text
instance_type_of u = label instance_type_key u.labels

unfoldable pub onprem_name : ℕ → Text
unfolding padded2
onprem_name idx = codes "bm-dc1-rack" ++ (decimal (idx % 3 + 1) ++ (b'-' ∷ padded2 idx))

unfoldable pub gcp_name : ℕ → Text
unfolding b36
gcp_name idx =
    codes "gke-bigfleet-default-pool-3f7a9c21-" ++ b36 ((65_536 + idx % u32 * 1327) % u32) 4

unfoldable pub aws_name : ℕ → ℕ → Text
aws_name h idx =
    codes "ip-10-"
    ++ (decimal (h / 256 % 32)
        ++ (b'-'
            ∷ (decimal (h % 256)
                ++ (b'-' ∷ (decimal (idx % 256) ++ codes ".us-east-1.compute.internal")))))

-- The switch of `realisticNodeName`, for a cloud, the hash of the id and its number.
unfoldable pub name_for : Text → ℕ → ℕ → Text
unfolding onprem_name gcp_name aws_name
name_for cloud h idx =
    if text_eq cloud (codes "onprem")
    then onprem_name idx
    else if text_eq cloud (codes "gcp")
    then gcp_name idx
    else aws_name h idx

unfoldable pub realistic_node_name : UpcomingNode → Text
unfolding name_for
realistic_node_name u =
    let id = machine_of u in name_for (cloud_of (instance_type_of u)) (fnv32 id) (trailing_num id)

-- `string("123"[z])` and `string("abc"[z])` are the characters `z` places behind `1` and `a`.
unfoldable pub realistic_zone : Text → ℕ → Text
realistic_zone cloud idx =
    let z = idx / 3 % 3 in
    if text_eq cloud (codes "onprem")
    then codes "dc1-rack-" ++ (b'1' + z) ∷ []
    else if text_eq cloud (codes "gcp")
    then codes "us-central1-" ++ (b'a' + z) ∷ []
    else codes "us-east-1" ++ (b'a' + z) ∷ []

unfoldable pub region_of : Text → Text
region_of cloud =
    if text_eq cloud (codes "onprem")
    then codes "dc1"
    else if text_eq cloud (codes "gcp")
    then codes "us-central1"
    else codes "us-east-1"

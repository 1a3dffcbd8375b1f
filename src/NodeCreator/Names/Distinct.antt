-- ===== src/NodeCreator/Names/Distinct.antt =====
-- Machines of the clouds' catalogs become nodes with distinct names.
use bigfleet_demo.Common.{
  ℕ, ◌+◌, ◌*◌, ◌/◌, ◌%◌, ◌<◌, ◌≡◌, ◌≢◌, refl, sym, ap, ◌∙◌, ◌⊎◌, inl, inr, true, ◌||◌, [], ◌∷◌,
  ◌++◌, arith, Text, codes, Bool-cases, text_eq,
}
use bigfleet_demo.Common.Decimal.{decimal}
use bigfleet_demo.Common.Decimal.Digits.{
  decimal-All, decimal-injective, digits-Without, split_at, append-cancel,
}
use bigfleet_demo.Backend.Nodes.{has_prefix, label, instance_type_key}
use bigfleet_demo.Common.Dict.{lookup}
use bigfleet_demo.Host.Http.{cut_prefix, trim_prefix}
use bigfleet_demo.Fakecloud.Catalog.{machine_id}
use bigfleet_demo.NodeCreator.Hash.{fnv32, u32}
use bigfleet_demo.NodeCreator.Names.{
  UpcomingNode, cloud_of, onprem_name, gcp_name, aws_name, name_for, realistic_node_name, padded2,
  b36,
}
use bigfleet_demo.NodeCreator.Names.RoundTrip.{
  b36-injective, padded2-injective, trailing_num-machine_id,
}

onprem_name-injective : (n m : ℕ) → onprem_name n ≡ onprem_name m → n ≡ m
unfolding onprem_name
onprem_name-injective n m e =
    let tails =
      append-cancel (codes "bm-dc1-rack") (decimal (n % 3 + 1) ++ (b'-' ∷ padded2 n))
        (decimal (m % 3 + 1) ++ (b'-' ∷ padded2 m)) e in
    let parts =
      split_at b'-' (decimal (n % 3 + 1)) (decimal (m % 3 + 1)) (padded2 n) (padded2 m)
        (digits-Without b'-' (decimal (n % 3 + 1)) (omega arith) (decimal-All (n % 3 + 1)))
        (digits-Without b'-' (decimal (m % 3 + 1)) (omega arith) (decimal-All (m % 3 + 1))) tails in
    padded2-injective n m parts.1

gcp_name-injective : (n m : ℕ) → n < 256 → m < 256 → gcp_name n ≡ gcp_name m → n ≡ m
unfolding gcp_name
gcp_name-injective n m p q e =
    let suffix_of = λ (k : ℕ). (65_536 + k % u32 * 1327) % u32 in
    let tails =
      append-cancel (codes "gke-bigfleet-default-pool-3f7a9c21-") (b36 (suffix_of n) 4)
        (b36 (suffix_of m) 4) e in
    let same = b36-injective (suffix_of n) (suffix_of m) 4 tails in omega arith

split_number :
    (c n m : ℕ) (r q : Text)
    → c < b'0'
    → decimal n ++ c ∷ r ≡ decimal m ++ c ∷ q
    → (n ≡ m) × (r ≡ q)
split_number c n m r q h e =
    let parts =
      split_at c (decimal n) (decimal m) r q (digits-Without c (decimal n) h (decimal-All n))
        (digits-Without c (decimal m) h (decimal-All m)) e in
    (decimal-injective n m parts.0, parts.1)

aws_name-injective : (g h n m : ℕ) → n < 256 → m < 256 → aws_name g n ≡ aws_name h m → n ≡ m
unfolding aws_name
aws_name-injective g h n m p q e =
    let second_part =
      split_number b'-' (g / 256 % 32) (h / 256 % 32) _ _ (omega arith)
        (append-cancel (codes "ip-10-") _ _ e) in
    let third_part = split_number b'-' (g % 256) (h % 256) _ _ (omega arith) second_part.1 in
    let last_part = split_number b'.' (n % 256) (m % 256) _ _ (omega arith) third_part.1 in
    omega arith

abbrev pub IsCloud : Text → Type 0
IsCloud c = (c ≡ codes "onprem") ⊎ ((c ≡ codes "gcp") ⊎ (c ≡ codes "aws"))

pub cloud_of-IsCloud : (it : Text) → IsCloud (cloud_of it)
unfolding cloud_of
cloud_of-IsCloud it =
    elim (Bool-cases (has_prefix it (codes "bare-metal") || has_prefix it (codes "onprem"))) [
      | inl e ↦ inl (rw e refl)
      | inr e ↦
          elim (Bool-cases (
            has_prefix it (codes "n2-")
            || (has_prefix it (codes "e2-") || has_prefix it (codes "n1-")))) [
              | inl q ↦ inr (inl (rw (e, q) refl))
              | inr q ↦ inr (inr (rw (e, q) refl))
            ]
    ]

onprem_ne_gcp : (n m : ℕ) → onprem_name n ≢ gcp_name m
unfolding onprem_name gcp_name
onprem_ne_gcp n m e = ground (arith, e)

onprem_ne_aws : (n h m : ℕ) → onprem_name n ≢ aws_name h m
unfolding onprem_name aws_name
onprem_ne_aws n h m e = ground (arith, e)

gcp_ne_aws : (n h m : ℕ) → gcp_name n ≢ aws_name h m
unfolding gcp_name aws_name
gcp_ne_aws n h m e = ground (arith, e)

-- A name tells its cloud, and within a cloud a number below 256.
name_for-injective :
    (c d : Text) (g h n m : ℕ)
    → IsCloud c
    → IsCloud d
    → n < 256
    → m < 256
    → name_for c g n ≡ name_for d h m
    → (c ≡ d) × (n ≡ m)
unfolding name_for text_eq
name_for-injective c d g h n m (inl p) (inl q) x y =
    rw (p, q) (λ e. (refl, onprem_name-injective n m e))
name_for-injective c d g h n m (inl p) (inr (inl q)) x y =
    rw (p, q) (λ e. absurd (onprem_ne_gcp n m e))
name_for-injective c d g h n m (inl p) (inr (inr q)) x y =
    rw (p, q) (λ e. absurd (onprem_ne_aws n h m e))
name_for-injective c d g h n m (inr (inl p)) (inl q) x y =
    rw (p, q) (λ e. absurd (onprem_ne_gcp m n (sym e)))
name_for-injective c d g h n m (inr (inl p)) (inr (inl q)) x y =
    rw (p, q) (λ e. (refl, gcp_name-injective n m x y e))
name_for-injective c d g h n m (inr (inl p)) (inr (inr q)) x y =
    rw (p, q) (λ e. absurd (gcp_ne_aws n h m e))
name_for-injective c d g h n m (inr (inr p)) (inl q) x y =
    rw (p, q) (λ e. absurd (onprem_ne_aws m g n (sym e)))
name_for-injective c d g h n m (inr (inr p)) (inr (inl q)) x y =
    rw (p, q) (λ e. absurd (gcp_ne_aws m g n (sym e)))
name_for-injective c d g h n m (inr (inr p)) (inr (inr q)) x y =
    rw (p, q) (λ e. (refl, aws_name-injective g h n m x y e))

-- The node that the controller sees for machine `n` of the cloud of an instance type.
abbrev pub upcoming : Text → ℕ → UpcomingNode
upcoming it n = record {
  name = codes "un-" ++ machine_id (cloud_of it) n;
  is_ready = true;
  labels = (instance_type_key, it) ∷ [];
  resources = [];
  taints = [];
}

upcoming_name :
    (it : Text) (n : ℕ)
    → n < 256
    → (h : ℕ) × (realistic_node_name (upcoming it n) ≡ name_for (cloud_of it) h n)
unfolding realistic_node_name label lookup trim_prefix cut_prefix text_eq
upcoming_name it n small = (
  fnv32 (machine_id (cloud_of it) n),
  ap (name_for (cloud_of it) (fnv32 (machine_id (cloud_of it) n)))
      (trailing_num-machine_id (cloud_of it) n (omega arith)),
)

-- Two machines below number 256 whose nodes have the same name are of the same cloud and have the
-- same number.
pub realistic_node_name-injective :
    (it it' : Text) (n m : ℕ)
    → n < 256
    → m < 256
    → realistic_node_name (upcoming it n) ≡ realistic_node_name (upcoming it' m)
    → (cloud_of it ≡ cloud_of it') × (n ≡ m)
realistic_node_name-injective it it' n m p q e =
    let (g, s) = upcoming_name it n p in
    let (h, t) = upcoming_name it' m q in
    name_for-injective (cloud_of it) (cloud_of it') g h n m (cloud_of-IsCloud it)
      (cloud_of-IsCloud it') p q (sym s ∙ e ∙ t)

-- ===== src/Fakecloud/Multiplex/Fleet.antt =====
-- The fleet as the three clouds describe it: the ids are distinct.
use bigfleet_demo.Common.{
  ℕ, zero, suc, ◌+◌, ◌≤◌, ◌<◌, ◌≡◌, refl, sym, ap, ◌∙◌, ◌≢◌, some, List, [], ◌∷◌, ◌++◌, map, arith,
  Text, All, All-append, text_eq,
}
use bigfleet_demo.Common.Decimal.{padded, padded-injective}
use bigfleet_demo.Common.Decimal.Digits.{append-cancel}
use bigfleet_demo.Common.Dict.{lookup}
use mathlib.Core.List.{Memᴰ}
use bigfleet_demo.Common.Listing.{Distinct, Distinct-append, All-map, All-of_listed, All-listed}
use bigfleet_demo.Fakecloud.Catalog.{
  Kit, Instance, Tier, Catalog, machine_id, instance_of, tier_instances, tiers_instances, instances,
  onprem_catalog, aws_catalog, gcp_catalog,
}
use bigfleet_demo.Fakecloud.Multiplex.{
  Options, prefix_of, with_defaults, new, describe_sub, describe_order, describe,
}
use bigfleet_demo.Fakecloud.Multiplex.Routes.{NoDash, instances-prefix}

machine_id-injective : (cloud : Text) (n m : ℕ) → machine_id cloud n ≡ machine_id cloud m → n ≡ m
unfolding machine_id
machine_id-injective cloud n m e =
    let tails = append-cancel cloud (b'-' ∷ padded n) (b'-' ∷ padded m) e in
    padded-injective n m (ground (arith, tails))

-- An id of this cloud with a number from `lo` to `hi` - 1.
abbrev Numbered : Text → ℕ → ℕ → Text → Type 0
Numbered cloud lo hi id = (n : ℕ) × (lo ≤ n) × (n < hi) × (id ≡ machine_id cloud n)

Numbered-ne :
    (cloud : Text) (a b c d : ℕ) (x y : Text)
    → Numbered cloud a b x
    → Numbered cloud c d y
    → b ≤ c
    → x ≢ y
Numbered-ne cloud a b c d x y (n, _, below, p) (m, above, _, q) le e =
    let same : n ≡ m = machine_id-injective cloud n m (sym p ∙ e ∙ q) in omega arith

-- The ids of two stretches of numbers, or of two clouds, have nothing in common.
apart {ℓ κ} :
    (P : Text → Type ℓ) (Q : Text → Type κ) (xs ys : List Text)
    → ((x y : Text) → P x → Q y → x ≢ y)
    → All P xs
    → All Q ys
    → All (λ x. All (λ y. x ≢ y) ys) xs
apart P Q [] ys h ax ay = tt
apart P Q (x ∷ xs) ys h ax ay = (all_ne ys ay, apart P Q xs ys h ax.1 ay)
  where
    all_ne : (zs : List Text) → All Q zs → All (λ y. x ≢ y) zs
    all_ne [] a = tt
    all_ne (z ∷ zs) a = (h x z ax.0 a.0, all_ne zs a.1)

module _ (k : Kit) where
  abbrev pub ids : List (Instance k) → List Text
  ids = map (λ x. x.id)

  tier-Numbered :
      (c : Catalog k) (t : Tier k) (left n lo hi : ℕ)
      → lo ≤ n
      → n + left ≤ hi
      → All (Numbered c.cloud lo hi) (ids (tier_instances k c t left n))
  unfolding tier_instances instance_of
  tier-Numbered c t zero n lo hi le e = tt
  tier-Numbered c t (suc left) n lo hi le e =
      ((n, le, omega arith, refl), tier-Numbered c t left (n + 1) lo hi (omega arith) (omega arith))

  tier-Distinct :
      (c : Catalog k) (t : Tier k) (left n : ℕ) → Distinct (ids (tier_instances k c t left n))
  unfolding tier_instances instance_of
  tier-Distinct c t zero n = tt
  tier-Distinct c t (suc left) n =
      let later =
        tier-Numbered c t left (n + 1) (n + 1) (n + 1 + left) (omega arith) (omega arith) in
      (All-ne (ids (tier_instances k c t left (n + 1))) later, tier-Distinct c t left (n + 1))
    where
      All-ne :
          (ys : List Text)
          → All (Numbered c.cloud (n + 1) (n + 1 + left)) ys
          → All (λ y. machine_id c.cloud n ≢ y) ys
      All-ne [] a = tt
      All-ne (y ∷ ys) a = (
        Numbered-ne c.cloud n (n + 1) (n + 1) (n + 1 + left) (machine_id c.cloud n) y
            (n, omega arith, omega arith, refl) a.0 (omega arith),
        All-ne ys a.1,
      )

  ids-append : (xs ys : List (Instance k)) → ids (xs ++ ys) ≡ ids xs ++ ids ys
  ids-append [] ys = refl
  ids-append (x ∷ xs) ys = ap (λ s. x.id ∷ s) (ids-append xs ys)

  abbrev pub total : List (Tier k) → ℕ
  total [] = 0
  total (t ∷ ts) = t.count + total ts

  tiers-Numbered :
      (c : Catalog k) (ts : List (Tier k)) (n lo hi : ℕ)
      → lo ≤ n
      → n + total ts ≤ hi
      → All (Numbered c.cloud lo hi) (ids (tiers_instances k c ts n))
  unfolding tiers_instances
  tiers-Numbered c [] n lo hi le e = tt
  tiers-Numbered c (t ∷ ts) n lo hi le e =
      let first = tier_instances k c t t.count n in
      let rest = tiers_instances k c ts (n + t.count) in
      rw (ids-append first rest) (
        All-append (Numbered c.cloud lo hi) (ids first) (ids rest)
          (tier-Numbered c t t.count n lo hi le (omega arith))
          (tiers-Numbered c ts (n + t.count) lo hi (omega arith) (omega arith)))

  tiers-Distinct :
      (c : Catalog k) (ts : List (Tier k)) (n : ℕ) → Distinct (ids (tiers_instances k c ts n))
  unfolding tiers_instances
  tiers-Distinct c [] n = tt
  tiers-Distinct c (t ∷ ts) n =
      let first = tier_instances k c t t.count n in
      let rest = tiers_instances k c ts (n + t.count) in
      let end = n + t.count + total ts in
      rw (ids-append first rest) (
        Distinct-append (ids first) (ids rest) (tier-Distinct c t t.count n)
          (tiers-Distinct c ts (n + t.count))
          (apart (Numbered c.cloud n (n + t.count)) (Numbered c.cloud (n + t.count) end) (ids first)
            (ids rest)
            (λ x y p q. Numbered-ne c.cloud n (n + t.count) (n + t.count) end x y p q (omega arith))
            (tier-Numbered c t t.count n n (n + t.count) (omega arith) (omega arith))
            (tiers-Numbered c ts (n + t.count) (n + t.count) end (omega arith) (omega arith))))

  cloud_ids-Distinct : (c : Catalog k) → Distinct (ids (instances k c))
  unfolding instances
  cloud_ids-Distinct c = tiers-Distinct c c.tiers 0

  -- The prefixes tell the ids of two clouds apart.
  clouds-apart :
      (c d : Catalog k)
      → NoDash c.cloud
      → NoDash d.cloud
      → c.cloud ≢ d.cloud
      → All (λ x. All (λ y. x ≢ y) (ids (instances k d))) (ids (instances k c))
  clouds-apart c d hc hd ne =
      apart (λ x. prefix_of x ≡ c.cloud) (λ y. prefix_of y ≡ d.cloud) (ids (instances k c))
        (ids (instances k d)) (λ x y p q e. ne (sym p ∙ ap prefix_of e ∙ q)) (ids-prefix c hc)
        (ids-prefix d hd)
    where
      ids-prefix :
          (b : Catalog k) → NoDash b.cloud → All (λ x. prefix_of x ≡ b.cloud) (ids (instances k b))
      ids-prefix b h =
          All-map (λ x. prefix_of x.id ≡ b.cloud) (λ x. x.id) (λ x. prefix_of x ≡ b.cloud)
            (instances k b) (λ x p. p) (instances-prefix k b h)

  -- The ids of `b` and then those of the catalogs `bs`.
  join : List (Catalog k) → List Text
  join [] = []
  join (b ∷ bs) = ids (instances k b) ++ join bs

  join-apart :
      (b : Catalog k) (bs : List (Catalog k))
      → NoDash b.cloud
      → All (λ c. NoDash c.cloud) bs
      → All (λ c. b.cloud ≢ c.cloud) bs
      → All (λ x. All (λ y. x ≢ y) (join bs)) (ids (instances k b))
  unfolding join
  join-apart b bs h hs ne =
      All-of_listed (λ x. All (λ y. x ≢ y) (join bs)) (ids (instances k b)) λ x l. go x l bs hs ne
    where
      go :
          (x : Text)
          → Memᴰ x (ids (instances k b))
          → (cs : List (Catalog k)) → All (λ c. NoDash c.cloud) cs
          → All (λ c. b.cloud ≢ c.cloud) cs
          → All (λ y. x ≢ y) (join cs)
      go x l [] hs ne = tt
      go x l (c ∷ cs) hs ne =
          All-append (λ y. x ≢ y) (ids (instances k c)) (join cs)
            (All-listed (λ z. All (λ y. z ≢ y) (ids (instances k c))) x (ids (instances k b))
              (clouds-apart b c h hs.0 ne.0) l)
            (go x l cs hs.1 ne.1)

  DistinctClouds : List (Catalog k) → Type 0
  DistinctClouds [] = Unit
  DistinctClouds (b ∷ bs) = All (λ c. b.cloud ≢ c.cloud) bs × DistinctClouds bs

  join-Distinct :
      (bs : List (Catalog k))
      → All (λ c. NoDash c.cloud) bs
      → DistinctClouds bs
      → Distinct (join bs)
  unfolding join DistinctClouds
  join-Distinct [] hs d = tt
  join-Distinct (b ∷ bs) hs d =
      Distinct-append (ids (instances k b)) (join bs) (cloud_ids-Distinct b)
        (join-Distinct bs hs.1 d.1) (join-apart b bs hs.0 hs.1 d.0)

  -- No two machines that `Describe` lists have one id, whatever the sizes.
  pub describe-Distinct :
      (o : Options)
      → (xs : List (Instance k)) × (describe k (new k o) ≡ some xs) × Distinct (ids xs)
  unfolding describe describe_order new lookup onprem_catalog aws_catalog gcp_catalog text_eq
      describe_sub join DistinctClouds
  describe-Distinct o = (
    _,
    refl,
    rw
        (
          ids-append (instances k onprem) _,
          ids-append (instances k aws) _,
          ids-append (instances k gcp) _,
        )
        (join-Distinct (onprem ∷ aws ∷ gcp ∷ []) (omega arith) (
          ((λ e. ground (arith, e)), ((λ e. ground (arith, e)), tt)),
          (((λ e. ground (arith, e)), tt), (tt, tt)),
        )),
  )
    where
      onprem : Catalog k
      onprem = onprem_catalog k (with_defaults o).onprem_bare_metal

      aws : Catalog k
      aws =
          aws_catalog k (with_defaults o).aws_reserved (with_defaults o).aws_on_demand
            (with_defaults o).aws_spot

      gcp : Catalog k
      gcp = gcp_catalog k (with_defaults o).gcp_on_demand (with_defaults o).gcp_spot

-- ===== src/Backend/Shard/Sums.antt =====
-- What the counters of the shard are.
use bigfleet_demo.Common.{
  ℕ, ◌+◌, ◌≡◌, refl, ap, ◌∙◌, inl, inr, Option, none, some, List, [], ◌∷◌, arith, Text, text_eq,
  text_eq_iff, text_has_eq, if◌then◌else◌, Bool-cases,
}
use bigfleet_demo.Common.Dict.{Dict, lookup, insert, lookup-insert}
use bigfleet_demo.Backend.Feed.{count_at}
use bigfleet_demo.Backend.Shard.{add_to, no_counts, action_key, state_key, add_all, scrape_shard}

count_at-insert :
    (k j : Text) (n : ℕ) (d : Dict Text ℕ)
    → count_at j (insert k n d) ≡ (if text_eq k j then n else count_at j d)
unfolding count_at
count_at-insert k j n d = elim (Bool-cases (text_eq k j)) [
  | inl e ↦ rw (count_at, lookup-insert k j n d, e) refl
  | inr e ↦ rw (count_at, lookup-insert k j n d, e) refl
]

module _ (atoi : Text → ℕ) (j : Text) where
  abbrev goes_to : Option Text → ℕ → ℕ
  goes_to none n = 0
  goes_to (some k) n = if text_eq k j then n else 0

  -- The figures of the lines that count for `j`, together.
  unfoldable pub total_of : (Text → Option Text) → List (Text × Text) → ℕ
  total_of key [] = 0
  total_of key ((name, figure) ∷ ms) = goes_to (key name) (atoi figure) + total_of key ms

  add_one :
      (k : Option Text) (n : ℕ) (out : Dict Text ℕ)
      → count_at j (elim k [ none ↦ out | some i ↦ add_to i n out ]) ≡ count_at j out + goes_to k n
  unfolding add_to
  add_one none n out = omega arith
  add_one (some i) n out = elim (Bool-cases (text_eq i j)) [
    | inl e ↦
        let same : i ≡ j = (text_eq_iff i j).0 e in
        count_at-insert i j _ out ∙ rw e (ap (λ t. count_at t out + n) same)
    | inr e ↦ count_at-insert i j _ out ∙ rw e (omega arith)
  ]

  add_all-total :
      (key : Text → Option Text) (ms : List (Text × Text)) (out : Dict Text ℕ)
      → count_at j (add_all atoi key ms out) ≡ count_at j out + total_of key ms
  unfolding add_all total_of
  add_all-total key [] out = omega arith
  add_all-total key ((name, figure) ∷ ms) out = omega (
    arith,
    add_all-total key ms (elim (key name) [ none ↦ out | some k ↦ add_to k (atoi figure) out ]),
    add_one (key name) (atoi figure) out,
  )

  no_counts-zero : count_at j no_counts ≡ 0
  unfolding count_at lookup
  no_counts-zero = ground arith

  -- A counter of the shard is the sum of the figures of the lines that are about it, in whatever order
  -- these come, and 0 where the metrics cannot be read.
  scrape_shard-total :
      (read : Option (List (Text × Text) × List (Text × Text)))
      → count_at j (scrape_shard atoi read) ≡ (elim read [
        | none ↦ 0
        | some (actions, inventory) ↦ total_of action_key actions + total_of state_key inventory
      ])
  unfolding scrape_shard
  scrape_shard-total none = no_counts-zero
  scrape_shard-total (some (actions, inventory)) = omega (
    arith,
    add_all-total state_key inventory (add_all atoi action_key actions no_counts),
    add_all-total action_key actions no_counts,
    no_counts-zero,
  )

-- ===== src/Backend/Feed/Sums.antt =====
-- What the lines of one poll add up to.
use bigfleet_demo.Common.{
  ℕ, ◌+◌, ◌-◌, ◌≡◌, refl, ◌∙◌, inl, inr, Bool, true, false, List, [], ◌∷◌, ◌++◌, arith, Text, codes,
  ltb, leb, eqb, Bool-cases, text_has_eq,
}
use bigfleet_demo.Common.Dict.{Dict, insert}
use bigfleet_demo.Backend.Fleet.{ClusterState}
use bigfleet_demo.Backend.Feed.{
  FeedLine, placed_committed, placed_spot, placed_on_demand, released, drained, reclaimed,
  preempted, resized, FleetState, Feed, count_at, line_if, capacity_lines, batch_lines, node_lines,
  poll_lines,
}

-- The nodes that a line says were placed on committed capacity, and reclaimed from it.
abbrev pub placed_by : FeedLine → ℕ
placed_by l = elim l [ placed_committed n ↦ n | _ ↦ 0 ]

abbrev pub reclaimed_by : FeedLine → ℕ
reclaimed_by l = elim l [ reclaimed n ↦ n | _ ↦ 0 ]

unfoldable pub sum_by : (FeedLine → ℕ) → List FeedLine → ℕ
sum_by g [] = 0
sum_by g (l ∷ ls) = g l + sum_by g ls

pub sum_by-append :
    (g : FeedLine → ℕ) (xs ys : List FeedLine) → sum_by g (xs ++ ys) ≡ sum_by g xs + sum_by g ys
unfolding sum_by
sum_by-append g [] ys = omega arith
sum_by-append g (x ∷ xs) ys = omega (arith, sum_by-append g xs ys)

line_if-mute : (g : FeedLine → ℕ) (b : Bool) (l : FeedLine) → g l ≡ 0 → sum_by g (line_if b l) ≡ 0
unfolding sum_by
line_if-mute g true l e = omega (arith, e)
line_if-mute g false l e = refl

-- A line on growth from `n` to `m` that is only added where there is some.
line_if-growth :
    (g : FeedLine → ℕ) (n m : ℕ) (l : FeedLine)
    → g l ≡ m - n
    → sum_by g (line_if (ltb n m) l) ≡ m - n
unfolding sum_by
line_if-growth g n m l e = elim (Bool-cases (ltb n m)) [
  | inl h ↦ rw h (omega (arith, e))
  | inr h ↦ rw h (ground (arith, h))
]

-- Lines on clusters say nothing of committed capacity.
module _ (g : FeedLine → ℕ) (mute : (n : ℕ) (name : Text) → g (preempted n name) ≡ 0)
    (mute' : (name : Text) (b : Bool) (n m : ℕ) → g (resized name b n m) ≡ 0) where
  batch_lines-mute :
      (css : List ClusterState) (d : Dict Text ℕ) → sum_by g (batch_lines css d).0 ≡ 0
  unfolding batch_lines sum_by
  batch_lines-mute [] d = refl
  batch_lines-mute (cs ∷ css) d =
      let rest = batch_lines-mute css (insert cs.name cs.baseline d) in
      let before = count_at cs.name d in
      elim (Bool-cases (ltb 0 cs.critical)) [
        | inr e ↦ rw (e, batch_lines) rest
        | inl e ↦ elim (Bool-cases (leb (cs.baseline + 4) before)) [
          | inr h ↦ rw (e, h, batch_lines) rest
          | inl h ↦
              rw (e, h, batch_lines) (omega (arith, rest, mute (before - cs.baseline) cs.name))
        ]
      ]

  node_lines-mute : (css : List ClusterState) (d : Dict Text ℕ) → sum_by g (node_lines css d).0 ≡ 0
  unfolding node_lines sum_by
  node_lines-mute [] d = refl
  node_lines-mute (cs ∷ css) d =
      let rest = node_lines-mute css (insert cs.name cs.nodes d) in
      let before = count_at cs.name d in
      let grew =
        line_if (leb (before + 2) cs.nodes) (resized cs.name true (cs.nodes - before) cs.nodes) in
      let shrank =
        line_if (leb (cs.nodes + 2) before) (resized cs.name false (before - cs.nodes) cs.nodes) in
      let silent : sum_by g (grew ++ shrank) ≡ 0 =
        sum_by-append g grew shrank
        ∙ omega (
          arith,
          line_if-mute g (leb (before + 2) cs.nodes) _
              (mute' cs.name true (cs.nodes - before) cs.nodes),
          line_if-mute g (leb (cs.nodes + 2) before) _
              (mute' cs.name false (before - cs.nodes) cs.nodes),
        ) in
      elim (Bool-cases (eqb before 0)) [
        | inl e ↦ rw (e, node_lines) rest
        | inr e ↦
            rw (e, node_lines) (sum_by-append g (grew ++ shrank) _ ∙ omega (arith, silent, rest))
      ]

-- The lines of one poll on committed capacity: what it grew by, and what it shrank by.
capacity_lines-placed :
    (st : FleetState) (prev : Dict Text ℕ)
    → let owned = count_at (codes "owned") prev in
      (sum_by placed_by (capacity_lines st prev) ≡ st.capacity.onprem_in_use - owned)
      × (sum_by reclaimed_by (capacity_lines st prev) ≡ owned - st.capacity.onprem_in_use)
unfolding capacity_lines
capacity_lines-placed st prev =
    let c = st.capacity in
    let owned = count_at (codes "owned") prev in
    let spot = count_at (codes "spot") prev in
    let on_demand = count_at (codes "ondemand") prev in
    let cloud = count_at (codes "cloud") prev in
    let preempt = count_at (codes "preempt") prev in
    let preempts = count_at (codes "preempt") st.shard in
    let grew = line_if (ltb owned c.onprem_in_use) (placed_committed (c.onprem_in_use - owned)) in
    let spot_line =
      line_if (ltb spot c.spot_in_use) (placed_spot (c.spot_in_use - spot) c.spot_hourly) in
    let demand_line =
      line_if (ltb on_demand c.on_demand_in_use)
        (placed_on_demand (c.on_demand_in_use - on_demand) c.node_hourly c.cost_per_hour) in
    let cloud_line = line_if (ltb c.cloud_in_use cloud) (released (cloud - c.cloud_in_use)) in
    let shrank = line_if (ltb c.onprem_in_use owned) (reclaimed (owned - c.onprem_in_use)) in
    let drain_line = line_if (ltb preempt preempts) (drained (preempts - preempt)) in
    (
      six placed_by grew spot_line demand_line cloud_line shrank drain_line
          ∙ omega (
            arith,
            line_if-growth placed_by owned c.onprem_in_use
                (placed_committed (c.onprem_in_use - owned)) refl,
            line_if-mute placed_by (ltb spot c.spot_in_use)
                (placed_spot (c.spot_in_use - spot) c.spot_hourly) refl,
            line_if-mute placed_by (ltb on_demand c.on_demand_in_use)
                (placed_on_demand (c.on_demand_in_use - on_demand) c.node_hourly c.cost_per_hour)
                refl,
            line_if-mute placed_by (ltb c.cloud_in_use cloud) (released (cloud - c.cloud_in_use))
                refl,
            line_if-mute placed_by (ltb c.onprem_in_use owned) (reclaimed (owned - c.onprem_in_use))
                refl,
            line_if-mute placed_by (ltb preempt preempts) (drained (preempts - preempt)) refl,
          ),
      six reclaimed_by grew spot_line demand_line cloud_line shrank drain_line
          ∙ omega (
            arith,
            line_if-mute reclaimed_by (ltb owned c.onprem_in_use)
                (placed_committed (c.onprem_in_use - owned)) refl,
            line_if-mute reclaimed_by (ltb spot c.spot_in_use)
                (placed_spot (c.spot_in_use - spot) c.spot_hourly) refl,
            line_if-mute reclaimed_by (ltb on_demand c.on_demand_in_use)
                (placed_on_demand (c.on_demand_in_use - on_demand) c.node_hourly c.cost_per_hour)
                refl,
            line_if-mute reclaimed_by (ltb c.cloud_in_use cloud) (released (cloud - c.cloud_in_use))
                refl,
            line_if-growth reclaimed_by c.onprem_in_use owned (reclaimed (owned - c.onprem_in_use))
                refl,
            line_if-mute reclaimed_by (ltb preempt preempts) (drained (preempts - preempt)) refl,
          ),
    )
  where
    six :
        (g : FeedLine → ℕ) (p q r s u v : List FeedLine)
        → sum_by g (p ++ (q ++ (r ++ (s ++ (u ++ v)))))
          ≡ sum_by g p + (sum_by g q + (sum_by g r + (sum_by g s + (sum_by g u + sum_by g v))))
    six g p q r s u v = omega (
      arith,
      sum_by-append g p (q ++ (r ++ (s ++ (u ++ v)))),
      sum_by-append g q (r ++ (s ++ (u ++ v))),
      sum_by-append g r (s ++ (u ++ v)),
      sum_by-append g s (u ++ v),
      sum_by-append g u v,
    )

pub poll_lines-placed :
    (st : FleetState) (f : Feed)
    → let owned = count_at (codes "owned") f.prev in
      (sum_by placed_by (poll_lines st f) ≡ st.capacity.onprem_in_use - owned)
      × (sum_by reclaimed_by (poll_lines st f) ≡ owned - st.capacity.onprem_in_use)
unfolding poll_lines
poll_lines-placed st f =
    let (grew, shrank) = capacity_lines-placed st f.prev in
    (
      whole placed_by (λ n name. refl) (λ name b n m. refl) ∙ grew,
      whole reclaimed_by (λ n name. refl) (λ name b n m. refl) ∙ shrank,
    )
  where
    whole :
        (g : FeedLine → ℕ)
        → ((n : ℕ) (name : Text) → g (preempted n name) ≡ 0)
        → ((name : Text) (b : Bool) (n m : ℕ) → g (resized name b n m) ≡ 0)
        → sum_by g (poll_lines st f) ≡ sum_by g (capacity_lines st f.prev)
    whole g mute mute' =
        let pods = (batch_lines st.clusters f.prev_batch).0 in
        let nodes = (node_lines st.clusters f.prev_nodes).0 in
        sum_by-append g (capacity_lines st f.prev) (pods ++ nodes)
        ∙ omega (
          arith,
          sum_by-append g pods nodes,
          batch_lines-mute g mute mute' st.clusters f.prev_batch,
          node_lines-mute g mute mute' st.clusters f.prev_nodes,
        )

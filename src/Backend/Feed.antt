-- ===== src/Backend/Feed.antt =====
-- backend/cmd/demo-backend/main.go: `pushFeed`, `synthesizeFeed` and what a round of `pollLoop` does
-- with them. A line of the feed stands as what it says, with the numbers that it prints.
pub mod Length
pub mod Sums
pub mod Deltas
use bigfleet_demo.Common.{
  ℕ, zero, suc, ◌+◌, ◌-◌, Bool, true, false, ◌||◌, none, some, List, [], ◌∷◌, ◌++◌, Text, codes,
  ltb, leb, eqb, length, take, text_has_eq, if◌then◌else◌,
}
use bigfleet_demo.Common.Dict.{Dict, lookup, insert}
use bigfleet_demo.Backend.Fleet.{ClusterState, Capacity}

pub data FeedLine : Type 0 where
  at_rest_line : FeedLine
  placed_committed : ℕ → FeedLine
  placed_spot : ℕ → ℕ → FeedLine
  placed_on_demand : ℕ → ℕ → ℕ → FeedLine
  released : ℕ → FeedLine
  reclaimed : ℕ → FeedLine
  drained : ℕ → FeedLine
  preempted : ℕ → Text → FeedLine
  resized : Text → Bool → ℕ → ℕ → FeedLine
  narrated : Text → FeedLine

-- `fleetState`
pub record FleetState : Type 0 where
  pub clusters : List ClusterState
  pub shard : Dict Text ℕ
  pub fleet_by_cloud : Dict Text ℕ
  pub clouds : List Text
  pub fleet_size : ℕ
  pub capacity : Capacity
  pub scenario : Text
  pub feed : List (Text × FeedLine)
  pub ts : Text
  pub fleet_dashboard : Text

-- The variables under `mu`.
pub record Feed : Type 0 where
  pub feed : List (Text × FeedLine)
  pub prev : Dict Text ℕ
  pub prev_nodes : Dict Text ℕ
  pub prev_batch : Dict Text ℕ
  pub feed_primed : Bool

-- `m[k]` of a map to int.
unfoldable pub count_at : Text → Dict Text ℕ → ℕ
count_at k d = elim (lookup k d) [ none ↦ 0 | some n ↦ n ]

unfoldable pub add_line : Text → FeedLine → List (Text × FeedLine) → List (Text × FeedLine)
add_line ts line feed =
    let longer = (ts, line) ∷ feed in if ltb 40 (length longer) then take 40 longer else longer

unfoldable pub add_lines : Text → List FeedLine → List (Text × FeedLine) → List (Text × FeedLine)
add_lines ts [] feed = feed
add_lines ts (l ∷ ls) feed = add_lines ts ls (add_line ts l feed)

unfoldable pub push_feed : Text → Text → Feed → Feed
push_feed ts line f = record f { feed = add_line ts (narrated line) f.feed }

-- `for k, v := range from { to[k] = v }`
unfoldable pub copy_counts : Dict Text ℕ → Dict Text ℕ → Dict Text ℕ
copy_counts [] to = to
copy_counts ((k, n) ∷ from) to = copy_counts from (insert k n to)

unfoldable pub note_prev : FleetState → Dict Text ℕ → Dict Text ℕ
note_prev st prev = insert (codes "ondemand") st.capacity.on_demand_in_use (
    insert (codes "spot") st.capacity.spot_in_use (
      insert (codes "cloud") st.capacity.cloud_in_use
        (insert (codes "owned") st.capacity.onprem_in_use (copy_counts st.shard prev))))

unfoldable pub note_nodes : List ClusterState → Dict Text ℕ → Dict Text ℕ
note_nodes [] d = d
note_nodes (cs ∷ css) d = note_nodes css (insert cs.name cs.nodes d)

abbrev pub line_if : Bool → FeedLine → List FeedLine
line_if b l = if b then l ∷ [] else []

-- The lines on the fleet's capacity, in the order in which they are added.
unfoldable pub capacity_lines : FleetState → Dict Text ℕ → List FeedLine
capacity_lines st prev =
    let c = st.capacity in
    let owned = count_at (codes "owned") prev in
    let spot = count_at (codes "spot") prev in
    let on_demand = count_at (codes "ondemand") prev in
    let cloud = count_at (codes "cloud") prev in
    let preempt = count_at (codes "preempt") prev in
    let preempts = count_at (codes "preempt") st.shard in
    line_if (ltb owned c.onprem_in_use) (placed_committed (c.onprem_in_use - owned))
    ++ (line_if (ltb spot c.spot_in_use) (placed_spot (c.spot_in_use - spot) c.spot_hourly)
        ++ (line_if (ltb on_demand c.on_demand_in_use)
              (placed_on_demand (c.on_demand_in_use - on_demand) c.node_hourly c.cost_per_hour)
            ++ (line_if (ltb c.cloud_in_use cloud) (released (cloud - c.cloud_in_use))
                ++ (line_if (ltb c.onprem_in_use owned) (reclaimed (owned - c.onprem_in_use))
                    ++ line_if (ltb preempt preempts) (drained (preempts - preempt))))))

-- The lines on pods that the scheduler preempted, with the batch pods of each cluster.
unfoldable pub batch_lines : List ClusterState → Dict Text ℕ → List FeedLine × Dict Text ℕ
batch_lines [] d = ([], d)
batch_lines (cs ∷ css) d =
    let before = count_at cs.name d in
    let (rest, d') = batch_lines css (insert cs.name cs.baseline d) in
    let dropped =
      line_if (leb (cs.baseline + 4) before) (preempted (before - cs.baseline) cs.name) in
    ((if ltb 0 cs.critical then dropped else []) ++ rest, d')

-- The lines on clusters that grew or shrank by two nodes or more.
unfoldable pub node_lines : List ClusterState → Dict Text ℕ → List FeedLine × Dict Text ℕ
node_lines [] d = ([], d)
node_lines (cs ∷ css) d =
    let before = count_at cs.name d in
    let (rest, d') = node_lines css (insert cs.name cs.nodes d) in
    let line =
      line_if (leb (before + 2) cs.nodes) (resized cs.name true (cs.nodes - before) cs.nodes)
      ++ line_if (leb (cs.nodes + 2) before) (resized cs.name false (before - cs.nodes) cs.nodes) in
    ((if eqb before 0 then [] else line) ++ rest, d')

-- The lines of a poll, and the variables after it.
unfoldable pub poll_lines : FleetState → Feed → List FeedLine
poll_lines st f =
    capacity_lines st f.prev
    ++ ((batch_lines st.clusters f.prev_batch).0 ++ (node_lines st.clusters f.prev_nodes).0)

unfoldable pub synthesize_feed : FleetState → Feed → Feed × FleetState
synthesize_feed st f =
    let after : Feed =
      if f.feed_primed
      then record {
        feed = add_lines st.ts (poll_lines st f) f.feed;
        prev = note_prev st f.prev;
        prev_nodes = (node_lines st.clusters f.prev_nodes).1;
        prev_batch = (batch_lines st.clusters f.prev_batch).1;
        feed_primed = true;
      }
      else record f {
        feed = (st.ts, at_rest_line) ∷ [];
        prev = note_prev st f.prev;
        prev_nodes = note_nodes st.clusters f.prev_nodes;
        feed_primed = true;
      } in
    (after, record st { feed = after.feed })

-- The end of a round of `pollLoop`: what `setLatest` keeps, and what is broadcast.
pub record Published : Type 0 where
  pub latest : FleetState
  pub broadcast_state : FleetState
  pub after : Feed

unfoldable pub publish : FleetState → Feed → Published
publish st f =
    let (after, st') = synthesize_feed st f in
    record { latest = st; broadcast_state = st'; after = after }

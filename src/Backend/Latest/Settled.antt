-- ===== src/Backend/Latest/Settled.antt =====
-- The host's wait for a warming session, down to what the API servers of its clusters list.
use bigfleet_demo.Common.{
  ℕ, ◌+◌, bit, ◌≡◌, refl, sym, ap, ◌∙◌, ◌↔◌, All, Bool, true, false, not, ◌&&◌, ◌||◌, Option, none,
  some, List, [], ◌∷◌, map, arith, Text, ltb, eqb, length, if◌then◌else◌,
}
use bigfleet_demo.Host.Settle.{
  sum_clusters, backend_pending, has_converged, Poll, settled_down, wait_for_settle,
}
use bigfleet_demo.Host.Settle.Converged.{head_converged, converges_twice, wait_for_settle_iff}
use bigfleet_demo.Common.Listing.{All-map}
use bigfleet_demo.Backend.Demand.{Demand}
use bigfleet_demo.Backend.Nodes.{Node}
use bigfleet_demo.Backend.Fleet.{
  Pod, ClusterState, Listing, poll_cluster, count_pod, count_pods, count_unready,
}
use bigfleet_demo.Backend.Feed.{FleetState, Feed, publish}
use bigfleet_demo.Backend.Scenario.{Scenarios}
use bigfleet_demo.Backend.Latest.{Settings, Round, fleet_state, poll_round, set_latest, api_state}

abbrev is_unbound : Text → Bool
is_unbound [] = true
is_unbound (c ∷ s) = false

-- Every listed pod has a node.
unfoldable pub all_bound : List Pod → Bool
all_bound [] = true
all_bound (p ∷ ps) = not (is_unbound p.node_name) && all_bound ps

-- Every listed upcoming node is ready.
unfoldable pub all_ready : List Bool → Bool
all_ready [] = true
all_ready (r ∷ rs) = r && all_ready rs

abbrev is_some_node : List Node → Bool
is_some_node [] = false
is_some_node (n ∷ ns) = true

module _ {A : Type 0} where
  -- What a list gives; nothing where the call fails.
  abbrev pub listed : Option (List A) → List A
  listed none = []
  listed (some xs) = xs

-- In no cluster a pod without a node or an upcoming node that is not ready is listed.
unfoldable pub none_pending : List Listing → Bool
none_pending [] = true
none_pending (l ∷ ls) =
    (all_bound (listed l.pods) && all_ready (listed l.upcoming)) && none_pending ls

-- In some cluster a node is listed.
unfoldable pub any_node : List Listing → Bool
any_node [] = false
any_node (l ∷ ls) = is_some_node (listed l.nodes) || any_node ls

-- What a pod adds to the counters.
abbrev Counts : ℕ → ClusterState → ClusterState → Type 0
Counts n cs cs' =
    (cs'.nodes ≡ cs.nodes)
    × (cs'.provisioning ≡ cs.provisioning)
    × (cs'.pods_pending ≡ cs.pods_pending + n)

abbrev unbound : List Pod → ℕ
unbound [] = 0
unbound (p ∷ ps) = bit (is_unbound p.node_name) + unbound ps

count_pod-at :
    (node_name tier : Text) (cs : ClusterState)
    → Counts
        (bit (is_unbound node_name))
        cs
        (count_pod (record { node_name = node_name; tier = tier }) cs)
unfolding count_pod
count_pod-at [] tier cs = (refl, refl, refl)
count_pod-at (c ∷ s) tier cs = (refl, refl, omega arith)

count_pods-Counts : (ps : List Pod) (cs : ClusterState) → Counts (unbound ps) cs (count_pods ps cs)
unfolding count_pods
count_pods-Counts [] cs = (refl, refl, omega arith)
count_pods-Counts (p ∷ ps) cs =
    let (a, b, c) = count_pod-at p.node_name p.tier cs in
    let (d, e, f) = count_pods-Counts ps (count_pod p cs) in (d ∙ a, e ∙ b, omega arith)

unbound-zero : (ps : List Pod) → eqb (unbound ps) 0 ≡ all_bound ps
unfolding all_bound
unbound-zero [] = refl
unbound-zero (p ∷ ps) = ground (arith, unbound-zero ps)

unready-zero : (rs : List Bool) → eqb (count_unready rs) 0 ≡ all_ready rs
unfolding all_ready count_unready
unready-zero [] = refl
unready-zero (true ∷ rs) = unready-zero rs
unready-zero (false ∷ rs) = ground arith

nodes-some : (ns : List Node) → ltb 0 (length ns) ≡ is_some_node ns
nodes-some [] = refl
nodes-some (n ∷ ns) = ground arith

count_pods-from :
    (ps : List Pod) (cs : ClusterState) {n u : ℕ}
    → cs.nodes ≡ n
    → cs.provisioning ≡ u
    → cs.pods_pending ≡ 0
    → ((count_pods ps cs).nodes ≡ n)
      × ((count_pods ps cs).provisioning ≡ u)
      × ((count_pods ps cs).pods_pending ≡ unbound ps)
count_pods-from ps cs x y z = let (a, b, c) = count_pods-Counts ps cs in (a ∙ x, b ∙ y, omega arith)

unready-listed :
    (us : Option (List Bool))
    → (elim us [ none ↦ 0 | some rs ↦ count_unready rs ]) ≡ count_unready (listed us)
unfolding count_unready
unready-listed none = refl
unready-listed (some rs) = refl

-- The counters of a cluster against its lists.
poll_cluster-reads :
    (d : Demand) (l : Listing)
    → ((poll_cluster d l).nodes ≡ length (listed l.nodes))
      × ((poll_cluster d l).provisioning ≡ count_unready (listed l.upcoming))
      × ((poll_cluster d l).pods_pending ≡ unbound (listed l.pods))
unfolding poll_cluster
poll_cluster-reads d l = count_pods-from (listed l.pods) _ refl (unready-listed l.upcoming) refl

abbrev pending_zero : ℕ × ℕ → Bool
pending_zero (p, n) = eqb p 0

abbrev nodes_up : ℕ × ℕ → Bool
nodes_up (p, n) = ltb 0 n

sum-cases :
    (d : Demand) (ls : List Listing)
    → let r = sum_clusters (map (poll_cluster d) ls) in
      (pending_zero r ≡ none_pending ls) × (nodes_up r ≡ any_node ls)
unfolding sum_clusters none_pending any_node
sum-cases d [] = (refl, refl)
sum-cases d (l ∷ ls) =
    let (nodes, provisioning, pods) = poll_cluster-reads d l in
    let (rest, up) = sum-cases d ls in
    (
      ground (
        arith,
        rest,
        provisioning,
        pods,
        unbound-zero (listed l.pods),
        unready-zero (listed l.upcoming),
      ),
      ground (arith, up, nodes, nodes-some (listed l.nodes)),
    )

-- What the host finds at a poll of a session's backend, whose latest round has read `r`, is that the
-- fleet has converged, exactly where the lists of that round show some node in a cluster, no pod
-- without a node and no upcoming node that is not ready; a list that failed counts as empty.
pub has_converged-poll_round :
    (k : Settings) (d : Demand) (s : Scenarios) (r : Round) (latest : FleetState) (f : Feed)
    → has_converged (api_state (poll_round k d s r latest f).0)
      ≡ (none_pending r.listings && any_node r.listings)
unfolding has_converged backend_pending api_state poll_round set_latest publish fleet_state
has_converged-poll_round k d s r latest f =
    let (pending, up) = sum-cases d r.listings in
    ap (λ b. b && nodes_up (sum_clusters (map (poll_cluster d) r.listings))) pending
    ∙ ap (λ b. none_pending r.listings && b) up

-- A round of the host's loop: its time, whether its poll of the backend is answered, and what the latest
-- round of the backend then read and found.
pub record Look : Type 0 where
  pub now : ℕ
  pub is_answered : Bool
  pub demand : Demand
  pub scenarios : Scenarios
  pub round : Round
  pub latest : FleetState
  pub feed : Feed

module _ (settings : Settings) where
  abbrev pub poll_of : Look → Poll
  poll_of k = record {
    now = k.now;
    answer =
        if k.is_answered
        then api_state (poll_round settings k.demand k.scenarios k.round k.latest k.feed).0
        else none;
  }

  -- The poll is answered, and the lists of the round show a fleet that is up.
  abbrev pub is_up : Look → Bool
  is_up k = k.is_answered && (none_pending k.round.listings && any_node k.round.listings)

  abbrev pub head_up : List Look → Bool
  head_up [] = false
  head_up (k ∷ ks) = is_up k

  unfoldable pub up_twice : List Look → Bool
  up_twice [] = false
  up_twice (k ∷ ks) = (is_up k && head_up ks) || up_twice ks

  converged-up : (k : Look) → has_converged (poll_of k).answer ≡ is_up k
  unfolding has_converged backend_pending
  converged-up k =
      either k.is_answered _
        (has_converged-poll_round settings k.demand k.scenarios k.round k.latest k.feed)
    where
      either :
          (b : Bool) (answer : Option (List ClusterState)) {up : Bool}
          → has_converged answer ≡ up
          → has_converged (if b then answer else none) ≡ (b && up)
      either true answer e = e
      either false answer e = refl

  converges-head : (ks : List Look) → head_converged (map poll_of ks) ≡ head_up ks
  converges-head [] = refl
  converges-head (k ∷ ks) = converged-up k

  converges-up : (ks : List Look) → converges_twice (map poll_of ks) ≡ up_twice ks
  unfolding converges_twice up_twice
  converges-up [] = refl
  converges-up (k ∷ ks) =
      ap (λ b. (b && head_converged (map poll_of ks)) || converges_twice (map poll_of ks))
        (converged-up k)
      ∙ ap (λ b. (is_up k && b) || converges_twice (map poll_of ks)) (converges-head ks)
      ∙ ap (λ b. (is_up k && head_up ks) || b) (converges-up ks)

  -- As long as its rounds start before the deadline, the host's wait for a warming session ends with the
  -- session settled exactly where twice in a row its backend answers, and the lists that the backend read
  -- last show some node in a cluster, no pod without a node and no upcoming node that is not ready; a
  -- list that failed counts as empty.
  pub settles_on_lists :
      (start max : ℕ) (ks : List Look)
      → All (λ k. ltb k.now (start + max) ≡ true) ks
      → (wait_for_settle start max (map poll_of ks) ≡ settled_down) ↔ (up_twice ks ≡ true)
  settles_on_lists start max ks early =
      let early' : All (λ p. ltb p.now (start + max) ≡ true) (map poll_of ks) =
        All-map (λ k. ltb k.now (start + max) ≡ true) poll_of (λ p. ltb p.now (start + max) ≡ true)
          ks (λ k e. e) early in
      let same = converges-up ks in
      let (there, back) = wait_for_settle_iff start max (map poll_of ks) early' in
      ((λ e. sym same ∙ there e), (λ e. back (same ∙ e)))

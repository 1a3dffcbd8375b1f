-- ===== src/Host/Settle.antt =====
-- cmd/demohost/main.go: `waitForSettle` and `backendPending`, by which `createPooled` waits for the
-- backend of a session to have its fleet up.
pub mod Converged
use bigfleet_demo.Common.{
  ℕ, ◌+◌, Bool, true, false, ◌&&◌, Option, none, some, List, [], ◌∷◌, ltb, leb, eqb, if◌then◌else◌,
}
use bigfleet_demo.Backend.Fleet.{ClusterState}

-- The sums over the clusters that the backend reports; `none` where it gives no such answer.
unfoldable pub sum_clusters : List ClusterState → ℕ × ℕ
sum_clusters [] = (0, 0)
sum_clusters (c ∷ cs) =
    let (pending, nodes) = sum_clusters cs in
    (c.pods_pending + c.provisioning + pending, c.nodes + nodes)

unfoldable pub backend_pending : Option (List ClusterState) → Option (ℕ × ℕ)
backend_pending none = none
backend_pending (some cs) = some (sum_clusters cs)

unfoldable pub has_converged : Option (List ClusterState) → Bool
has_converged answer = elim (backend_pending answer) [
  | none ↦ false
  | some (pending, nodes) ↦ eqb pending 0 && ltb 0 nodes
]

-- A round of the loop: the time of its test, and what the backend answers.
pub record Poll : Type 0 where
  pub now : ℕ
  pub answer : Option (List ClusterState)

-- `unfinished`: the loop goes on behind the rounds that are given.
pub data Settling : Type 0 where
  settled_down timed_out unfinished : Settling

unfoldable pub settle_loop : ℕ → ℕ → List Poll → Settling
settle_loop deadline stable [] = unfinished
settle_loop deadline stable (p ∷ ps) =
    let again = settle_loop deadline (stable + 1) ps in
    let over = settle_loop deadline 0 ps in
    if ltb p.now deadline
    then (if has_converged p.answer
        then (if leb 2 (stable + 1) then settled_down else again)
        else over)
    else timed_out

unfoldable pub wait_for_settle : ℕ → ℕ → List Poll → Settling
wait_for_settle start max ps = settle_loop (start + max) 0 ps

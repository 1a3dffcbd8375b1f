-- ===== src/Backend/Wait.antt =====
-- backend/cmd/demo-backend/main.go: `waitFor`, by which a scenario waits for the fleet.
pub mod Ends
use bigfleet_demo.Common.{
  ℕ, ◌+◌, Bool, true, false, Option, none, some, List, [], ◌∷◌, ltb, if◌then◌else◌,
}

-- A round of the loop: the time of its test, whether the context is cancelled then, and what the
-- condition is.
pub record Round : Type 0 where
  pub now : ℕ
  pub is_cancelled : Bool
  pub holds : Bool

-- `none`: the loop goes on behind the rounds that are given.
unfoldable pub wait_until : ℕ → List Round → Option Bool
wait_until deadline [] = none
wait_until deadline (r ∷ rs) =
    let again = wait_until deadline rs in
    if ltb r.now deadline
    then (if r.is_cancelled then some false else if r.holds then some true else again)
    else some r.holds

unfoldable pub wait_for : ℕ → ℕ → List Round → Option Bool
wait_for start timeout rs = wait_until (start + timeout) rs

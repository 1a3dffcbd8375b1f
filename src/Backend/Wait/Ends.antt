-- ===== src/Backend/Wait/Ends.antt =====
-- How long a wait takes, and what its result means.
use bigfleet_demo.Common.{
  ℕ, ◌+◌, ◌*◌, ◌≤◌, ◌<◌, ◌≡◌, Bool, false, ◌||◌, some, List, [], ◌∷◌, arith, leb, if◌then◌else◌,
  length,
}
use bigfleet_demo.Host.State.{second}
use bigfleet_demo.Backend.Wait.{Round, wait_until, wait_for}

-- A round begins two seconds after the one before it, or later.
abbrev pub IsSpaced : ℕ → List Round → Type 0
IsSpaced t [] = Unit
IsSpaced t (r ∷ rs) = (t ≤ r.now) × IsSpaced (r.now + 2 * second) rs

-- The rounds in which the condition is looked at: up to the first at or after the deadline, or before
-- the first in which the context is found to be cancelled.
abbrev pub looked_at : ℕ → List Round → List Round
looked_at deadline [] = []
looked_at deadline (r ∷ rs) =
    let rest = r ∷ looked_at deadline rs in
    if leb deadline r.now then r ∷ [] else if r.is_cancelled then [] else rest

abbrev pub any_holds : List Round → Bool
any_holds [] = false
any_holds (r ∷ rs) = r.holds || any_holds rs

wait_until-looks :
    (deadline t : ℕ) (rs : List Round)
    → IsSpaced t rs
    → t < deadline + 2 * second
    → deadline + 2 * second ≤ t + 2 * second * length rs
    → wait_until deadline rs ≡ some (any_holds (looked_at deadline rs))
unfolding wait_until
wait_until-looks deadline t [] s early h = absurd (omega arith)
wait_until-looks deadline t (r ∷ rs) s early h =
    ground (arith, wait_until-looks deadline (r.now + 2 * second) rs s.1)

-- A wait ends once it has begun as many rounds, two seconds apart or more, as the timeout has
-- room for and one more: its result is whether the condition held in one of the rounds up to the first
-- at or after the deadline, as far as these come before the context is found to be cancelled.
pub wait_for_ends :
    (start timeout : ℕ) (rs : List Round)
    → IsSpaced start rs
    → timeout + 2 * second ≤ 2 * second * length rs
    → wait_for start timeout rs ≡ some (any_holds (looked_at (start + timeout) rs))
unfolding wait_for
wait_for_ends start timeout rs s h =
    wait_until-looks (start + timeout) start rs s (omega arith) (omega arith)

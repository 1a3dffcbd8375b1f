-- ===== src/Backend/World/Shown.antt =====
-- The levels that a round of `pollLoop` shows.
use bigfleet_demo.Common.{
  ℕ, ◌≤◌, ◌≡◌, refl, true, false, Option, none, some, List, [], ◌∷◌, map, arith, Text, codes,
  text_eq, length, text_has_eq, All,
}
use bigfleet_demo.Backend.Demand.{Demand}
use bigfleet_demo.Backend.Demand.Levels.{level_of}
use bigfleet_demo.Backend.Feed.{FleetState, Feed, publish}
use bigfleet_demo.Backend.Feed.Length.{synthesize_feed-short}
use bigfleet_demo.Backend.Fleet.{ClusterState, Listing, poll_cluster, level_or_zero}
use bigfleet_demo.Backend.Latest.{Settings, Round, fleet_state, set_latest, poll_round}
use bigfleet_demo.Backend.Scenario.{Scenarios}
use bigfleet_demo.Backend.World.Range.{is_allowed, InRange}

-- A cluster is shown at 40 or below.
abbrev pub IsShown : ClusterState → Type 0
IsShown c = (c.demand ≤ 40) × (c.critical ≤ 40)

module _ (baseline : ℕ) (d : Demand) (all : InRange baseline d) where
  level_or_zero-le :
      (cl tier : Text) → text_eq tier (codes "baseline") ≡ false → level_or_zero cl tier d ≤ 40
  level_or_zero-le cl tier other = below (level_of cl tier d) (all cl tier)
    where
      below :
          (l : Option ℕ) → is_allowed baseline tier l ≡ true → elim l [ none ↦ 0 | some n ↦ n ] ≤ 40
      below none e = omega arith
      below (some n) e = ground (arith, e, other)

  polled-shown : (ls : List Listing) → All IsShown (map (poll_cluster d) ls)
  unfolding poll_cluster text_eq
  polled-shown [] = tt
  polled-shown (l ∷ ls) = (
    (
      level_or_zero-le l.name (codes "demand") refl,
      level_or_zero-le l.name (codes "critical") refl,
    ),
    polled-shown ls,
  )

  pub poll_round-shown :
      (k : Settings) (s : Scenarios) (r : Round) (latest : FleetState) (f : Feed)
      → All IsShown (poll_round k d s r latest f).0.clusters
  unfolding poll_round set_latest publish fleet_state
  poll_round-shown k s r latest f = polled-shown r.listings

pub poll_round-short :
    (k : Settings) (d : Demand) (s : Scenarios) (r : Round) (latest : FleetState) (f : Feed)
    → length f.feed ≤ 40
    → length (poll_round k d s r latest f).1.feed ≤ 40
unfolding poll_round publish
poll_round-short k d s r latest f h = synthesize_feed-short (fleet_state k d s.cur_scenario r) f h

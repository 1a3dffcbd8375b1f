-- ===== src/NodeCreator/Tick/InTime.antt =====
-- How long it takes until a node is created.
use bigfleet_demo.Common.{
  ℕ, ◌+◌, ◌≤◌, ◌≡◌, ◌∙◌, Bool, true, false, not, ◌&&◌, ◌||◌, some, List, [], ◌∷◌, Text, arith, leb,
  text_eq, text_has_eq,
}
use bigfleet_demo.Common.Dict.{Dict}
use bigfleet_demo.NodeCreator.Hash.Spread.{dwell_for_between}
use bigfleet_demo.NodeCreator.Names.{UpcomingNode, realistic_node_name}
use bigfleet_demo.NodeCreator.Tick.{
  Timing, Memory, Answers, Input, complete, tick, first_seen, is_provisioning,
}
use bigfleet_demo.NodeCreator.Tick.Mint.{creates, due_in, creates-tick}

module _ (name : Text) where
  -- An upcoming node of this node name is ready and has no node, and was first seen ready at least the
  -- longest dwell ago.
  unfoldable pub long_ready : Timing → ℕ → Dict Text ℕ → List (UpcomingNode × Answers) → Bool
  long_ready t now first_ready [] = false
  long_ready t now first_ready ((u, a) ∷ us) =
      (u.is_ready
        && (text_eq (realistic_node_name u) name
            && (not a.is_there && leb (first_seen u.name now first_ready + t.dwell.max) now)))
      || long_ready t now first_ready us

  long_ready-due :
      (t : Timing) (now : ℕ) (first_ready : Dict Text ℕ) (us : List (UpcomingNode × Answers))
      → t.dwell.min ≤ t.dwell.max
      → long_ready t now first_ready us ≡ true
      → due_in name t now first_ready us ≡ true
  unfolding long_ready due_in is_provisioning
  long_ready-due t now first_ready [] h e = absurd (ground (arith, e))
  long_ready-due t now first_ready ((u, a) ∷ us) h e =
      let between = dwell_for_between t.dwell u.name h in
      ground (arith, e, between.1, long_ready-due t now first_ready us h)

  -- Where the bounds of the dwell are in order: a tick that completes creates the node of every
  -- upcoming node that is ready, has no node yet, and was first seen ready at least the longest dwell
  -- ago.
  pub created_in_time :
      (t : Timing) (i : Input) (s : Memory) (us : List (UpcomingNode × Answers))
      → t.dwell.min ≤ t.dwell.max
      → i.upcoming ≡ some us
      → long_ready t i.now s.first_ready us ≡ true
      → (tick t i s).outcome ≡ complete
      → creates name (tick t i s).calls ≡ true
  created_in_time t i s us h u long done =
      creates-tick name t i s us u done ∙ long_ready-due t i.now s.first_ready us h long

-- ===== src/NodeCreator/Tick/Ripe.antt =====
-- What a tick creates, by the warm-up, the dwell and the time a node was first seen ready.
use bigfleet_demo.Common.{
  ℕ, ◌+◌, Bool, false, not, ◌&&◌, ◌||◌, none, some, List, [], ◌∷◌, Text, leb, ltb, text_eq,
  text_has_eq,
}
use bigfleet_demo.Common.Dict.{Dict, lookup}
use bigfleet_demo.NodeCreator.Hash.{dwell_for}
use bigfleet_demo.NodeCreator.Names.{UpcomingNode, realistic_node_name}
use bigfleet_demo.NodeCreator.Tick.{Timing, Answers}

-- Since when a name is ready: the remembered time, or now.
abbrev pub ready_since : Text → ℕ → Dict Text ℕ → ℕ
ready_since name now first_ready = elim (lookup name first_ready) [
  | none ↦ now
  | some since ↦ since
]

module _ (name : Text) where
  -- An upcoming node of this node name is ready and has no node, and the warm-up is not over or the
  -- dwell is, counted from when it was first seen ready.
  unfoldable pub ripe_in : Timing → ℕ → Dict Text ℕ → List (UpcomingNode × Answers) → Bool
  ripe_in t now first_ready [] = false
  ripe_in t now first_ready ((u, a) ∷ us) =
      (u.is_ready
        && (text_eq (realistic_node_name u) name
            && (not a.is_there
                && (ltb now t.warmup_until
                    || leb (ready_since u.name now first_ready + dwell_for t.dwell u.name) now))))
      || ripe_in t now first_ready us

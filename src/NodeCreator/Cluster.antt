-- ===== src/NodeCreator/Cluster.antt =====
-- cmd/node-creator/main.go: the controller in a loop with the API server of its cluster, for the node of
-- one name. That the server answers by what exists is stated as a hypothesis on its answers.
pub mod Waiting
pub mod Ticks
pub mod Gone
pub mod Comes
use bigfleet_demo.Common.{
  ◌≡◌, Bool, true, false, not, ◌&&◌, ◌||◌, Option, none, some, List, [], ◌∷◌, Text, text_eq,
  if◌then◌else◌,
}
use bigfleet_demo.NodeCreator.Names.{UpcomingNode, realistic_node_name}
use bigfleet_demo.NodeCreator.Tick.{Timing, Memory, Answers, Input, Call, complete, tick}
use bigfleet_demo.NodeCreator.Tick.Asked.{deletes}
use bigfleet_demo.NodeCreator.Tick.Mint.{creates}
use bigfleet_demo.NodeCreator.Tick.Removed.{sees}

module _ (t : Timing) (name : Text) where
  -- Whether the node exists after the calls of a tick.
  abbrev pub exists_after : Bool → List Call → Bool
  exists_after b cs = (b || creates name cs) && not (deletes name cs)

  -- A `Get` of the node finds it just where it exists.
  unfoldable pub gets_exact : Bool → List (UpcomingNode × Answers) → Bool
  gets_exact b [] = true
  gets_exact b ((u, a) ∷ us) =
      (not (text_eq (realistic_node_name u) name) || (if b then a.is_there else not a.is_there))
      && gets_exact b us

  abbrev pub got_exact : Bool → Input → Bool
  got_exact b i = elim i.upcoming [ none ↦ true | some us ↦ gets_exact b us ]

  -- The server answers by what exists, which before the tick is `b`: a `Get`, and the list of the
  -- nodes, which comes after the creates. No call of the tick fails.
  abbrev pub IsServed : Input → Memory → Bool → Type 0
  IsServed i s b =
      (got_exact b i ≡ true)
      × (sees name i ≡ (b || creates name (tick t i s).calls))
      × ((tick t i s).outcome ≡ complete)

  -- Whether the node exists after a run from `s`.
  abbrev pub exists_in : List Input → Memory → Bool → Bool
  exists_in [] s b = b
  exists_in (i ∷ is) s b = exists_in is (tick t i s).memory (exists_after b (tick t i s).calls)

  abbrev pub AreServed : List Input → Memory → Bool → Type 0
  AreServed [] s b = Unit
  AreServed (i ∷ is) s b =
      IsServed i s b × AreServed is (tick t i s).memory (exists_after b (tick t i s).calls)

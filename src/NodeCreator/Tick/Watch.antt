-- ===== src/NodeCreator/Tick/Watch.antt =====
-- Watches the calls of the controller that concern one node.
use bigfleet_demo.Common.{
  ℕ, ◌+◌, ◌≤◌, Option, none, some, List, [], ◌∷◌, Text, text_eq, text_has_eq, if◌then◌else◌,
}
use bigfleet_demo.NodeCreator.Tick.{
  Timing, Memory, Call, create_node, update_status, cordon, uncordon, delete_node, patch_status,
  draining, removed, Input, tick,
}

-- Watches the calls that concern the node `name`: `b` is the end of the drain that was announced last,
-- until the node is deleted.
module _ (t : Timing) (name : Text) where
  abbrev pub deadline : ℕ → Call → Option ℕ → Option ℕ
  deadline now (draining n) b = if text_eq n name then some (now + t.drain_dwell) else b
  deadline now (delete_node n) b = if text_eq n name then none else b
  deadline now (create_node n) b = b
  deadline now (update_status n s) b = b
  deadline now (cordon n) b = b
  deadline now (uncordon n) b = b
  deadline now (patch_status n s) b = b
  deadline now (removed n) b = b

  abbrev pub IsOver : ℕ → Option ℕ → Type 0
  IsOver now none = ⊥
  IsOver now (some d) = d ≤ now

  -- The node is only deleted when its drain is over.
  abbrev pub IsAllowed : ℕ → Call → Option ℕ → Type 0
  IsAllowed now (delete_node n) b = if text_eq n name then IsOver now b else Unit
  IsAllowed now (draining n) b = Unit
  IsAllowed now (create_node n) b = Unit
  IsAllowed now (update_status n s) b = Unit
  IsAllowed now (cordon n) b = Unit
  IsAllowed now (uncordon n) b = Unit
  IsAllowed now (patch_status n s) b = Unit
  IsAllowed now (removed n) b = Unit

  abbrev pub deadline_after : ℕ → List Call → Option ℕ → Option ℕ
  deadline_after now [] b = b
  deadline_after now (c ∷ cs) b = deadline_after now cs (deadline now c b)

  abbrev pub AreAllowed : ℕ → List Call → Option ℕ → Type 0
  AreAllowed now [] b = Unit
  AreAllowed now (c ∷ cs) b = IsAllowed now c b × AreAllowed now cs (deadline now c b)

  -- In a run from `s`, each delete of the node follows an announced drain of the node by at least the
  -- drain time, with no other delete of the node between the two.
  abbrev pub IsDrained : List Input → Memory → Option ℕ → Type 0
  IsDrained [] s b = Unit
  IsDrained (i ∷ is) s b =
      let r = tick t i s in
      AreAllowed i.now r.calls b × IsDrained is r.memory (deadline_after i.now r.calls b)

-- ===== src/NodeCreator/Cluster/Gone.antt =====
-- The cluster loses the nodes that are not wanted.
use bigfleet_demo.Common.{
  ℕ, ◌+◌, ◌≤◌, ◌≡◌, refl, sym, ap, ◌∙◌, inl, inr, Bool, true, false, not, ◌&&◌, Option, none, some,
  List, [], ◌∷◌, ◌++◌, arith, Text, text_has_eq, Bool-cases, Option-cases, All, All-append,
}
use bigfleet_demo.Common.Dict.{Dict, lookup}
use bigfleet_demo.NodeCreator.Names.{UpcomingNode}
use bigfleet_demo.NodeCreator.Tick.{
  Timing, Memory, Answers, Input, complete, tick, upcoming_unlisted,
}
use bigfleet_demo.NodeCreator.Tick.Asked.{wanted_in}
use bigfleet_demo.NodeCreator.Tick.Mint.{creates, due_in, creates-tick}
use bigfleet_demo.NodeCreator.Tick.Removed.{wants, sees, run, deletes_in, unwanted_removed}
use bigfleet_demo.NodeCreator.Cluster.{exists_after, IsServed, exists_in, AreServed}

module _ (t : Timing) (name : Text) where
  due-wanted :
      (now : ℕ) (d : Dict Text ℕ) (us : List (UpcomingNode × Answers))
      → wanted_in name us ≡ false
      → due_in name t now d us ≡ false
  unfolding due_in wanted_in
  due-wanted now d [] w = refl
  due-wanted now d ((u, a) ∷ us) w = ground (arith, w, due-wanted now d us)

  -- A tick that completes has read the list of the upcoming nodes.
  pub listed :
      (i : Input) (s : Memory)
      → (tick t i s).outcome ≡ complete
      → (us : List (UpcomingNode × Answers)) × (i.upcoming ≡ some us)
  unfolding tick
  listed i s done = elim (Option-cases i.upcoming) [
    | inr found ↦ found
    | inl e ↦
        let failed : (tick t i s).outcome ≡ upcoming_unlisted = rw (e, tick) refl in
        absurd (ground (arith, failed, done))
  ]

  unwanted_not_created :
      (i : Input) (s : Memory)
      → wants name i ≡ false
      → (tick t i s).outcome ≡ complete
      → creates name (tick t i s).calls ≡ false
  unwanted_not_created i s w done =
      let (us, u) = listed i s done in
      let asked : wanted_in name us ≡ false =
        sym (
          ap
            (λ (o : Option (List (UpcomingNode × Answers))). elim o [
              | none ↦ false
              | some vs ↦ wanted_in name vs
            ])
            u)
        ∙ w in
      creates-tick name t i s us u done ∙ due-wanted i.now s.first_ready us asked

  -- While the node is not wanted it exists until a call deletes it.
  exists_in-unwanted :
      (is : List Input) (s : Memory) (b : Bool)
      → All (λ i. wants name i ≡ false) is
      → AreServed t name is s b
      → exists_in t name is s b ≡ (b && not (deletes_in name t is s))
  exists_in-unwanted [] s b w h = ground arith
  exists_in-unwanted (i ∷ is) s b w h =
      let none_made = unwanted_not_created i s w.0 h.0.2 in
      exists_in-unwanted is (tick t i s).memory _ w.1 h.1 ∙ ground (arith, none_made)

  IsServed-last :
      (is : List Input) (j : Input) (s : Memory) (b : Bool)
      → AreServed t name (is ++ j ∷ []) s b
      → IsServed t name j (run name t is s) (exists_in t name is s b)
        × AreServed t name is s b
        × (exists_in t name (is ++ j ∷ []) s b
            ≡ exists_after t name (exists_in t name is s b) (tick t j (run name t is s)).calls)
  IsServed-last [] j s b h = (h.0, tt, refl)
  IsServed-last (i ∷ is) j s b h =
      let (last, before, end) =
        IsServed-last is j (tick t i s).memory (exists_after t name b (tick t i s).calls) h.1 in
      (last, (h.0, before), end)

  -- A node that is not wanted from one tick to another at least the drain time later is gone after
  -- them, where the API server answers by what exists, no call fails, and no drain of the node was
  -- under way at first.
  pub unwanted_gone :
      (i : Input) (mid : List Input) (j : Input) (s : Memory) (b : Bool)
      → lookup name s.drain_at ≡ none
      → All (λ i. wants name i ≡ false) (i ∷ mid)
      → wants name j ≡ false
      → i.now + t.drain_dwell ≤ j.now
      → AreServed t name (i ∷ mid ++ j ∷ []) s b
      → exists_in t name (i ∷ mid ++ j ∷ []) s b ≡ false
  unwanted_gone i mid j s b none_yet w l wait h =
      let (last, before, end) = IsServed-last (i ∷ mid) j s b h in
      let e = exists_in t name (i ∷ mid) s b in
      let made = unwanted_not_created j (run name t (i ∷ mid) s) l last.2 in
      elim (Bool-cases e) [
        | inr f ↦ end ∙ ground (arith, made, f)
        | inl f ↦
            let kept : e ≡ (b && not (deletes_in name t (i ∷ mid) s)) =
              exists_in-unwanted (i ∷ mid) s b w before in
            let there : b ≡ true = ground (arith, f, kept) in
            let seen : sees name i ≡ true = h.0.1 ∙ ground (arith, there) in
            let seen' : sees name j ≡ true = last.1 ∙ ground (arith, f) in
            let removed =
              unwanted_removed name t i mid j s none_yet w l seen seen' h.0.2 last.2 wait in
            let never : All (λ i. wants name i ≡ false) (i ∷ mid ++ j ∷ []) =
              All-append (λ i. wants name i ≡ false) (i ∷ mid) (j ∷ []) w (l, tt) in
            exists_in-unwanted (i ∷ mid ++ j ∷ []) s b never h ∙ ground (arith, removed)
      ]

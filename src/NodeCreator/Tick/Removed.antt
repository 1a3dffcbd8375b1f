-- ===== src/NodeCreator/Tick/Removed.antt =====
-- A node that no upcoming node wants is removed once its drain is over.
use bigfleet_demo.Common.{
  subst, ℕ, ◌+◌, ◌≤◌, ◌≡◌, ◌≢◌, refl, sym, ap, ◌∙◌, ◌⊎◌, inl, inr, Bool, true, false, ◌||◌, Option,
  none, some, List, [], ◌∷◌, ◌++◌, Text, arith, text_has_eq, Bool-cases, All,
}
use bigfleet_demo.Common.Dict.{Dict, lookup}
use bigfleet_demo.NodeCreator.Names.{UpcomingNode}
use bigfleet_demo.NodeCreator.Tick.{
  Timing, Memory, KwokNode, Call, Answers, Minting, mint, tend_all, is_set, Input, complete,
  finish_tick, no_minting, tick,
}
use bigfleet_demo.NodeCreator.Tick.Asked.{wanted_in, seen_in, deletes, deletes-append}
use bigfleet_demo.NodeCreator.Tick.Wanted.{minted-want}
use bigfleet_demo.NodeCreator.Tick.Ends.{
  Pending, Leaves, or_true, lift, tend_all-Leaves, tend_all-begins, tend_all-ends,
}

module _ (name : Text) where
  -- An upcoming node of this tick wants the node, and the node is listed.
  abbrev pub wants : Input → Bool
  wants i = elim i.upcoming [ none ↦ false | some us ↦ wanted_in name us ]

  abbrev pub sees : Input → Bool
  sees i = elim i.nodes [ none ↦ false | some ns ↦ seen_in name ns ]

  module _ (t : Timing) where
    -- The memory of drains after a tick, with its calls.
    abbrev drains : Input → Memory → Dict Text ℕ × List Call
    drains i s = let r = tick t i s in (r.memory.drain_at, r.calls)

    abbrev input : ℕ → Option (List (UpcomingNode × Answers)) → Option (List KwokNode) → Input
    input now us ns = record { now = now; upcoming = us; nodes = ns }

    -- A tick either does not look at the nodes or goes through all of them.
    tick-shape :
        (now : ℕ) (upcoming : Option (List (UpcomingNode × Answers)))
        (nodes : Option (List KwokNode)) (s : Memory)
        → let i = input now upcoming nodes in
          (((tick t i s).memory.drain_at ≡ s.drain_at) × ((tick t i s).outcome ≢ complete))
          ⊎ ((m : Minting) × (ns : List KwokNode) × (nodes ≡ some ns)
              × (is_set name m.want ≡ wants i)
              × (drains i s ≡ (
                (tend_all t now m ns s.drain_at).0,
                m.calls ++ (tend_all t now m ns s.drain_at).1,
              )))
    unfolding tick finish_tick
    tick-shape now none ns s = inl (refl, (λ e. ground (arith, e)))
    tick-shape now (some us) ns s =
        let i = input now (some us) ns in
        let minted = mint t now us (no_minting s) in
        elim (Bool-cases minted.1) [
          | inr ko ↦ inl (rw (ko, tick) refl, rw (ko, tick) (λ e. ground (arith, e)))
          | inl ok ↦ on ns ok
        ]
      where
        on :
            (ns : Option (List KwokNode))
            → (mint t now us (no_minting s)).1 ≡ true
            → let i = input now (some us) ns in
              (((tick t i s).memory.drain_at ≡ s.drain_at) × ((tick t i s).outcome ≢ complete))
              ⊎ ((m : Minting) × (ls : List KwokNode) × (ns ≡ some ls)
                  × (is_set name m.want ≡ wants i)
                  × (drains i s ≡ (
                    (tend_all t now m ls s.drain_at).0,
                    m.calls ++ (tend_all t now m ls s.drain_at).1,
                  )))
        on none ok = inl (rw (ok, tick) refl, rw (ok, tick) (λ e. ground (arith, e)))
        on (some ls) ok = inr (
          (mint t now us (no_minting s)).0,
          ls,
          refl,
          minted-want name t (input now (some us) (some ls)) s us ok,
          rw (ok, tick, finish_tick) refl,
        )

    tick-Leaves :
        (i : Input) (s : Memory) (bound : ℕ)
        → wants i ≡ false
        → Pending name bound s.drain_at
        → Leaves name bound (drains i s)
    tick-Leaves i s bound w (x, p, q) = elim (tick-shape i.now i.upcoming i.nodes s) [
      | inl (same, _) ↦ inr (x, ap (lookup name) same ∙ p, q)
      | inr (m, ns, _, r, e) ↦ subst (Leaves name bound) (sym e) (
          lift name m.calls (tend_all t i.now m ns s.drain_at)
            (tend_all-Leaves name t i.now m (r ∙ w) ns bound s.drain_at (x, p, q)))
    ]

    listed :
        (i : Input) (ns : List KwokNode)
        → i.nodes ≡ some ns
        → sees i ≡ true
        → seen_in name ns ≡ true
    listed i ns e h =
        sym
          (ap (λ (o : Option (List KwokNode)). elim o [ none ↦ false | some l ↦ seen_in name l ]) e)
        ∙ h

    tick-begins :
        (i : Input) (s : Memory)
        → lookup name s.drain_at ≡ none
        → wants i ≡ false
        → sees i ≡ true
        → (tick t i s).outcome ≡ complete
        → Leaves name (i.now + t.drain_dwell) (drains i s)
    tick-begins i s h w k done = elim (tick-shape i.now i.upcoming i.nodes s) [
      | inl (_, failed) ↦ absurd (failed done)
      | inr (m, ns, f, r, e) ↦ subst (Leaves name (i.now + t.drain_dwell)) (sym e) (
          lift name m.calls (tend_all t i.now m ns s.drain_at)
            (tend_all-begins name t i.now m (r ∙ w) ns s.drain_at h (listed i ns f k)))
    ]

    tick-ends :
        (i : Input) (s : Memory)
        → Pending name i.now s.drain_at
        → wants i ≡ false
        → sees i ≡ true
        → (tick t i s).outcome ≡ complete
        → deletes name (tick t i s).calls ≡ true
    tick-ends i s p w k done = elim (tick-shape i.now i.upcoming i.nodes s) [
      | inl (_, failed) ↦ absurd (failed done)
      | inr (m, ns, f, r, e) ↦
          subst (λ (d : Dict Text ℕ × List Call). deletes name d.1 ≡ true) (sym e)
            (deletes-append name m.calls _
              ∙ or_true name (deletes name m.calls)
                  (tend_all-ends name t i.now m (r ∙ w) ns s.drain_at p (listed i ns f k)))
    ]

    -- The memory after a run, and whether the run deletes the node.
    abbrev pub run : List Input → Memory → Memory
    run [] s = s
    run (i ∷ is) s = run is (tick t i s).memory

    abbrev pub deletes_in : List Input → Memory → Bool
    deletes_in [] s = false
    deletes_in (i ∷ is) s = deletes name (tick t i s).calls || deletes_in is (tick t i s).memory

    waits_for :
        (mid : List Input) (j : Input) (s : Memory)
        → Pending name j.now s.drain_at
        → All (λ i. wants i ≡ false) mid
        → wants j ≡ false
        → sees j ≡ true
        → (tick t j (run mid s)).outcome ≡ complete
        → deletes_in (mid ++ j ∷ []) s ≡ true
    waits_for [] j s p a w k done = rw (tick-ends j s p w k done) refl
    waits_for (i ∷ mid) j s p a w k done = elim (tick-Leaves i s j.now a.0 p) [
      | inl e ↦ rw e refl
      | inr p' ↦
          or_true name (deletes name (tick t i s).calls)
            (waits_for mid j (tick t i s).memory p' a.1 w k done)
    ]

    -- A node that is not wanted from one tick to another at least the drain time later, each complete
    -- and seeing the node, is deleted by then, whatever the ticks between them see or fail to do, where
    -- no drain of the node was under way at first.
    pub unwanted_removed :
        (i : Input) (mid : List Input) (j : Input) (s : Memory)
        → lookup name s.drain_at ≡ none
        → All (λ i. wants i ≡ false) (i ∷ mid)
        → wants j ≡ false
        → sees i ≡ true
        → sees j ≡ true
        → (tick t i s).outcome ≡ complete
        → (tick t j (run (i ∷ mid) s)).outcome ≡ complete
        → i.now + t.drain_dwell ≤ j.now
        → deletes_in (i ∷ mid ++ j ∷ []) s ≡ true
    unwanted_removed i mid j s h a w k l done done' wait = elim (tick-begins i s h a.0 k done) [
      | inl e ↦ rw e refl
      | inr (x, p, q) ↦
          or_true name (deletes name (tick t i s).calls)
            (waits_for mid j (tick t i s).memory (x, p, omega arith) a.1 w l done')
    ]

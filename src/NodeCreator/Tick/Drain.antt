-- ===== src/NodeCreator/Tick/Drain.antt =====
-- A node is drained for its time before it is deleted.
use bigfleet_demo.Common.{
  ℕ, ◌+◌, ◌≡◌, refl, ◌⊎◌, inl, inr, false, Option, none, some, List, [], ◌∷◌, ◌++◌, Text, codes,
  arith, ltb, text_eq, text_eq_iff, text_has_eq, if◌then◌else◌, Bool-cases, Option-cases, All,
}
use bigfleet_demo.Common.Dict.{Dict, lookup, insert, delete, lookup-insert, lookup-delete}
use bigfleet_demo.Backend.Nodes.{label}
use bigfleet_demo.NodeCreator.Labels.{managed_label}
use bigfleet_demo.NodeCreator.Tick.{
  Timing, Memory, KwokNode, Call, delete_node, draining, Minting, mint, reclaim, keep, tend,
  tend_all, is_set, Input, finish_tick, no_minting, tick,
}
use bigfleet_demo.NodeCreator.Tick.Watch.{
  deadline, IsOver, IsAllowed, deadline_after, AreAllowed, IsDrained,
}
use bigfleet_demo.NodeCreator.Tick.Quiet.{IsQuiet, keep-All, mint-All}

module _ (t : Timing) (name : Text) where
  -- What the controller remembers of the node's drain is what was announced, or nothing.
  abbrev Agrees : Dict Text ℕ → Option ℕ → Type 0
  Agrees d b = (lookup name d ≡ none) ⊎ (lookup name d ≡ b)

  -- The calls `cs` are allowed, and after them the controller's memory `d` agrees.
  abbrev Keeps : ℕ → List Call → Option ℕ → Dict Text ℕ → Type 0
  Keeps now cs b d = AreAllowed t name now cs b × Agrees d (deadline_after t name now cs b)

  AreAllowed-append :
      (now : ℕ) (xs ys : List Call) (b : Option ℕ) (d : Dict Text ℕ)
      → AreAllowed t name now xs b
      → Keeps now ys (deadline_after t name now xs b) d
      → Keeps now (xs ++ ys) b d
  AreAllowed-append now [] ys b d h k = k
  AreAllowed-append now (x ∷ xs) ys b d h k =
      let (rest, agrees) = AreAllowed-append now xs ys (deadline t name now x b) d h.1 k in
      ((h.0, rest), agrees)

  begin-Agrees :
      (now : ℕ) (n : Text) (d : Dict Text ℕ) (b : Option ℕ)
      → Agrees d b
      → Agrees (insert n (now + t.drain_dwell) d) (deadline t name now (draining n) b)
  begin-Agrees now n d b a = elim (Bool-cases (text_eq n name)) [
    | inl e ↦ rw (lookup-insert n name (now + t.drain_dwell) d, e) (inr refl)
    | inr e ↦ rw (lookup-insert n name (now + t.drain_dwell) d, e) a
  ]

  drop-Agrees :
      (now : ℕ) (n : Text) (d : Dict Text ℕ) (b : Option ℕ)
      → Agrees d b
      → Agrees (delete n d) (if text_eq n name then none else b)
  drop-Agrees now n d b a = elim (Bool-cases (text_eq n name)) [
    | inl e ↦ rw (lookup-delete n name d, e) (inl refl)
    | inr e ↦ rw (lookup-delete n name d, e) a
  ]

  cancel-Agrees : (n : Text) (d : Dict Text ℕ) (b : Option ℕ) → Agrees d b → Agrees (delete n d) b
  cancel-Agrees n d b a = elim (Bool-cases (text_eq n name)) [
    | inl e ↦ rw (lookup-delete n name d, e) (inl refl)
    | inr e ↦ rw (lookup-delete n name d, e) a
  ]

  over_by :
      (now until : ℕ) (n : Text) (d : Dict Text ℕ) (b : Option ℕ)
      → Agrees d b
      → lookup n d ≡ some until
      → ltb now until ≡ false
      → IsAllowed t name now (delete_node n) b
  over_by now until n d b a e q = elim (Bool-cases (text_eq n name)) [
    | inl h ↦ rw h (
        waited b (elim a [
          | inl p ↦ absurd (ground (arith, p, e, h, text_eq_iff n name))
          | inr p ↦ ground (arith, p, e, h, text_eq_iff n name)
        ]))
    | inr h ↦ rw h tt
  ]
    where
      waited : (b : Option ℕ) → b ≡ some until → IsOver t name now b
      waited none p = absurd (ground (arith, p))
      waited (some x) p = ground (arith, p, q)

  reclaim-Keeps :
      (now : ℕ) (n : KwokNode) (d : Dict Text ℕ) (b : Option ℕ)
      → Agrees d b
      → Keeps now (reclaim t now n d).1 b (reclaim t now n d).0
  unfolding reclaim
  reclaim-Keeps now n d b a = elim (Option-cases (lookup n.name d)) [
    | inl e ↦ elim (Bool-cases n.is_unschedulable) [
      | inl u ↦ rw (e, u, reclaim) ((tt, tt), begin-Agrees now n.name d b a)
      | inr u ↦ rw (e, u, reclaim) ((tt, (tt, tt)), begin-Agrees now n.name d b a)
    ]
    | inr (until, e) ↦ elim (Bool-cases (ltb now until)) [
      | inl q ↦ rw (e, q, reclaim) (tt, a)
      | inr q ↦
          rw (e, q, reclaim)
            ((over_by now until n.name d b a e q, (tt, tt)), drop-Agrees now n.name d b a)
    ]
  ]

  quiet-Keeps :
      (now : ℕ) (cs : List Call) (d : Dict Text ℕ) (b : Option ℕ)
      → All (IsQuiet t name) cs
      → Agrees d b
      → Keeps now cs b d
  quiet-Keeps now [] d b q a = (tt, a)
  quiet-Keeps now (c ∷ cs) d b q a =
      let (same, fine) = q.0 now b in
      let (rest, agrees) = quiet-Keeps now cs d b q.1 a in rw same ((fine, rest), agrees)

  keep-Agrees :
      (m : Minting) (n : KwokNode) (d : Dict Text ℕ) (b : Option ℕ)
      → Agrees d b
      → Agrees (keep m n d).0 b
  unfolding keep
  keep-Agrees m n d b a = elim (Option-cases (lookup n.name d)) [
    | inl e ↦ rw (e, keep) a
    | inr (until, e) ↦ rw (e, keep) (cancel-Agrees n.name d b a)
  ]

  keep-Keeps :
      (now : ℕ) (m : Minting) (n : KwokNode) (d : Dict Text ℕ) (b : Option ℕ)
      → Agrees d b
      → Keeps now (keep m n d).1 b (keep m n d).0
  keep-Keeps now m n d b a =
      quiet-Keeps now (keep m n d).1 (keep m n d).0 b (keep-All t name m n d)
        (keep-Agrees m n d b a)

  tend-Keeps :
      (now : ℕ) (m : Minting) (n : KwokNode) (d : Dict Text ℕ) (b : Option ℕ)
      → Agrees d b
      → Keeps now (tend t now m n d).1 b (tend t now m n d).0
  unfolding tend
  tend-Keeps now m n d b a =
      elim (Bool-cases (text_eq (label managed_label n.labels) (codes "true"))) [
        | inr e ↦ rw (e, tend) (tt, a)
        | inl e ↦ elim (Bool-cases (is_set n.name m.want)) [
          | inl w ↦ rw (e, w, tend) (keep-Keeps now m n d b a)
          | inr w ↦ rw (e, w, tend) (reclaim-Keeps now n d b a)
        ]
      ]

  tend_all-Keeps :
      (now : ℕ) (m : Minting) (ns : List KwokNode) (d : Dict Text ℕ) (b : Option ℕ)
      → Agrees d b
      → Keeps now (tend_all t now m ns d).1 b (tend_all t now m ns d).0
  unfolding tend_all
  tend_all-Keeps now m [] d b a = (tt, a)
  tend_all-Keeps now m (n ∷ ns) d b a =
      let (fine, agrees) = tend-Keeps now m n d b a in
      AreAllowed-append now (tend t now m n d).1 _ b _ fine
        (tend_all-Keeps now m ns (tend t now m n d).0 _ agrees)

  finish_tick-Keeps :
      (i : Input) (m : Minting) (s : Memory) (b : Option ℕ)
      → All (IsQuiet t name) m.calls
      → Agrees s.drain_at b
      → let r = finish_tick t i m s in Keeps i.now r.calls b r.memory.drain_at
  unfolding finish_tick
  finish_tick-Keeps i m s b q a = elim (Option-cases i.nodes) [
    | inl e ↦ rw (e, finish_tick) (quiet-Keeps i.now m.calls s.drain_at b q a)
    | inr (ns, e) ↦
        let (fine, agrees) = quiet-Keeps i.now m.calls s.drain_at b q a in
        rw (e, finish_tick)
          (AreAllowed-append i.now m.calls _ b _ fine
            (tend_all-Keeps i.now m ns s.drain_at _ agrees))
  ]

  tick-Keeps :
      (i : Input) (s : Memory) (b : Option ℕ)
      → Agrees s.drain_at b
      → let r = tick t i s in Keeps i.now r.calls b r.memory.drain_at
  unfolding tick no_minting
  tick-Keeps i s b a = elim (Option-cases i.upcoming) [
    | inl e ↦ rw (e, tick) (tt, a)
    | inr (us, e) ↦
        let minted = mint t i.now us (no_minting s) in
        let quiet = mint-All t name i.now us (no_minting s) tt in
        elim (Bool-cases minted.1) [
          | inl ok ↦ rw (e, ok, tick) (finish_tick-Keeps i minted.0 s b quiet a)
          | inr ko ↦ rw (e, ko, tick) (quiet-Keeps i.now minted.0.calls s.drain_at b quiet a)
        ]
  ]

  run-IsDrained :
      (is : List Input) (s : Memory) (b : Option ℕ) → Agrees s.drain_at b → IsDrained t name is s b
  run-IsDrained [] s b a = tt
  run-IsDrained (i ∷ is) s b a =
      let (fine, agrees) = tick-Keeps i s b a in
      let r = tick t i s in
      (fine, run-IsDrained is r.memory (deadline_after t name i.now r.calls b) agrees)

  -- In every run from a memory in which no drain of the node is under way, whatever the API server
  -- answers, the node is only deleted at least the drain time after a drain of it was announced.
  pub delete_after_drain :
      (is : List Input) (s : Memory) → lookup name s.drain_at ≡ none → IsDrained t name is s none
  delete_after_drain is s e = run-IsDrained is s none (inl e)

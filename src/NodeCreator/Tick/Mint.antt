-- ===== src/NodeCreator/Tick/Mint.antt =====
-- When a node is created.
use bigfleet_demo.Common.{
  ℕ, ◌≡◌, refl, sym, ap, ◌∙◌, inl, inr, Bool, true, false, not, ◌&&◌, ◌||◌, Option, none, some,
  List, [], ◌∷◌, ◌++◌, Text, codes, arith, ltb, text_eq, text_eq_iff, text_has_eq, if◌then◌else◌,
  Bool-cases, Option-cases,
}
use bigfleet_demo.Common.Dict.{Dict, lookup, insert, lookup-insert}
use bigfleet_demo.Backend.Nodes.{label}
use bigfleet_demo.NodeCreator.Labels.{managed_label}
use bigfleet_demo.NodeCreator.Status.{alloc_matches}
use bigfleet_demo.NodeCreator.Names.{UpcomingNode, realistic_node_name}
use bigfleet_demo.NodeCreator.Tick.{
  Timing, Memory, KwokNode, Call, create_node, update_status, cordon, uncordon, delete_node,
  patch_status, draining, removed, Answers, Minting, mint_one, mint, create, note, reclaim, correct,
  keep, tend, tend_all, is_set, Input, complete, create_failed, finish_tick, no_minting, tick,
  first_seen, is_provisioning, new_node,
}
use bigfleet_demo.NodeCreator.Tick.Rounds.{mint_one_elim, since, seen}

module _ (name : Text) where
  abbrev is_create : Call → Bool
  is_create (create_node n) = text_eq n.name name
  is_create (delete_node n) = false
  is_create (draining n) = false
  is_create (update_status n s) = false
  is_create (cordon n) = false
  is_create (uncordon n) = false
  is_create (patch_status n s) = false
  is_create (removed n) = false

  -- A call creates this node.
  unfoldable pub creates : List Call → Bool
  creates [] = false
  creates (c ∷ cs) = is_create c || creates cs

  creates-append : (xs ys : List Call) → creates (xs ++ ys) ≡ (creates xs || creates ys)
  unfolding creates
  creates-append [] ys = refl
  creates-append (x ∷ xs) ys = ground (arith, creates-append xs ys)

  module _ (t : Timing) (now : ℕ) where
    -- An upcoming node is due under this node name: it is ready, its node does not exist, and the
    -- warm-up is not over or its dwell is, counted from when it was first seen ready.
    abbrev pub is_minted : Dict Text ℕ → UpcomingNode → Answers → Bool
    is_minted first_ready u a =
        u.is_ready
        && (text_eq (realistic_node_name u) name
            && (not a.is_there
                && not (is_provisioning t now (first_seen u.name now first_ready) u.name)))

    unfoldable pub due_in : Dict Text ℕ → List (UpcomingNode × Answers) → Bool
    due_in first_ready [] = false
    due_in first_ready ((u, a) ∷ us) = is_minted first_ready u a || due_in first_ready us

    abbrev Alike : Dict Text ℕ → Dict Text ℕ → Type 0
    Alike d e = (k : Text) → first_seen k now d ≡ first_seen k now e

    due_in-Alike :
        (us : List (UpcomingNode × Answers)) (d e : Dict Text ℕ)
        → Alike d e
        → due_in d us ≡ due_in e us
    unfolding due_in
    due_in-Alike [] d e h = refl
    due_in-Alike ((u, a) ∷ us) d e h = rw (h u.name, due_in-Alike us d e h) refl

    lookup-at : (k : Text) (x : ℕ) (d : Dict Text ℕ) → lookup k d ≡ some x → first_seen k now d ≡ x
    unfolding first_seen
    lookup-at k x d e = rw (e, first_seen) refl

    -- To remember since when a name is ready changes nothing that is read.
    first_seen-insert : (j : Text) (d : Dict Text ℕ) → Alike (insert j (first_seen j now d) d) d
    unfolding first_seen
    first_seen-insert j d k = elim (Bool-cases (text_eq j k)) [
      | inl e ↦
          let moved : lookup j d ≡ lookup k d = ground (arith, e, text_eq_iff j k) in
          rw
            (lookup-at k (first_seen j now d) (insert j (first_seen j now d) d)
              (lookup-insert j k _ d ∙ rw e refl))
            (rw (first_seen, moved) refl)
      | inr e ↦ rw (first_seen, lookup-insert j k _ d, e) refl
    ]

    create-creates :
        (u : UpcomingNode) (a : Answers)
        → creates (create t u a).0 ≡ text_eq (realistic_node_name u) name
    unfolding create creates new_node
    create-creates u a = elim (Bool-cases a.is_created) [
      | inl e ↦ rw (e, create) ground arith
      | inr e ↦ rw (e, create) ground arith
    ]

    -- What one round creates, and that it leaves what the later rounds read.
    abbrev Round : UpcomingNode → Answers → Minting → Minting × Bool → Type 0
    Round u a m r =
        (creates r.0.calls ≡ (creates m.calls || is_minted m.first_ready u a))
        × Alike r.0.first_ready m.first_ready

    note-same :
        (u : UpcomingNode) (m : Minting)
        → ((note t u m).calls ≡ m.calls) × ((note t u m).first_ready ≡ m.first_ready)
    unfolding note
    note-same u m = either u.is_ready _ _ refl refl refl refl
      where
        either :
            (b : Bool) (x y : Minting)
            → x.calls ≡ m.calls
            → y.calls ≡ m.calls
            → x.first_ready ≡ m.first_ready
            → y.first_ready ≡ m.first_ready
            → ((if b then x else y).calls ≡ m.calls)
              × ((if b then x else y).first_ready ≡ m.first_ready)
        either true x y a b c d = (a, c)
        either false x y a b c d = (b, d)

    mint_one-Round :
        (u : UpcomingNode) (a : Answers) (m : Minting) → Round u a m (mint_one t now (u, a) m)
    mint_one-Round u a m =
        let (calls, first_ready) = note-same u m in
        let alike = λ (k : Text). ap (first_seen k now) first_ready in
        let base = ap creates calls in
        let rest : Alike (seen t now u a m).first_ready m.first_ready =
          λ k. first_seen-insert u.name (note t u m).first_ready k ∙ alike k in
        let past : (b : Bool)
            → is_provisioning t now (since t now u a m) u.name ≡ b
            → is_provisioning t now (first_seen u.name now m.first_ready) u.name ≡ b =
          λ b g. ap (λ s. is_provisioning t now s u.name) (sym (alike u.name)) ∙ g in
        mint_one_elim t now u a m (λ (r : Minting × Bool). Round u a m r)
          (λ e. (ground (arith, base, e), alike)) (λ e f. (ground (arith, base, e, f), alike))
          (λ e f g. (ground (arith, base, e, f, past true g), rest))
          (λ e f g. (
            creates-append (note t u m).calls (create t u a).0
                ∙ ground (arith, base, e, f, past false g, create-creates u a),
            rest,
          ))

    -- A loop that ends without an error creates the nodes that are due.
    mint-creates :
        (us : List (UpcomingNode × Answers)) (m : Minting)
        → (mint t now us m).1 ≡ true
        → creates (mint t now us m).0.calls ≡ (creates m.calls || due_in m.first_ready us)
    unfolding mint due_in
    mint-creates [] m ok = ground arith
    mint-creates ((u, a) ∷ us) m ok =
        let (here, alike) = mint_one-Round u a m in
        on (mint_one t now (u, a) m) here alike (mint-creates us (mint_one t now (u, a) m).0) ok
      where
        on :
            (r : Minting × Bool)
            → creates r.0.calls ≡ (creates m.calls || is_minted m.first_ready u a)
            → Alike r.0.first_ready m.first_ready
            → ((mint t now us r.0).1 ≡ true
                → creates (mint t now us r.0).0.calls
                  ≡ (creates r.0.calls || due_in r.0.first_ready us))
            → (if r.1 then mint t now us r.0 else (r.0, false)).1 ≡ true
            → creates (if r.1 then mint t now us r.0 else (r.0, false)).0.calls
              ≡ (creates m.calls || (is_minted m.first_ready u a || due_in m.first_ready us))
        on (m', true) here alike rest ok =
            ground (arith, here, rest ok, due_in-Alike us m'.first_ready m.first_ready alike)
        on (m', false) here alike rest ok = absurd (ground (arith, ok))

    correct-creates : (m : Minting) (n : KwokNode) → creates (correct m n) ≡ false
    unfolding correct creates
    correct-creates m n = elim (Option-cases (lookup n.name m.want_alloc)) [
      | inl e ↦ rw (e, correct) refl
      | inr (r, e) ↦ elim (Bool-cases (alloc_matches n.allocatable r)) [
        | inl q ↦ rw (e, q, correct) refl
        | inr q ↦ rw (e, q, correct) refl
      ]
    ]

    keep-creates : (m : Minting) (n : KwokNode) (d : Dict Text ℕ) → creates (keep m n d).1 ≡ false
    unfolding keep correct creates
    keep-creates m n d = elim (Option-cases (lookup n.name d)) [
      | inl e ↦ rw (e, keep) (correct-creates m n)
      | inr (until, e) ↦ elim (Bool-cases n.is_unschedulable) [
        | inl u ↦ rw (e, u, keep) (correct-creates m n)
        | inr u ↦ rw (e, u, keep) (correct-creates m n)
      ]
    ]

    reclaim-creates : (n : KwokNode) (d : Dict Text ℕ) → creates (reclaim t now n d).1 ≡ false
    unfolding reclaim creates
    reclaim-creates n d = elim (Option-cases (lookup n.name d)) [
      | inl h ↦ elim (Bool-cases n.is_unschedulable) [
        | inl u ↦ rw (h, u, reclaim) refl
        | inr u ↦ rw (h, u, reclaim) refl
      ]
      | inr (until, h) ↦ elim (Bool-cases (ltb now until)) [
        | inl q ↦ rw (h, q, reclaim) refl
        | inr q ↦ rw (h, q, reclaim) refl
      ]
    ]

    tend-creates :
        (m : Minting) (n : KwokNode) (d : Dict Text ℕ) → creates (tend t now m n d).1 ≡ false
    unfolding tend creates
    tend-creates m n d = elim (Bool-cases (text_eq (label managed_label n.labels) (codes "true"))) [
      | inr e ↦ rw (e, tend) refl
      | inl e ↦ elim (Bool-cases (is_set n.name m.want)) [
        | inr w ↦ rw (e, w, tend) (reclaim-creates n d)
        | inl w ↦ rw (e, w, tend) (keep-creates m n d)
      ]
    ]

    tend_all-creates :
        (m : Minting) (ns : List KwokNode) (d : Dict Text ℕ)
        → creates (tend_all t now m ns d).1 ≡ false
    unfolding tend_all creates
    tend_all-creates m [] d = refl
    tend_all-creates m (n ∷ ns) d =
        creates-append (tend t now m n d).1 _
        ∙ ground (arith, tend-creates m n d, tend_all-creates m ns (tend t now m n d).0)

  creates-tick_ready :
      (t : Timing) (now : ℕ) (us : List (UpcomingNode × Answers)) (nodes : Option (List KwokNode))
      (s : Memory)
      → let i : Input = record { now = now; upcoming = some us; nodes = nodes } in
        (tick t i s).outcome ≡ complete → creates (tick t i s).calls ≡ due_in t now s.first_ready us
  unfolding tick finish_tick no_minting creates
  creates-tick_ready t now us nodes s done =
      let minted = mint t now us (no_minting s) in
      let i : Input = record { now = now; upcoming = some us; nodes = nodes } in
      elim (Bool-cases minted.1) [
        | inr ko ↦
            let failed : (tick t i s).outcome ≡ create_failed = rw (ko, tick) refl in
            absurd (ground (arith, failed, done))
        | inl ok ↦ rw (ok, tick) (on nodes (mint-creates t now us (no_minting s) ok))
      ]
    where
      on :
          (nodes : Option (List KwokNode))
          → creates (mint t now us (no_minting s)).0.calls ≡ due_in t now s.first_ready us
          → let i : Input = record { now = now; upcoming = some us; nodes = nodes } in
            creates (finish_tick t i (mint t now us (no_minting s)).0 s).calls
            ≡ due_in t now s.first_ready us
      on none e = e
      on (some ns) e =
          let m = (mint t now us (no_minting s)).0 in
          creates-append m.calls _ ∙ ground (arith, e, tend_all-creates t now m ns s.drain_at)

  -- A tick that completes creates a node exactly where an upcoming node with its name is due: it is
  -- ready, the node does not exist, and either the warm-up is not over or the dwell is, counted from
  -- the tick that first saw it ready.
  pub creates-tick :
      (t : Timing) (i : Input) (s : Memory) (us : List (UpcomingNode × Answers))
      → i.upcoming ≡ some us
      → (tick t i s).outcome ≡ complete
      → creates (tick t i s).calls ≡ due_in t i.now s.first_ready us
  creates-tick t i s us u = rw u (creates-tick_ready t i.now us i.nodes s)

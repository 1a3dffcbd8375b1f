-- ===== src/NodeCreator/Tick/Wanted.antt =====
-- A node that an upcoming node wants is kept.
use bigfleet_demo.Common.{
  ℕ, ◌≡◌, refl, ◌∙◌, ◌⊎◌, inl, inr, true, false, ◌&&◌, none, some, List, [], ◌∷◌, Text, codes,
  arith, ltb, text_eq, text_eq_iff, text_has_eq, Bool-cases, Option-cases,
}
use bigfleet_demo.Common.Dict.{Dict, lookup, lookup-insert, lookup-delete}
use bigfleet_demo.Backend.Nodes.{label}
use bigfleet_demo.NodeCreator.Labels.{managed_label}
use bigfleet_demo.NodeCreator.Names.{UpcomingNode}
use bigfleet_demo.NodeCreator.Tick.{
  Timing, Memory, KwokNode, Answers, Minting, mint, reclaim, keep, tend, tend_all, is_set, Input,
  complete, create_failed, finish_tick, no_minting, tick,
}
use bigfleet_demo.NodeCreator.Tick.Watch.{IsDrained}
use bigfleet_demo.NodeCreator.Tick.Drain.{delete_after_drain}
use bigfleet_demo.NodeCreator.Tick.Quiet.{mint-All, keep-All}
use bigfleet_demo.NodeCreator.Tick.Asked.{
  wanted_in, seen_in, deletes, deletes-append, mint-want, quiet-deletes,
}

module _ (name : Text) where
  module _ (t : Timing) (now : ℕ) (m : Minting) (wanted : is_set name m.want ≡ true) where
    other : (n : KwokNode) → is_set n.name m.want ≡ false → text_eq n.name name ≡ false
    other n e = elim (Bool-cases (text_eq n.name name)) [
      | inr d ↦ d
      | inl s ↦ absurd (ground (arith, s, e, wanted, text_eq_iff n.name name))
    ]

    reclaim-lookup :
        (n : KwokNode) (d : Dict Text ℕ)
        → text_eq n.name name ≡ false
        → lookup name (reclaim t now n d).0 ≡ lookup name d
    unfolding reclaim
    reclaim-lookup n d e = elim (Option-cases (lookup n.name d)) [
      | inl h ↦ rw (h, reclaim) (lookup-insert n.name name _ d ∙ rw e refl)
      | inr (until, h) ↦ elim (Bool-cases (ltb now until)) [
        | inl q ↦ rw (h, q, reclaim) refl
        | inr q ↦ rw (h, q, reclaim) (lookup-delete n.name name d ∙ rw e refl)
      ]
    ]

    keep-lookup :
        (n : KwokNode) (d : Dict Text ℕ)
        → (lookup name (keep m n d).0 ≡ none)
          ⊎ ((text_eq n.name name ≡ false) × (lookup name (keep m n d).0 ≡ lookup name d))
    unfolding keep
    keep-lookup n d = elim (Bool-cases (text_eq n.name name)) [
      | inl s ↦ inl (elim (Option-cases (lookup n.name d)) [
        | inl h ↦ rw (h, keep) (ground (arith, h, s, text_eq_iff n.name name))
        | inr (until, h) ↦ rw (h, keep) (lookup-delete n.name name d ∙ rw s refl)
      ])
      | inr s ↦ inr (
        s,
        elim (Option-cases (lookup n.name d)) [
          | inl h ↦ rw (h, keep) refl
          | inr (until, h) ↦ rw (h, keep) (lookup-delete n.name name d ∙ rw s refl)
        ],
      )
    ]

    -- No round begins a drain of a wanted node.
    tend-lookup :
        (n : KwokNode) (d : Dict Text ℕ)
        → (lookup name (tend t now m n d).0 ≡ none)
          ⊎ (lookup name (tend t now m n d).0 ≡ lookup name d)
    unfolding tend
    tend-lookup n d = elim (Bool-cases (text_eq (label managed_label n.labels) (codes "true"))) [
      | inr e ↦ rw (e, tend) (inr refl)
      | inl e ↦ elim (Bool-cases (is_set n.name m.want)) [
        | inr w ↦ rw (e, w, tend) (inr (reclaim-lookup n d (other n w)))
        | inl w ↦ rw (e, w, tend) (elim (keep-lookup n d) [ inl h ↦ inl h | inr (s, h) ↦ inr h ])
      ]
    ]

    -- The round for the node itself cancels its drain.
    tend-cancels :
        (n : KwokNode) (d : Dict Text ℕ)
        → text_eq (label managed_label n.labels) (codes "true") ≡ true
        → text_eq n.name name ≡ true
        → lookup name (tend t now m n d).0 ≡ none
    unfolding tend
    tend-cancels n d e s = elim (Bool-cases (is_set n.name m.want)) [
      | inr w ↦ absurd (ground (arith, s, other n w))
      | inl w ↦
          rw (e, w, tend)
            (elim (keep-lookup n d) [ inl h ↦ h | inr (x, h) ↦ absurd (ground (arith, s, x)) ])
    ]

    tend_all-none :
        (ns : List KwokNode) (d : Dict Text ℕ)
        → lookup name d ≡ none
        → lookup name (tend_all t now m ns d).0 ≡ none
    unfolding tend_all
    tend_all-none [] d h = h
    tend_all-none (n ∷ ns) d h =
        tend_all-none ns (tend t now m n d).0 (elim (tend-lookup n d) [ inl e ↦ e | inr e ↦ e ∙ h ])

    tend_all-cancels :
        (ns : List KwokNode) (d : Dict Text ℕ)
        → seen_in name ns ≡ true
        → lookup name (tend_all t now m ns d).0 ≡ none
    unfolding tend_all seen_in
    tend_all-cancels [] d h = absurd (ground (arith, h))
    tend_all-cancels (n ∷ ns) d h =
        let later = tend_all-cancels ns (tend t now m n d).0 in
        elim (Bool-cases
          (text_eq (label managed_label n.labels) (codes "true") && text_eq n.name name)) [
            | inl e ↦
                tend_all-none ns (tend t now m n d).0
                  (tend-cancels n d (ground (arith, e)) (ground (arith, e)))
            | inr e ↦ later (ground (arith, h, e))
          ]

    reclaim-deletes :
        (n : KwokNode) (d : Dict Text ℕ)
        → text_eq n.name name ≡ false
        → deletes name (reclaim t now n d).1 ≡ false
    unfolding reclaim deletes
    reclaim-deletes n d e = elim (Option-cases (lookup n.name d)) [
      | inl h ↦ elim (Bool-cases n.is_unschedulable) [
        | inl u ↦ rw (h, u, reclaim) refl
        | inr u ↦ rw (h, u, reclaim) refl
      ]
      | inr (until, h) ↦ elim (Bool-cases (ltb now until)) [
        | inl q ↦ rw (h, q, reclaim) refl
        | inr q ↦ rw (h, q, reclaim, e) refl
      ]
    ]

    tend-deletes : (n : KwokNode) (d : Dict Text ℕ) → deletes name (tend t now m n d).1 ≡ false
    unfolding tend deletes
    tend-deletes n d = elim (Bool-cases (text_eq (label managed_label n.labels) (codes "true"))) [
      | inr e ↦ rw (e, tend) refl
      | inl e ↦ elim (Bool-cases (is_set n.name m.want)) [
        | inr w ↦ rw (e, w, tend) (reclaim-deletes n d (other n w))
        | inl w ↦ rw (e, w, tend) (quiet-deletes name t (keep m n d).1 (keep-All t name m n d))
      ]
    ]

    tend_all-deletes :
        (ns : List KwokNode) (d : Dict Text ℕ) → deletes name (tend_all t now m ns d).1 ≡ false
    unfolding tend_all deletes
    tend_all-deletes [] d = refl
    tend_all-deletes (n ∷ ns) d =
        deletes-append name (tend t now m n d).1 _
        ∙ ground (arith, tend-deletes n d, tend_all-deletes ns (tend t now m n d).0)

  pub minted-want :
      (t : Timing) (i : Input) (s : Memory) (us : List (UpcomingNode × Answers))
      → (mint t i.now us (no_minting s)).1 ≡ true
      → is_set name (mint t i.now us (no_minting s)).0.want ≡ wanted_in name us
  unfolding no_minting is_set lookup
  minted-want t i s us ok = mint-want name t i.now us (no_minting s) ok

  -- A tick whose list of upcoming nodes names the node as ready does not delete it, whether the tick
  -- completes or not.
  pub wanted_not_deleted :
      (t : Timing) (i : Input) (s : Memory) (us : List (UpcomingNode × Answers))
      → i.upcoming ≡ some us
      → wanted_in name us ≡ true
      → deletes name (tick t i s).calls ≡ false
  unfolding tick finish_tick no_minting
  wanted_not_deleted t i s us u w =
      let minted = mint t i.now us (no_minting s) in
      let quiet =
        quiet-deletes name t minted.0.calls (mint-All t name i.now us (no_minting s) tt) in
      elim (Bool-cases minted.1) [
        | inr ko ↦ rw (u, ko, tick) quiet
        | inl ok ↦ elim (Option-cases i.nodes) [
          | inl e ↦ rw (u, ok, e, tick) quiet
          | inr (ns, e) ↦
              rw (u, ok, e, tick, finish_tick)
                (deletes-append name minted.0.calls _
                  ∙ ground (
                    arith,
                    quiet,
                    tend_all-deletes t i.now minted.0 (minted-want t i s us ok ∙ w) ns s.drain_at,
                  ))
        ]
      ]

  cancelled :
      (t : Timing) (i : Input) (s : Memory) (us : List (UpcomingNode × Answers))
      (ns : List KwokNode)
      → i.upcoming ≡ some us
      → i.nodes ≡ some ns
      → wanted_in name us ≡ true
      → seen_in name ns ≡ true
      → (tick t i s).outcome ≡ complete
      → lookup name (tick t i s).memory.drain_at ≡ none
  unfolding tick finish_tick
  cancelled t i s us ns u v w k done =
      let minted = mint t i.now us (no_minting s) in
      elim (Bool-cases minted.1) [
        | inr ko ↦
            let failed : (tick t i s).outcome ≡ create_failed = rw (u, ko, tick) refl in
            absurd (ground (arith, failed, done))
        | inl ok ↦
            rw (u, ok, v, tick, finish_tick)
              (tend_all-cancels t i.now minted.0 (minted-want t i s us ok ∙ w) ns s.drain_at k)
      ]

  -- After a tick that completes, names the node as ready and sees it, no drain of the node is under
  -- way: in every run from there it is drained for the whole time again before it is deleted.
  pub wanted_drains_again :
      (t : Timing) (i : Input) (s : Memory) (us : List (UpcomingNode × Answers))
      (ns : List KwokNode) (is : List Input)
      → i.upcoming ≡ some us
      → i.nodes ≡ some ns
      → wanted_in name us ≡ true
      → seen_in name ns ≡ true
      → (tick t i s).outcome ≡ complete
      → IsDrained t name is (tick t i s).memory none
  wanted_drains_again t i s us ns is u v w k done =
      delete_after_drain t name is (tick t i s).memory (cancelled t i s us ns u v w k done)

-- ===== src/NodeCreator/Tick/Ends.antt =====
-- The rounds of one tick, for a node that is not wanted: its drain begins, goes on, or ends.
use bigfleet_demo.Common.{
  ℕ, ◌+◌, ◌≤◌, ◌≡◌, refl, ◌∙◌, ◌⊎◌, inl, inr, Bool, true, false, ◌&&◌, ◌||◌, none, some, List, [],
  ◌∷◌, ◌++◌, Text, codes, arith, ltb, text_eq, text_eq_iff, text_has_eq, Bool-cases, Option-cases,
}
use bigfleet_demo.Common.Dict.{Dict, lookup, lookup-insert, lookup-delete}
use bigfleet_demo.Backend.Nodes.{label}
use bigfleet_demo.NodeCreator.Labels.{managed_label}
use bigfleet_demo.NodeCreator.Tick.{
  Timing, KwokNode, Call, Minting, reclaim, keep, tend, tend_all, is_set,
}
use bigfleet_demo.NodeCreator.Tick.Asked.{seen_in, deletes, deletes-append}

module _ (name : Text) where
  -- A drain of the node is under way and over by `bound`.
  abbrev pub Pending : ℕ → Dict Text ℕ → Type 0
  Pending bound d = (x : ℕ) × (lookup name d ≡ some x) × (x ≤ bound)

  -- Either the calls delete the node, or a drain of it is under way.
  abbrev pub Leaves : ℕ → Dict Text ℕ × List Call → Type 0
  Leaves bound r = (deletes name r.1 ≡ true) ⊎ Pending bound r.0

  pub then_deleted : (xs ys : List Call) → deletes name xs ≡ true → deletes name (xs ++ ys) ≡ true
  then_deleted xs ys e = deletes-append name xs ys ∙ rw e refl

  pub or_true : {b : Bool} (a : Bool) → b ≡ true → (a || b) ≡ true
  or_true true e = refl
  or_true false e = e

  pub lift :
      {bound : ℕ} (calls : List Call) (r : Dict Text ℕ × List Call)
      → Leaves bound r
      → Leaves bound (r.0, calls ++ r.1)
  lift calls r (inl e) = inl (deletes-append name calls r.1 ∙ or_true (deletes name calls) e)
  lift calls r (inr p) = inr p

  module _ (t : Timing) (now : ℕ) where
    -- A round for this node or another, where it is not wanted.
    pub reclaim-Leaves :
        (n : KwokNode) (bound : ℕ) (d : Dict Text ℕ)
        → Pending bound d
        → Leaves bound (reclaim t now n d)
    unfolding reclaim deletes
    reclaim-Leaves n bound d (x, p, q) = elim (Bool-cases (text_eq n.name name)) [
      | inr o ↦ elim (Option-cases (lookup n.name d)) [
        | inl h ↦ inr (x, rw (h, reclaim) (lookup-insert n.name name _ d ∙ rw o p), q)
        | inr (until, h) ↦ elim (Bool-cases (ltb now until)) [
          | inl e ↦ inr (x, rw (h, e, reclaim) p, q)
          | inr e ↦ inr (x, rw (h, e, reclaim) (lookup-delete n.name name d ∙ rw o p), q)
        ]
      ]
      | inl s ↦
          let same : lookup n.name d ≡ some x = ground (arith, p, s, text_eq_iff n.name name) in
          elim (Bool-cases (ltb now x)) [
            | inl e ↦ inr (x, rw (same, e, reclaim) p, q)
            | inr e ↦ inl (rw (same, e, reclaim, s) refl)
          ]
    ]

    pub keep-other :
        (m : Minting) (n : KwokNode) (bound : ℕ) (d : Dict Text ℕ)
        → text_eq n.name name ≡ false
        → Pending bound d
        → Leaves bound (keep m n d)
    unfolding keep
    keep-other m n bound d o (x, p, q) = elim (Option-cases (lookup n.name d)) [
      | inl h ↦ inr (x, rw (h, keep) p, q)
      | inr (until, h) ↦ inr (x, rw (h, keep) (lookup-delete n.name name d ∙ rw o p), q)
    ]

    module _ (m : Minting) (unwanted : is_set name m.want ≡ false) where
      pub other : (n : KwokNode) → is_set n.name m.want ≡ true → text_eq n.name name ≡ false
      other n e = elim (Bool-cases (text_eq n.name name)) [
        | inr d ↦ d
        | inl s ↦ absurd (ground (arith, s, e, unwanted, text_eq_iff n.name name))
      ]

      pub tend-Leaves :
          (n : KwokNode) (bound : ℕ) (d : Dict Text ℕ)
          → Pending bound d
          → Leaves bound (tend t now m n d)
      unfolding tend
      tend-Leaves n bound d p =
          elim (Bool-cases (text_eq (label managed_label n.labels) (codes "true"))) [
            | inr e ↦ rw (e, tend) (inr p)
            | inl e ↦ elim (Bool-cases (is_set n.name m.want)) [
              | inr w ↦ rw (e, w, tend) (reclaim-Leaves n bound d p)
              | inl w ↦ rw (e, w, tend) (keep-other m n bound d (other n w) p)
            ]
          ]

      pub tend_all-Leaves :
          (ns : List KwokNode) (bound : ℕ) (d : Dict Text ℕ)
          → Pending bound d
          → Leaves bound (tend_all t now m ns d)
      unfolding tend_all
      tend_all-Leaves [] bound d p = inr p
      tend_all-Leaves (n ∷ ns) bound d p = elim (tend-Leaves n bound d p) [
        | inl e ↦ inl (then_deleted (tend t now m n d).1 _ e)
        | inr p' ↦
            lift (tend t now m n d).1 (tend_all t now m ns (tend t now m n d).0)
              (tend_all-Leaves ns bound (tend t now m n d).0 p')
      ]

      -- The first round that sees the node, where no drain of it is under way, begins one.
      pub tend-idle :
          (n : KwokNode) (d : Dict Text ℕ)
          → lookup name d ≡ none
          → (text_eq (label managed_label n.labels) (codes "true") && text_eq n.name name) ≡ false
          → lookup name (tend t now m n d).0 ≡ none
      unfolding tend reclaim keep
      tend-idle n d h o =
          elim (Bool-cases (text_eq (label managed_label n.labels) (codes "true"))) [
            | inr e ↦ rw (e, tend) h
            | inl e ↦
                let apart : text_eq n.name name ≡ false = ground (arith, e, o) in
                elim (Bool-cases (is_set n.name m.want)) [
                  | inr w ↦
                      rw (e, w, tend)
                        (elim (Option-cases (lookup n.name d)) [
                          | inl g ↦ rw (g, reclaim) (lookup-insert n.name name _ d ∙ rw apart h)
                          | inr (until, g) ↦ elim (Bool-cases (ltb now until)) [
                            | inl q ↦ rw (g, q, reclaim) h
                            | inr q ↦ rw (g, q, reclaim) (lookup-delete n.name name d ∙ rw apart h)
                          ]
                        ])
                  | inl w ↦
                      rw (e, w, tend)
                        (elim (Option-cases (lookup n.name d)) [
                          | inl g ↦ rw (g, keep) h
                          | inr (until, g) ↦ rw (g, keep) (lookup-delete n.name name d ∙ rw apart h)
                        ])
                ]
          ]

      pub tend-begins :
          (n : KwokNode) (d : Dict Text ℕ)
          → lookup name d ≡ none
          → (text_eq (label managed_label n.labels) (codes "true") && text_eq n.name name) ≡ true
          → Pending (now + t.drain_dwell) (tend t now m n d).0
      unfolding tend reclaim
      tend-begins n d h o =
          let e : text_eq (label managed_label n.labels) (codes "true") ≡ true =
            ground (arith, o) in
          let s : text_eq n.name name ≡ true = ground (arith, o) in
          let w : is_set n.name m.want ≡ false =
            ground (arith, s, unwanted, text_eq_iff n.name name) in
          let g : lookup n.name d ≡ none = ground (arith, s, h, text_eq_iff n.name name) in
          (
            now + t.drain_dwell,
            rw (e, w, g, tend, reclaim) (lookup-insert n.name name _ d ∙ rw s refl),
            omega arith,
          )

      pub tend_all-begins :
          (ns : List KwokNode) (d : Dict Text ℕ)
          → lookup name d ≡ none
          → seen_in name ns ≡ true
          → Leaves (now + t.drain_dwell) (tend_all t now m ns d)
      unfolding tend_all seen_in
      tend_all-begins [] d h k = absurd (ground (arith, k))
      tend_all-begins (n ∷ ns) d h k =
          let calls = (tend t now m n d).1 in
          let d' = (tend t now m n d).0 in
          elim (Bool-cases
            (text_eq (label managed_label n.labels) (codes "true") && text_eq n.name name)) [
              | inl e ↦
                  lift calls (tend_all t now m ns d')
                    (tend_all-Leaves ns _ d' (tend-begins n d h e))
              | inr e ↦
                  lift calls (tend_all t now m ns d')
                    (tend_all-begins ns d' (tend-idle n d h e) (ground (arith, e, k)))
            ]

      -- The round for the node deletes it when its drain is over.
      pub tend-ends :
          (n : KwokNode) (d : Dict Text ℕ)
          → Pending now d
          → (text_eq (label managed_label n.labels) (codes "true") && text_eq n.name name) ≡ true
          → deletes name (tend t now m n d).1 ≡ true
      unfolding tend reclaim deletes
      tend-ends n d (x, p, q) o =
          let e : text_eq (label managed_label n.labels) (codes "true") ≡ true =
            ground (arith, o) in
          let s : text_eq n.name name ≡ true = ground (arith, o) in
          let w : is_set n.name m.want ≡ false =
            ground (arith, s, unwanted, text_eq_iff n.name name) in
          let g : lookup n.name d ≡ some x = ground (arith, s, p, text_eq_iff n.name name) in
          let over : ltb now x ≡ false = ground (arith, q) in
          rw (e, w, g, over, tend, reclaim, s) refl

      pub tend_all-ends :
          (ns : List KwokNode) (d : Dict Text ℕ)
          → Pending now d
          → seen_in name ns ≡ true
          → deletes name (tend_all t now m ns d).1 ≡ true
      unfolding tend_all seen_in
      tend_all-ends [] d p k = absurd (ground (arith, k))
      tend_all-ends (n ∷ ns) d p k =
          let calls = (tend t now m n d).1 in
          let d' = (tend t now m n d).0 in
          elim (Bool-cases
            (text_eq (label managed_label n.labels) (codes "true") && text_eq n.name name)) [
              | inl e ↦ then_deleted calls _ (tend-ends n d p e)
              | inr e ↦ elim (tend-Leaves n now d p) [
                | inl f ↦ then_deleted calls _ f
                | inr p' ↦
                    deletes-append name calls _
                    ∙ or_true (deletes name calls) (tend_all-ends ns d' p' (ground (arith, e, k)))
              ]
            ]

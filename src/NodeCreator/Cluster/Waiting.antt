-- ===== src/NodeCreator/Cluster/Waiting.antt =====
-- What the controller remembers of an upcoming node that waits for its dwell.
use bigfleet_demo.Common.{
  ℕ, ◌≤◌, ◌≡◌, refl, ap, ◌∙◌, inl, inr, Bool, true, false, not, ◌&&◌, ◌||◌, some, List, [], ◌∷◌,
  arith, Text, text_eq, text_eq_iff, text_has_eq, if◌then◌else◌, Bool-cases,
}
use bigfleet_demo.Common.Dict.{Dict, lookup, insert, lookup-insert}
use bigfleet_demo.NodeCreator.Names.{UpcomingNode}
use bigfleet_demo.NodeCreator.Tick.{
  Timing, Answers, Minting, mint_one, mint, note, is_set, first_seen, keep_live,
}
use bigfleet_demo.NodeCreator.Tick.Asked.{is_set-insert}
use bigfleet_demo.NodeCreator.Tick.Rounds.{mint_one_elim}

module _ (t : Timing) (up : Text) where
  -- The upcoming node `up` is listed as ready, and its node is not there.
  unfoldable pub waits_in : List (UpcomingNode × Answers) → Bool
  waits_in [] = false
  waits_in ((u, a) ∷ us) = (u.is_ready && (not a.is_there && text_eq u.name up)) || waits_in us

  unfoldable pub lives_in : List (UpcomingNode × Answers) → Bool
  lives_in [] = false
  lives_in ((u, a) ∷ us) = text_eq u.name up || lives_in us

  -- It was first seen at `x`.
  abbrev pub Seen : ℕ → Dict Text ℕ → Type 0
  Seen x d = lookup up d ≡ some x

  module _ (now : ℕ) where
    -- To note when another name was first seen, or this one again, changes nothing.
    keep-Seen :
        (x : ℕ) (k : Text) (d : Dict Text ℕ) → Seen x d → Seen x (insert k (first_seen k now d) d)
    unfolding first_seen
    keep-Seen x k d h = elim (Bool-cases (text_eq k up)) [
      | inr e ↦ lookup-insert k up _ d ∙ rw e h
      | inl e ↦
          let same : k ≡ up = (text_eq_iff k up).0 e in
          let kept : lookup k d ≡ some x = ap (λ j. lookup j d) same ∙ h in
          lookup-insert k up _ d ∙ rw e (rw (first_seen, kept) refl)
    ]

    note-first_ready : (u : UpcomingNode) (m : Minting) → (note t u m).first_ready ≡ m.first_ready
    unfolding note
    note-first_ready u m = either u.is_ready _ _ refl refl
      where
        either :
            (b : Bool) (x y : Minting)
            → x.first_ready ≡ m.first_ready
            → y.first_ready ≡ m.first_ready
            → (if b then x else y).first_ready ≡ m.first_ready
        either true x y a c = a
        either false x y a c = c

    mint_one-Seen :
        (x : ℕ) (u : UpcomingNode) (a : Answers) (m : Minting)
        → Seen x m.first_ready
        → Seen x (mint_one t now (u, a) m).0.first_ready
    mint_one-Seen x u a m h =
        let same : Seen x (note t u m).first_ready = ap (lookup up) (note-first_ready u m) ∙ h in
        let more = keep-Seen x u.name (note t u m).first_ready same in
        mint_one_elim t now u a m (λ (r : Minting × Bool). Seen x r.0.first_ready) (λ e. same)
          (λ e f. same) (λ e f g. more) (λ e f g. more)

    pub mint-Seen :
        (x : ℕ) (us : List (UpcomingNode × Answers)) (m : Minting)
        → Seen x m.first_ready
        → Seen x (mint t now us m).0.first_ready
    unfolding mint
    mint-Seen x [] m h = h
    mint-Seen x (v ∷ us) m h =
        let next = mint_one-Seen x v.0 v.1 m h in
        elim (Bool-cases (mint_one t now v m).1) [
          | inl e ↦ rw (e, mint) (mint-Seen x us (mint_one t now v m).0 next)
          | inr e ↦ rw (e, mint) next
        ]

    -- If it was seen before, that was at `now` or earlier.
    abbrev pub IsEarly : Dict Text ℕ → Type 0
    IsEarly d = first_seen up now d ≤ now

    since_at : (x : ℕ) (d : Dict Text ℕ) → lookup up d ≡ some x → first_seen up now d ≡ x
    unfolding first_seen
    since_at x d e = rw (e, first_seen) refl

    keep-IsEarly :
        (k : Text) (d : Dict Text ℕ) → IsEarly d → IsEarly (insert k (first_seen k now d) d)
    unfolding first_seen
    keep-IsEarly k d h = elim (Bool-cases (text_eq k up)) [
      | inl e ↦
          let same : k ≡ up = (text_eq_iff k up).0 e in
          let here =
            since_at (first_seen k now d) (insert k (first_seen k now d) d)
              (lookup-insert k up _ d ∙ rw e refl) in
          rw here (rw same h)
      | inr e ↦
          let here : lookup up (insert k (first_seen k now d) d) ≡ lookup up d =
            lookup-insert k up _ d ∙ rw e refl in
          rw (first_seen, here) h
    ]

    begin-Seen :
        (k : Text) (d : Dict Text ℕ)
        → text_eq k up ≡ true
        → IsEarly d
        → (x : ℕ) × Seen x (insert k (first_seen k now d) d) × (x ≤ now)
    begin-Seen k d e h =
        let same : k ≡ up = (text_eq_iff k up).0 e in
        (
          first_seen up now d,
          lookup-insert k up _ d ∙ rw e (ap (λ j. some (first_seen j now d)) same),
          h,
        )

    mint_one-IsEarly :
        (u : UpcomingNode) (a : Answers) (m : Minting)
        → IsEarly m.first_ready
        → IsEarly (mint_one t now (u, a) m).0.first_ready
    mint_one-IsEarly u a m h =
        let same : IsEarly (note t u m).first_ready = rw (note-first_ready u m) h in
        let more = keep-IsEarly u.name (note t u m).first_ready same in
        mint_one_elim t now u a m (λ (r : Minting × Bool). IsEarly r.0.first_ready) (λ e. same)
          (λ e f. same) (λ e f g. more) (λ e f g. more)

    -- It has been seen, at `now` at the latest.
    abbrev pub WasSeen : Dict Text ℕ → Type 0
    WasSeen d = (x : ℕ) × Seen x d × (x ≤ now)

    mint_one-begins :
        (u : UpcomingNode) (a : Answers) (m : Minting)
        → IsEarly m.first_ready
        → (u.is_ready && (not a.is_there && text_eq u.name up)) ≡ true
        → WasSeen (mint_one t now (u, a) m).0.first_ready
    mint_one-begins u a m h w =
        let same : IsEarly (note t u m).first_ready = rw (note-first_ready u m) h in
        let more = begin-Seen u.name (note t u m).first_ready (ground (arith, w)) same in
        mint_one_elim t now u a m (λ (r : Minting × Bool). WasSeen r.0.first_ready)
          (λ e. absurd (ground (arith, e, w))) (λ e f. absurd (ground (arith, f, w)))
          (λ e f g. more) (λ e f g. more)

    pub mint-begins :
        (us : List (UpcomingNode × Answers)) (m : Minting)
        → IsEarly m.first_ready
        → waits_in us ≡ true
        → (mint t now us m).1 ≡ true
        → WasSeen (mint t now us m).0.first_ready
    unfolding mint waits_in
    mint-begins [] m h w ok = absurd (ground (arith, w))
    mint-begins ((u, a) ∷ us) m h w ok = elim (Bool-cases (mint_one t now (u, a) m).1) [
      | inr e ↦ absurd (ground (arith, rw (e, mint) at ok))
      | inl e ↦
          let m' = (mint_one t now (u, a) m).0 in
          elim (Bool-cases (u.is_ready && (not a.is_there && text_eq u.name up))) [
            | inl f ↦
                let (x, s, early) = mint_one-begins u a m h f in
                rw (e, mint) (x, mint-Seen x us m' s, early)
            | inr f ↦
                rw (e, mint)
                  (mint-begins us m' (mint_one-IsEarly u a m h) (ground (arith, w, f))
                    (rw (e, mint) at ok))
          ]
    ]

    mint_one-live :
        (u : UpcomingNode) (a : Answers) (m : Minting)
        → (mint_one t now (u, a) m).0.live_upn ≡ (note t u m).live_upn
    mint_one-live u a m =
        mint_one_elim t now u a m (λ (r : Minting × Bool). r.0.live_upn ≡ (note t u m).live_upn)
          (λ e. refl) (λ e f. refl) (λ e f g. refl) (λ e f g. refl)

    note-live :
        (u : UpcomingNode) (m : Minting) → (note t u m).live_upn ≡ insert u.name true m.live_upn
    unfolding note
    note-live u m = either u.is_ready _ _ refl refl
      where
        either :
            (b : Bool) (x y : Minting)
            → x.live_upn ≡ insert u.name true m.live_upn
            → y.live_upn ≡ insert u.name true m.live_upn
            → (if b then x else y).live_upn ≡ insert u.name true m.live_upn
        either true x y a c = a
        either false x y a c = c

    -- A loop that ends without an error has the listed names for live.
    pub mint-live :
        (us : List (UpcomingNode × Answers)) (m : Minting)
        → (mint t now us m).1 ≡ true
        → is_set up (mint t now us m).0.live_upn ≡ (is_set up m.live_upn || lives_in us)
    unfolding mint lives_in
    mint-live [] m ok = ground arith
    mint-live ((u, a) ∷ us) m ok = elim (Bool-cases (mint_one t now (u, a) m).1) [
      | inr e ↦ absurd (ground (arith, rw (e, mint) at ok))
      | inl e ↦
          let m' = (mint_one t now (u, a) m).0 in
          let here : is_set up m'.live_upn ≡ (is_set up m.live_upn || text_eq u.name up) =
            ap (is_set up) (mint_one-live u a m ∙ note-live u m)
            ∙ is_set-insert up u.name m.live_upn in
          rw (e, mint) (mint-live us m' (rw (e, mint) at ok) ∙ ground (arith, here))
    ]

  pub keep_live-lookup :
      (live : Dict Text Bool) (d : Dict Text ℕ)
      → is_set up live ≡ true
      → lookup up (keep_live live d) ≡ lookup up d
  unfolding keep_live lookup
  keep_live-lookup live [] h = refl
  keep_live-lookup live ((k, x) ∷ d) h =
      ground (arith, keep_live-lookup live d h, text_eq_iff k up, h)

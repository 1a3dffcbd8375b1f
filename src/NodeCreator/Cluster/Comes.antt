-- ===== src/NodeCreator/Cluster/Comes.antt =====
-- The cluster comes to have the nodes that are wanted.
use bigfleet_demo.Common.{
  ℕ, leb, ◌+◌, ◌≤◌, ◌≡◌, refl, sym, ap, ◌∙◌, ◌⊎◌, inl, inr, Bool, true, false, ◌&&◌, ◌||◌, Option,
  none, some, List, [], ◌∷◌, ◌++◌, arith, Text, text_eq, text_eq_iff, text_has_eq, Bool-cases, All,
}
use bigfleet_demo.Common.Dict.{Dict, lookup}
use bigfleet_demo.NodeCreator.Names.{UpcomingNode, realistic_node_name}
use bigfleet_demo.NodeCreator.Tick.{Timing, Memory, Answers, Input, complete, tick, first_seen}
use bigfleet_demo.NodeCreator.Tick.Asked.{wanted_in}
use bigfleet_demo.NodeCreator.Tick.InTime.{long_ready, created_in_time}
use bigfleet_demo.NodeCreator.Tick.Mint.{creates}
use bigfleet_demo.NodeCreator.Tick.Wanted.{wanted_not_deleted}
use bigfleet_demo.NodeCreator.Cluster.Waiting.{waits_in, lives_in, Seen, IsEarly}
use bigfleet_demo.NodeCreator.Cluster.Ticks.{tick-Seen, tick-begins}
use bigfleet_demo.NodeCreator.Cluster.{
  exists_after, got_exact, gets_exact, IsServed, exists_in, AreServed,
}
use bigfleet_demo.NodeCreator.Cluster.Gone.{listed}

module _ (t : Timing) (name : Text) (up : Text) where
  -- The upcoming node `up` is listed as ready, and gives the node its name.
  unfoldable pub asks_in : List (UpcomingNode × Answers) → Bool
  asks_in [] = false
  asks_in ((u, a) ∷ us) =
      (u.is_ready && (text_eq u.name up && text_eq (realistic_node_name u) name)) || asks_in us

  abbrev pub asks : Input → Bool
  asks i = elim i.upcoming [ none ↦ false | some us ↦ asks_in us ]

  asks-wanted : (us : List (UpcomingNode × Answers)) → asks_in us ≡ true → wanted_in name us ≡ true
  unfolding asks_in wanted_in
  asks-wanted [] h = h
  asks-wanted ((u, a) ∷ us) h = ground (arith, h, asks-wanted us)

  asks-lives : (us : List (UpcomingNode × Answers)) → asks_in us ≡ true → lives_in t up us ≡ true
  unfolding asks_in lives_in
  asks-lives [] h = h
  asks-lives ((u, a) ∷ us) h = ground (arith, h, asks-lives us)

  asks-waits :
      (us : List (UpcomingNode × Answers))
      → asks_in us ≡ true
      → gets_exact t name false us ≡ true
      → waits_in t up us ≡ true
  unfolding asks_in waits_in gets_exact
  asks-waits [] h g = h
  asks-waits ((u, a) ∷ us) h g = ground (arith, h, g, asks-waits us)

  Seen-long :
      (k : Text) (now x : ℕ) (d : Dict Text ℕ)
      → Seen t up x d
      → x + t.dwell.max ≤ now
      → text_eq k up ≡ true
      → leb (first_seen k now d + t.dwell.max) now ≡ true
  unfolding first_seen
  Seen-long k now x d s e same =
      let here : k ≡ up = (text_eq_iff k up).0 same in
      let found : lookup k d ≡ some x = ap (λ i. lookup i d) here ∙ s in
      rw (first_seen, found) (ground (arith, e))

  asks-long :
      (us : List (UpcomingNode × Answers)) (now x : ℕ) (d : Dict Text ℕ)
      → asks_in us ≡ true
      → gets_exact t name false us ≡ true
      → Seen t up x d
      → x + t.dwell.max ≤ now
      → long_ready name t now d us ≡ true
  unfolding asks_in gets_exact long_ready
  asks-long [] now x d h g s e = h
  asks-long ((u, a) ∷ us) now x d h g s e =
      ground (arith, h, g, Seen-long u.name now x d s e, asks-long us now x d)

  asked :
      (i : Input) (us : List (UpcomingNode × Answers))
      → i.upcoming ≡ some us
      → asks i ≡ true
      → asks_in us ≡ true
  asked i us u h =
      sym (
        ap
          (λ (o : Option (List (UpcomingNode × Answers))). elim o [
            | none ↦ false
            | some vs ↦ asks_in vs
          ])
          u)
      ∙ h

  got :
      (b : Bool) (i : Input) (us : List (UpcomingNode × Answers))
      → i.upcoming ≡ some us
      → got_exact t name b i ≡ true
      → gets_exact t name b us ≡ true
  got b i us u h =
      sym (
        ap
          (λ (o : Option (List (UpcomingNode × Answers))). elim o [
            | none ↦ true
            | some vs ↦ gets_exact t name b vs
          ])
          u)
      ∙ h

  -- The node exists, or the controller has known since `bound` or earlier that it is wanted.
  abbrev Waits : ℕ → Memory → Bool → Type 0
  Waits bound s b = (b ≡ true) ⊎ ((b ≡ false) × (x : ℕ) × Seen t up x s.first_ready × (x ≤ bound))

  -- A tick that asks for the node does not delete it.
  kept :
      (i : Input) (s : Memory) (b : Bool)
      → asks i ≡ true
      → (tick t i s).outcome ≡ complete
      → (b || creates name (tick t i s).calls) ≡ true
      → exists_after t name b (tick t i s).calls ≡ true
  kept i s b h done made =
      let (us, u) = listed t name i s done in
      let safe = wanted_not_deleted name t i s us u (asks-wanted us (asked i us u h)) in
      ground (arith, made, safe)

  first-Waits :
      (i : Input) (s : Memory) (b : Bool)
      → asks i ≡ true
      → IsEarly t up i.now s.first_ready
      → IsServed t name i s b
      → Waits i.now (tick t i s).memory (exists_after t name b (tick t i s).calls)
  first-Waits i s true h early served = inl (kept i s true h served.2 refl)
  first-Waits i s false h early served =
      let (us, u) = listed t name i s served.2 in
      let a = asked i us u h in
      let w = asks-waits us a (got false i us u served.0) in
      elim (Bool-cases (exists_after t name false (tick t i s).calls)) [
        | inl e ↦ inl e
        | inr e ↦
            let (x, seen, at) = tick-begins t up i s us u served.2 (asks-lives us a) w early in
            inr (e, x, seen, at)
      ]

  next-Waits :
      (bound : ℕ) (i : Input) (s : Memory) (b : Bool)
      → asks i ≡ true
      → (tick t i s).outcome ≡ complete
      → Waits bound s b
      → Waits bound (tick t i s).memory (exists_after t name b (tick t i s).calls)
  next-Waits bound i s b h done (inl e) = inl (kept i s b h done (rw e refl))
  next-Waits bound i s b h done (inr (e, x, seen, early)) =
      let (us, u) = listed t name i s done in
      let alive = asks-lives us (asked i us u h) in
      elim (Bool-cases (exists_after t name b (tick t i s).calls)) [
        | inl f ↦ inl f
        | inr f ↦ inr (f, x, tick-Seen t up i s us x u done alive seen, early)
      ]

  last_exists :
      (bound : ℕ) (j : Input) (s : Memory) (b : Bool)
      → t.dwell.min ≤ t.dwell.max
      → asks j ≡ true
      → bound + t.dwell.max ≤ j.now
      → IsServed t name j s b
      → Waits bound s b
      → exists_after t name b (tick t j s).calls ≡ true
  last_exists bound j s b order h late served (inl e) = kept j s b h served.2 (rw e refl)
  last_exists bound j s b order h late served (inr (e, x, seen, early)) =
      let (us, u) = listed t name j s served.2 in
      let exact : gets_exact t name false us ≡ true =
        got false j us u (ap (λ c. got_exact t name c j) (sym e) ∙ served.0) in
      let long = asks-long us j.now x s.first_ready (asked j us u h) exact seen (omega arith) in
      kept j s b h served.2 (ground (arith, created_in_time name t j s us order u long served.2))

  reach :
      (bound : ℕ) (mid : List Input) (j : Input) (s : Memory) (b : Bool)
      → t.dwell.min ≤ t.dwell.max
      → All (λ i. asks i ≡ true) mid
      → asks j ≡ true
      → bound + t.dwell.max ≤ j.now
      → AreServed t name (mid ++ j ∷ []) s b
      → Waits bound s b
      → exists_in t name (mid ++ j ∷ []) s b ≡ true
  reach bound [] j s b order a h late served w = last_exists bound j s b order h late served.0 w
  reach bound (i ∷ mid) j s b order a h late served w =
      reach bound mid j (tick t i s).memory _ order a.1 h late served.1
        (next-Waits bound i s b a.0 served.0.2 w)

  -- Where an upcoming node that gives the node its name is listed as ready from one tick to another at
  -- least the longest dwell later, the node exists after them, where the API server answers by what
  -- exists, no call fails, the bounds of the dwell are in order, and the upcoming node was not seen
  -- ready later than the first of the ticks.
  pub wanted_comes :
      (i : Input) (mid : List Input) (j : Input) (s : Memory) (b : Bool)
      → t.dwell.min ≤ t.dwell.max
      → first_seen up i.now s.first_ready ≤ i.now
      → All (λ i. asks i ≡ true) (i ∷ mid)
      → asks j ≡ true
      → i.now + t.dwell.max ≤ j.now
      → AreServed t name (i ∷ mid ++ j ∷ []) s b
      → exists_in t name (i ∷ mid ++ j ∷ []) s b ≡ true
  wanted_comes i mid j s b order early a h late served =
      reach i.now mid j (tick t i s).memory _ order a.1 h late served.1
        (first-Waits i s b a.0 early served.0)

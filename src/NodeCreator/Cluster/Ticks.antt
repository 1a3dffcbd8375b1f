-- ===== src/NodeCreator/Cluster/Ticks.antt =====
-- One tick, for an upcoming node that waits for its dwell.
use bigfleet_demo.Common.{
  ℕ, ◌≡◌, refl, ◌∙◌, inl, inr, true, some, List, arith, Text, text_has_eq, Bool-cases, Option-cases,
}
use bigfleet_demo.Common.Dict.{lookup}
use bigfleet_demo.NodeCreator.Names.{UpcomingNode}
use bigfleet_demo.NodeCreator.Tick.{
  Timing, Memory, Answers, mint, is_set, no_minting, Input, tick, finish_tick, complete,
  create_failed,
}
use bigfleet_demo.NodeCreator.Cluster.Waiting.{
  waits_in, lives_in, Seen, WasSeen, IsEarly, mint-Seen, mint-begins, mint-live, keep_live-lookup,
}

module _ (t : Timing) (up : Text) where
  -- A tick that completes remembers what its loop over the upcoming nodes has noted of a live one.
  tick-first_ready :
      (i : Input) (s : Memory) (us : List (UpcomingNode × Answers))
      → i.upcoming ≡ some us
      → (tick t i s).outcome ≡ complete
      → lives_in t up us ≡ true
      → ((mint t i.now us (no_minting s)).1 ≡ true)
        × (lookup up (tick t i s).memory.first_ready
            ≡ lookup up (mint t i.now us (no_minting s)).0.first_ready)
  unfolding tick finish_tick
  tick-first_ready i s us u done live =
      let minted = mint t i.now us (no_minting s) in
      elim (Bool-cases minted.1) [
        | inr ko ↦
            let failed : (tick t i s).outcome ≡ create_failed = rw (u, ko, tick) refl in
            absurd (ground (arith, failed, done))
        | inl ok ↦
            let alive : is_set up minted.0.live_upn ≡ true =
              mint-live t up i.now us (no_minting s) ok ∙ ground (arith, live) in
            let kept = keep_live-lookup t up minted.0.live_upn minted.0.first_ready alive in
            elim (Option-cases i.nodes) [
              | inl e ↦ (ok, rw (u, ok, e, tick, finish_tick) kept)
              | inr (ns, e) ↦ (ok, rw (u, ok, e, tick, finish_tick) kept)
            ]
      ]

  pub tick-Seen :
      (i : Input) (s : Memory) (us : List (UpcomingNode × Answers)) (x : ℕ)
      → i.upcoming ≡ some us
      → (tick t i s).outcome ≡ complete
      → lives_in t up us ≡ true
      → Seen t up x s.first_ready
      → Seen t up x (tick t i s).memory.first_ready
  unfolding no_minting
  tick-Seen i s us x u done live h =
      (tick-first_ready i s us u done live).1 ∙ mint-Seen t up i.now x us (no_minting s) h

  pub tick-begins :
      (i : Input) (s : Memory) (us : List (UpcomingNode × Answers))
      → i.upcoming ≡ some us
      → (tick t i s).outcome ≡ complete
      → lives_in t up us ≡ true
      → waits_in t up us ≡ true
      → IsEarly t up i.now s.first_ready
      → WasSeen t up i.now (tick t i s).memory.first_ready
  unfolding no_minting
  tick-begins i s us u done live w h =
      let (ok, kept) = tick-first_ready i s us u done live in
      let (x, e, early) = mint-begins t up i.now us (no_minting s) h w ok in (x, kept ∙ e, early)

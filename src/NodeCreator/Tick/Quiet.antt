-- ===== src/NodeCreator/Tick/Quiet.antt =====
-- The calls of a tick that neither announce a drain nor delete.
use bigfleet_demo.Common.{
  ℕ, ◌≡◌, refl, inl, inr, Bool, Option, List, [], ◌∷◌, Text, text_has_eq, Bool-cases, Option-cases,
  All, All-append,
}
use bigfleet_demo.Common.Dict.{Dict, lookup}
use bigfleet_demo.NodeCreator.Names.{UpcomingNode}
use bigfleet_demo.NodeCreator.Status.{alloc_matches}
use bigfleet_demo.NodeCreator.Tick.{
  Timing, KwokNode, Call, Answers, Minting, mint_one, mint, create, note, correct, keep,
}
use bigfleet_demo.NodeCreator.Tick.Rounds.{mint_one_elim}
use bigfleet_demo.NodeCreator.Tick.Watch.{deadline, IsAllowed}

module _ (t : Timing) (name : Text) where
  -- A call that neither announces a drain nor deletes.
  abbrev pub IsQuiet : Call → Type 0
  IsQuiet c = (now : ℕ) (b : Option ℕ) → (deadline t name now c b ≡ b) × IsAllowed t name now c b

  pub correct-All : (m : Minting) (n : KwokNode) → All IsQuiet (correct m n)
  unfolding correct
  correct-All m n = elim (Option-cases (lookup n.name m.want_alloc)) [
    | inl e ↦ rw (e, correct) tt
    | inr (r, e) ↦ elim (Bool-cases (alloc_matches n.allocatable r)) [
      | inl q ↦ rw (e, q, correct) tt
      | inr q ↦ rw (e, q, correct) ((λ now b. (refl, tt)), tt)
    ]
  ]

  pub keep-All : (m : Minting) (n : KwokNode) (d : Dict Text ℕ) → All IsQuiet (keep m n d).1
  unfolding keep correct
  keep-All m n d = elim (Option-cases (lookup n.name d)) [
    | inl e ↦ rw (e, keep) (correct-All m n)
    | inr (until, e) ↦ elim (Bool-cases n.is_unschedulable) [
      | inl u ↦ rw (e, u, keep) ((λ now b. (refl, tt)), correct-All m n)
      | inr u ↦ rw (e, u, keep) (correct-All m n)
    ]
  ]

  create-All : (u : UpcomingNode) (a : Answers) → All IsQuiet (create t u a).0
  unfolding create
  create-All u a = elim (Bool-cases a.is_created) [
    | inl e ↦ rw (e, create) ((λ now b. (refl, tt)), ((λ now b. (refl, tt)), tt))
    | inr e ↦ rw (e, create) ((λ now b. (refl, tt)), tt)
  ]

  note-calls : (u : UpcomingNode) (m : Minting) → (note t u m).calls ≡ m.calls
  unfolding note
  note-calls u m = elim (Bool-cases u.is_ready) [
    | inl e ↦ rw (e, note) refl
    | inr e ↦ rw (e, note) refl
  ]

  mint_one-All :
      (now : ℕ) (x : UpcomingNode × Answers) (m : Minting)
      → All IsQuiet m.calls
      → All IsQuiet (mint_one t now x m).0.calls
  mint_one-All now (u, a) m q =
      let same : All IsQuiet (note t u m).calls = rw (note-calls u m) q in
      mint_one_elim t now u a m (λ (r : Minting × Bool). All IsQuiet r.0.calls) (λ e. same)
        (λ e f. same) (λ e f g. same)
        (λ e f g. All-append IsQuiet (note t u m).calls (create t u a).0 same (create-All u a))

  pub mint-All :
      (now : ℕ) (xs : List (UpcomingNode × Answers)) (m : Minting)
      → All IsQuiet m.calls
      → All IsQuiet (mint t now xs m).0.calls
  unfolding mint
  mint-All now [] m q = q
  mint-All now (x ∷ xs) m q =
      let next = mint_one-All now x m q in
      elim (Bool-cases (mint_one t now x m).1) [
        | inl e ↦ rw (e, mint) (mint-All now xs (mint_one t now x m).0 next)
        | inr e ↦ rw (e, mint) next
      ]

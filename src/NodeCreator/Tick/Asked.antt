-- ===== src/NodeCreator/Tick/Asked.antt =====
-- Which nodes the upcoming nodes ask for, which nodes are listed, and which are deleted.
use bigfleet_demo.Common.{
  ℕ, ◌≡◌, refl, ap, ◌∙◌, inl, inr, Bool, true, false, ◌&&◌, ◌||◌, some, List, [], ◌∷◌, ◌++◌, Text,
  codes, arith, text_eq, text_has_eq, if◌then◌else◌, Bool-cases, All,
}
use bigfleet_demo.Common.Dict.{Dict, insert, lookup-insert}
use bigfleet_demo.Backend.Nodes.{label}
use bigfleet_demo.NodeCreator.Labels.{managed_label}
use bigfleet_demo.NodeCreator.Names.{UpcomingNode, realistic_node_name}
use bigfleet_demo.NodeCreator.Tick.{
  Timing, KwokNode, Call, create_node, update_status, cordon, uncordon, delete_node, patch_status,
  draining, removed, Answers, Minting, mint_one, mint, note, is_set,
}
use bigfleet_demo.NodeCreator.Tick.Rounds.{mint_one_elim}
use bigfleet_demo.NodeCreator.Tick.Quiet.{IsQuiet}

module _ (name : Text) where
  -- An upcoming node that is ready has this node name.
  unfoldable pub wanted_in : List (UpcomingNode × Answers) → Bool
  wanted_in [] = false
  wanted_in ((u, a) ∷ us) = (u.is_ready && text_eq (realistic_node_name u) name) || wanted_in us

  -- A node of the controller has this name.
  unfoldable pub seen_in : List KwokNode → Bool
  seen_in [] = false
  seen_in (n ∷ ns) =
      (text_eq (label managed_label n.labels) (codes "true") && text_eq n.name name) || seen_in ns

  abbrev pub is_delete : Call → Bool
  is_delete (delete_node n) = text_eq n name
  is_delete (draining n) = false
  is_delete (create_node n) = false
  is_delete (update_status n s) = false
  is_delete (cordon n) = false
  is_delete (uncordon n) = false
  is_delete (patch_status n s) = false
  is_delete (removed n) = false

  -- A call deletes this node.
  unfoldable pub deletes : List Call → Bool
  deletes [] = false
  deletes (c ∷ cs) = is_delete c || deletes cs

  pub deletes-append : (xs ys : List Call) → deletes (xs ++ ys) ≡ (deletes xs || deletes ys)
  unfolding deletes
  deletes-append [] ys = refl
  deletes-append (x ∷ xs) ys = ground (arith, deletes-append xs ys)

  pub is_set-insert :
      (k : Text) (d : Dict Text Bool)
      → is_set name (insert k true d) ≡ (is_set name d || text_eq k name)
  unfolding is_set
  is_set-insert k d = elim (Bool-cases (text_eq k name)) [
    | inl e ↦ rw (is_set, lookup-insert k name true d, e) (or_true (is_set name d))
    | inr e ↦ rw (is_set, lookup-insert k name true d, e) (or_false (is_set name d))
  ]
    where
      or_true : (b : Bool) → true ≡ (b || true)
      or_true true = refl
      or_true false = refl

      or_false : (b : Bool) → b ≡ (b || false)
      or_false true = refl
      or_false false = refl

  pub choose-want :
      (b : Bool) (k : Text) (x y : Minting)
      → x.want ≡ insert k true y.want
      → is_set name (if b then x else y).want ≡ (is_set name y.want || (b && text_eq k name))
  choose-want true k x y e = ap (is_set name) e ∙ is_set-insert k y.want
  choose-want false k x y e = ground arith

  pub note-want :
      (t : Timing) (u : UpcomingNode) (m : Minting)
      → is_set name (note t u m).want
        ≡ (is_set name m.want || (u.is_ready && text_eq (realistic_node_name u) name))
  unfolding note
  note-want t u m =
      choose-want u.is_ready (realistic_node_name u) _
        (record m { live_upn = insert u.name true m.live_upn }) refl

  pub mint_one-want :
      (t : Timing) (now : ℕ) (u : UpcomingNode) (a : Answers) (m : Minting)
      → (mint_one t now (u, a) m).0.want ≡ (note t u m).want
  mint_one-want t now u a m =
      mint_one_elim t now u a m (λ (r : Minting × Bool). r.0.want ≡ (note t u m).want) (λ e. refl)
        (λ e f. refl) (λ e f g. refl) (λ e f g. refl)

  -- A loop that ends without an error wants the names of the upcoming nodes that are ready.
  pub mint-want :
      (t : Timing) (now : ℕ) (us : List (UpcomingNode × Answers)) (m : Minting)
      → (mint t now us m).1 ≡ true
      → is_set name (mint t now us m).0.want ≡ (is_set name m.want || wanted_in us)
  unfolding mint wanted_in
  mint-want t now [] m ok = ground arith
  mint-want t now ((u, a) ∷ us) m ok =
      let here = ap (is_set name) (mint_one-want t now u a m) ∙ note-want t u m in
      on (mint_one t now (u, a) m) here (mint-want t now us (mint_one t now (u, a) m).0) ok
    where
      on :
          (r : Minting × Bool)
          → is_set name r.0.want
            ≡ (is_set name m.want || (u.is_ready && text_eq (realistic_node_name u) name))
          → ((mint t now us r.0).1 ≡ true
              → is_set name (mint t now us r.0).0.want ≡ (is_set name r.0.want || wanted_in us))
          → (if r.1 then mint t now us r.0 else (r.0, false)).1 ≡ true
          → is_set name (if r.1 then mint t now us r.0 else (r.0, false)).0.want ≡ (
              is_set name m.want
              || ((u.is_ready && text_eq (realistic_node_name u) name) || wanted_in us))
      on (m', true) here rest ok = ground (arith, here, rest ok)
      on (m', false) here rest ok = absurd (ground (arith, ok))

  pub quiet-deletes : (t : Timing) (cs : List Call) → All (IsQuiet t name) cs → deletes cs ≡ false
  unfolding deletes
  quiet-deletes t [] q = refl
  quiet-deletes t (c ∷ cs) q = ground (arith, one c q.0, quiet-deletes t cs q.1)
    where
      one : (c : Call) → IsQuiet t name c → is_delete c ≡ false
      one (delete_node n) q = elim (Bool-cases (text_eq n name)) [
        | inr e ↦ e
        | inl e ↦ absurd (ground (arith, e, (q 0 (some 0)).0))
      ]
      one (draining n) q = refl
      one (create_node n) q = refl
      one (update_status n s) q = refl
      one (cordon n) q = refl
      one (uncordon n) q = refl
      one (patch_status n s) q = refl
      one (removed n) q = refl

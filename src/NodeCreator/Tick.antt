-- ===== src/NodeCreator/Tick.antt =====
-- cmd/node-creator/main.go: `tick`. The API server's answers are its input, the calls and the lines
-- that it prints are its output.
pub mod Rounds
pub mod Watch
pub mod Quiet
pub mod Drain
pub mod Asked
pub mod Wanted
pub mod Ends
pub mod Removed
pub mod Mint
pub mod InTime
pub mod Ripe
use bigfleet_demo.Common.{
  ℕ, ◌+◌, Bool, true, false, not, ◌&&◌, Option, none, some, List, [], ◌∷◌, ◌++◌, Text, codes, leb,
  ltb, text_eq, text_has_eq, if◌then◌else◌,
}
use bigfleet_demo.Common.Dict.{Dict, lookup, insert, delete}
use bigfleet_demo.Backend.Nodes.{label}
use bigfleet_demo.NodeCreator.Hash.{Dwell, dwell_for}
use bigfleet_demo.NodeCreator.Names.{UpcomingNode, Taint, realistic_node_name}
use bigfleet_demo.NodeCreator.Labels.{managed_label, node_labels, node_annotations}
use bigfleet_demo.NodeCreator.Status.{
  Resources, alloc_res, add_reserve, alloc_matches, NodeStatus, node_status, status_patch,
}

-- The settings of the flags, with the end of the warm-up.
pub record Timing : Type 0 where
  pub dwell : Dwell
  pub drain_dwell : ℕ
  pub warmup_until : ℕ
  pub node_pods : ℕ

-- What the controller remembers from tick to tick.
pub record Memory : Type 0 where
  pub first_ready : Dict Text ℕ
  pub drain_at : Dict Text ℕ

-- A node that a create sends.
pub record NewNode : Type 0 where
  pub name : Text
  pub labels : Dict Text Text
  pub annotations : Dict Text Text
  pub taints : List Taint
  pub provider_id : Text

-- A node of the API server's list, as far as it is read.
pub record KwokNode : Type 0 where
  pub name : Text
  pub labels : Dict Text Text
  pub is_unschedulable : Bool
  pub allocatable : Resources

-- A call, or a printed line: `draining` and `removed`.
pub data Call : Type 0 where
  create_node : NewNode → Call
  update_status : Text → NodeStatus → Call
  cordon : Text → Call
  uncordon : Text → Call
  delete_node : Text → Call
  patch_status : Text → NodeStatus → Call
  draining : Text → Call
  removed : Text → Call

-- What the API server answers for an upcoming node: whether a node with its name exists, and whether a create succeeds.
pub record Answers : Type 0 where
  pub is_there : Bool
  pub is_created : Bool

-- The variables of the loop over the upcoming nodes.
pub record Minting : Type 0 where
  pub first_ready : Dict Text ℕ
  pub want : Dict Text Bool
  pub want_cap : Dict Text Resources
  pub want_alloc : Dict Text Resources
  pub live_upn : Dict Text Bool
  pub calls : List Call

-- `m[k]` of a map to bool.
unfoldable pub is_set : Text → Dict Text Bool → Bool
is_set k d = elim (lookup k d) [ none ↦ false | some b ↦ b ]

unfoldable pub first_seen : Text → ℕ → Dict Text ℕ → ℕ
first_seen k now d = elim (lookup k d) [ none ↦ now | some since ↦ since ]

-- Past the warm-up and within the dwell.
unfoldable pub is_provisioning : Timing → ℕ → ℕ → Text → Bool
is_provisioning t now since name =
    leb t.warmup_until now && ltb now (since + dwell_for t.dwell name)

unfoldable pub new_node : UpcomingNode → NewNode
new_node u =
    let name = realistic_node_name u in
    record {
      name = name;
      labels = node_labels u;
      annotations = node_annotations;
      taints = u.taints;
      provider_id = codes "kwok://" ++ name;
    }

-- An upcoming node is alive, and wanted once it is ready.
unfoldable pub note : Timing → UpcomingNode → Minting → Minting
note t u m =
    let live = insert u.name true m.live_upn in
    let name = realistic_node_name u in
    let alloc = alloc_res t.node_pods u in
    if u.is_ready
    then record m {
      live_upn = live;
      want = insert name true m.want;
      want_cap = insert name (add_reserve alloc) m.want_cap;
      want_alloc = insert name alloc m.want_alloc;
    }
    else record m { live_upn = live }

-- The calls for a node that is due, and whether its create succeeded.
unfoldable pub create : Timing → UpcomingNode → Answers → List Call × Bool
create t u a =
    let name = realistic_node_name u in
    let alloc = alloc_res t.node_pods u in
    if a.is_created
    then (
      create_node (new_node u)
          ∷ update_status name (node_status name (add_reserve alloc) alloc)
          ∷ [],
      true,
    )
    else (create_node (new_node u) ∷ [], false)

-- One round of the loop over the upcoming nodes; false where the tick ends with an error.
unfoldable pub mint_one : Timing → ℕ → UpcomingNode × Answers → Minting → Minting × Bool
mint_one t now (u, a) m =
    let m' = note t u m in
    let since = first_seen u.name now m'.first_ready in
    let seen = record m' { first_ready = insert u.name since m'.first_ready } in
    let (calls, ok) = create t u a in
    if not u.is_ready
    then (m', true)
    else if a.is_there
    then (m', true)
    else if is_provisioning t now since u.name
    then (seen, true)
    else (record seen { calls = seen.calls ++ calls }, ok)

unfoldable pub mint : Timing → ℕ → List (UpcomingNode × Answers) → Minting → Minting × Bool
mint t now [] m = (m, true)
mint t now (x ∷ xs) m =
    let (m', ok) = mint_one t now x m in if ok then mint t now xs m' else (m', false)

-- The upcoming nodes that are gone are forgotten.
unfoldable pub keep_live : Dict Text Bool → Dict Text ℕ → Dict Text ℕ
keep_live live [] = []
keep_live live ((k, since) ∷ d) =
    let rest = keep_live live d in if is_set k live then (k, since) ∷ rest else rest

-- A node that no upcoming node wants.
unfoldable pub reclaim : Timing → ℕ → KwokNode → Dict Text ℕ → Dict Text ℕ × List Call
reclaim t now n drain_at = elim (lookup n.name drain_at) [
  | none ↦ (
    insert n.name (now + t.drain_dwell) drain_at,
    (if n.is_unschedulable then [] else cordon n.name ∷ []) ++ draining n.name ∷ [],
  )
  | some until ↦
      if ltb now until
      then (drain_at, [])
      else (delete n.name drain_at, delete_node n.name ∷ removed n.name ∷ [])
]

-- `m[k]` of a map to resources.
unfoldable pub resources_of : Text → Dict Text Resources → Resources
resources_of k d = elim (lookup k d) [ none ↦ [] | some r ↦ r ]

-- The status is restored where the allocatable resources differ from the wanted ones.
unfoldable pub correct : Minting → KwokNode → List Call
correct m n = elim (lookup n.name m.want_alloc) [
  | none ↦ []
  | some alloc ↦
      let cap = resources_of n.name m.want_cap in
      if alloc_matches n.allocatable alloc
      then []
      else patch_status n.name (status_patch n.name cap alloc) ∷ []
]

-- A node that is wanted: a drain that has begun is cancelled.
unfoldable pub keep : Minting → KwokNode → Dict Text ℕ → Dict Text ℕ × List Call
keep m n drain_at = elim (lookup n.name drain_at) [
  | none ↦ (drain_at, correct m n)
  | some until ↦ (
    delete n.name drain_at,
    (if n.is_unschedulable then uncordon n.name ∷ [] else []) ++ correct m n,
  )
]

-- One round of the loop over the nodes.
unfoldable pub tend : Timing → ℕ → Minting → KwokNode → Dict Text ℕ → Dict Text ℕ × List Call
tend t now m n drain_at =
    if not (text_eq (label managed_label n.labels) (codes "true"))
    then (drain_at, [])
    else if not (is_set n.name m.want)
    then reclaim t now n drain_at
    else keep m n drain_at

unfoldable pub tend_all :
    Timing → ℕ → Minting → List KwokNode → Dict Text ℕ → Dict Text ℕ × List Call
tend_all t now m [] drain_at = (drain_at, [])
tend_all t now m (n ∷ ns) drain_at =
    let (drain_at', calls) = tend t now m n drain_at in
    let (end, rest) = tend_all t now m ns drain_at' in (end, calls ++ rest)

-- The answers of one tick; a list is `none` where the call fails.
pub record Input : Type 0 where
  pub now : ℕ
  pub upcoming : Option (List (UpcomingNode × Answers))
  pub nodes : Option (List KwokNode)

pub data Outcome : Type 0 where
  complete : Outcome
  upcoming_unlisted : Outcome
  create_failed : Outcome
  nodes_unlisted : Outcome

pub record Ticked : Type 0 where
  pub memory : Memory
  pub calls : List Call
  pub outcome : Outcome

unfoldable pub no_minting : Memory → Minting
no_minting s = record {
  first_ready = s.first_ready;
  want = [];
  want_cap = [];
  want_alloc = [];
  live_upn = [];
  calls = [];
}

-- From the end of the loop over the upcoming nodes.
unfoldable pub finish_tick : Timing → Input → Minting → Memory → Ticked
finish_tick t i m s =
    let first_ready = keep_live m.live_upn m.first_ready in
    elim i.nodes [
      | none ↦ record {
        memory = record s { first_ready = first_ready };
        calls = m.calls;
        outcome = nodes_unlisted;
      }
      | some ns ↦
          let (drain_at, calls) = tend_all t i.now m ns s.drain_at in
          record {
            memory = record { first_ready = first_ready; drain_at = drain_at };
            calls = m.calls ++ calls;
            outcome = complete;
          }
    ]

unfoldable pub tick : Timing → Input → Memory → Ticked
tick t i s = elim i.upcoming [
  | none ↦ record { memory = s; calls = []; outcome = upcoming_unlisted }
  | some us ↦
      let (m, ok) = mint t i.now us (no_minting s) in
      if ok then finish_tick t i m s else record {
        memory = record s { first_ready = m.first_ready };
        calls = m.calls;
        outcome = create_failed;
      }
]

-- ===== src/Host/Scripts.antt =====
-- cmd/demohost/main.go: `spawn`, `reap`, `sweepOrphans`, `reapAll`, `boolEnv` and `lastLines`: the
-- scripts that bring stacks up and take them down, as commands. A script stands for its path under
-- `hack/`, a duration of the environment for its print.
pub mod Sweep
pub mod Once
pub mod Shutdown
use bigfleet_demo.Common.{
  ℕ, ◌-◌, Bool, true, false, not, ◌&&◌, Option, none, some, List, [], ◌∷◌, ◌++◌, map, Text, codes,
  ltb, eqb, length, drop, text_has_eq, if◌then◌else◌,
}
use mathlib.Core.List.{reverse}
use bigfleet_demo.Common.Decimal.{decimal}
use bigfleet_demo.Common.Dict.{Dict, insert}
use bigfleet_demo.Host.State.{Config, Session, Host}
use bigfleet_demo.Host.Http.{trim_space, is_empty}
use bigfleet_demo.Host.Memory.{split, cut_suffix}

pub data Script : Type 0 where
  demo_up demo_down demo_build : Script

pub data Setting : Type 0 where
  text : Text → Setting
  duration : ℕ → Setting

-- `exec.Command`: the script, its directory, and what is added to the environment of the daemon.
pub record Command : Type 0 where
  pub script : Script
  pub dir : Text
  pub env : List (Text × Setting)

unfoldable pub bool_env : Bool → Text
bool_env true = codes "1"
bool_env false = codes "0"

unfoldable pub spawn_command : Config → Session → Command
unfolding bool_env
spawn_command cfg s = record {
  script = demo_up;
  dir = cfg.repo;
  env =
      (codes "SESSION_ID", text s.id)
      ∷ (codes "PORT_BASE", text (decimal s.port_base))
      ∷ (codes "DASHBOARDS", text (bool_env cfg.dashboards))
      ∷ (codes "SESSION_TTL", duration cfg.ttl)
      ∷ (codes "SESSION_IDLE_TIMEOUT", duration cfg.idle)
      ∷ (codes "SKIP_BUILD", text (codes "1"))
      ∷ [];
}

unfoldable pub reap_command : Config → Text → ℕ → Command
reap_command cfg id port_base = record {
  script = demo_down;
  dir = cfg.repo;
  env = (codes "SESSION_ID", text id) ∷ (codes "PORT_BASE", text (decimal port_base)) ∷ [];
}

unfoldable pub skip_newlines : Text → Text
skip_newlines [] = []
skip_newlines (c ∷ s) = if eqb c 10 then skip_newlines s else c ∷ s

-- `strings.TrimRight(s, "\n")`
unfoldable pub trim_newlines : Text → Text
unfolding skip_newlines
trim_newlines s = reverse (skip_newlines (reverse s))

-- The lines that `lastLines` joins.
unfoldable pub last_of : ℕ → List Text → List Text
last_of n ls = if ltb n (length ls) then drop (length ls - n) ls else ls

unfoldable pub join : ℕ → List Text → Text
join sep [] = []
join sep (l ∷ []) = l
join sep (l ∷ m ∷ ms) = l ++ (sep ∷ join sep (m ∷ ms))

unfoldable pub last_lines : Text → ℕ → Text
last_lines s n = join 10 (last_of n (split 10 (trim_newlines s)))

-- `failed`: the error of the run and what the script printed; the result is the error of `spawn`.
unfoldable pub spawn : Option (Text × Text) → Option Text
spawn none = none
spawn (some (err, out)) = some (codes "demo-up.sh: " ++ (err ++ (10 ∷ last_lines out 12)))

unfoldable pub reap_all : Host → List Command
reap_all h = map (λ (e : Text × Session). reap_command h.cfg e.1.id e.1.port_base) h.sessions

abbrev pub cluster_suffixes : List Text
cluster_suffixes = codes "-cluster-a" ∷ codes "-cluster-b" ∷ codes "-cluster-c" ∷ []

-- An entry of the directory `run/sessions`.
pub record Entry : Type 0 where
  pub name : Text
  pub is_dir : Bool

-- A set of ids, as a Go map to `struct{}`.
abbrev pub Ids : Type 0
Ids = Dict Text (Unit {0})

-- The ids that the name of a cluster stands for.
unfoldable pub add_suffixes : List Text → Text → Ids → Ids
add_suffixes [] ln ids = ids
add_suffixes (suf ∷ sufs) ln ids =
    add_suffixes sufs ln (elim (cut_suffix suf ln) [ none ↦ ids | some id ↦ insert id tt ids ])

unfoldable pub add_lines : List Text → Ids → Ids
add_lines [] ids = ids
add_lines (ln ∷ lns) ids = add_lines lns (add_suffixes cluster_suffixes (trim_space ln) ids)

unfoldable pub add_entries : List Entry → Ids → Ids
add_entries [] ids = ids
add_entries (e ∷ es) ids =
    add_entries es (if e.is_dir && not (is_empty e.name) then insert e.name tt ids else ids)

-- The ids that are left over, from the lines of `kwokctl get clusters` and the directory; each is
-- `none` where it cannot be read.
unfoldable pub orphans : Option Text → Option (List Entry) → Ids
orphans out entries =
    let clusters : Ids = elim out [ none ↦ [] | some s ↦ add_lines (split 10 (trim_space s)) [] ] in
    elim entries [ none ↦ clusters | some es ↦ add_entries es clusters ]

unfoldable pub sweep_orphans : Config → Option Text → Option (List Entry) → List Command
sweep_orphans cfg out entries =
    map (λ (k : Text × Unit {0}). reap_command cfg k.0 0) (orphans out entries)
